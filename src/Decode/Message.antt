-- ===== src/Decode/Message.antt =====
-- `decode_message`, `construct_fast` and `set_unknown` of src/decode/mod.rs, and `decode` of
-- src/message/mod.rs. The fuel counts the calls of `decode_message` that stand in one another; the
-- check of the depth stops them before it is used up.
use fastproto.Common.{
  ℕ, zero, suc, ◌+◌, ltb, ◌&&◌, not, if◌then◌else◌, true, false, Option, none, some, List, [], ◌∷◌,
  ◌++◌, get_elem?, Result, ok, err, out_of_fuel, ◌>>=◌, ok_or, map_err,
}
use fastproto.Common.Utf8.{Text}
use fastproto.Wire.Types.{WireType, varint, len, wire_eq}
use fastproto.Wire.Reader.{Reader, read_tag, read_len_delimited, raw_since, skip}
use fastproto.Wire.Loop.{read_all}
use fastproto.Descriptor.Types.{FieldKind, FieldDescriptor, wire_type, max_depth}
use fastproto.Descriptor.Index.{get}
use fastproto.Message.Link.{LinkedRef, Handle, FastInit}
use fastproto.Message.Class.{Descriptor, is_repeated}
use fastproto.Python.{Python, Runtime, CodecError, malformed, nesting_exceeded, raised, panicked}
use fastproto.Encode.Scalars.{is_nil}
use fastproto.Encode.Repeated.{linked_of}
use fastproto.Encode.Message.{unknown_name}
use fastproto.Decode.Scalars.{checked, decode_scalar}
use fastproto.Decode.Values.{
  decode_datetime, decode_timedelta, decode_enum, decode_child, decode_repeated, decode_map_entry,
}
use fastproto.Decode.Slots.{
  Slot, present, list_slot, dict_slot, Collected, accumulators, put, dict_at, list_at, take_group,
  set_kwarg, taken,
}

-- The wire type of a singular field.
unfoldable pub expected : FieldKind → WireType
expected (FieldKind.scalar s) = wire_type s
expected FieldKind.enum = varint
expected _ = len

module _ {Obj : Type 0} where
  -- The field is skipped, and its bytes are kept.
  unfoldable pub keep_unknown :
      Collected Obj → ℕ → WireType → Reader → Result CodecError (Collected Obj × Reader)
  keep_unknown s start w r = do
    r' ← map_err malformed (skip w r)
    ok (record s { unknown = s.unknown ++ raw_since r' start }, r')

  -- `values[idx] = Some(...)` of an object that was read.
  unfoldable pub store :
      Collected Obj
      → ℕ
      → Result CodecError (Obj × Reader)
      → Result CodecError (Collected Obj × Reader)
  store s idx read = do
    (o, r') ← read
    values' ← put s.values idx (present o)
    ok (record s { values = values' }, r')

module _ (py : Python) (rt : Runtime py) where
  unfoldable pub set_unknown : py.Obj → List ℕ → Result CodecError py.Obj
  set_unknown instance unknown = elim (rt.setattr instance unknown_name (py.from_bytes unknown)) [
    | some instance' ↦ ok instance'
    | none ↦ ok_or (rt.object_setattr instance unknown_name (py.from_bytes unknown)) raised
  ]

  abbrev pub or_default : Option py.Obj → List py.Obj → ℕ → Result CodecError py.Obj
  or_default (some o) defaults idx = ok o
  or_default none defaults idx = ok_or (get_elem? defaults idx) panicked

  -- The loop of `construct_fast` over the values from index `idx` on.
  unfoldable pub fill_instance :
      Descriptor py.Obj → List py.Obj → ℕ → List (Slot py.Obj) → py.Obj → Result CodecError py.Obj
  fill_instance desc defaults idx [] instance = ok instance
  fill_instance desc defaults idx (value ∷ values) instance = do
    name ← ok_or (get_elem? desc.names idx) panicked
    o ← or_default (taken py rt value) defaults idx
    instance' ← ok_or (rt.setattr instance name o) raised
    fill_instance desc defaults (suc idx) values instance'

  unfoldable pub construct_fast :
      Descriptor py.Obj → FastInit py.Obj → Collected py.Obj → Result CodecError py.Obj
  construct_fast desc fast s = do
    instance ← ok_or (rt.object_new fast.cls) raised
    filled ← fill_instance desc fast.defaults 0 s.values instance
    set_unknown filled s.unknown

  -- The loop that gathers the keyword arguments, from index `idx` on.
  unfoldable pub keywords :
      Descriptor py.Obj
      → ℕ
      → List (Slot py.Obj)
      → List (Text × py.Obj)
      → Result CodecError (List (Text × py.Obj))
  keywords desc idx [] kwargs = ok kwargs
  keywords desc idx (value ∷ values) kwargs = elim (taken py rt value) [
    | none ↦ keywords desc (suc idx) values kwargs
    | some o ↦ do
      name ← ok_or (get_elem? desc.names idx) panicked
      keywords desc (suc idx) values (set_kwarg kwargs name o)
  ]

  unfoldable pub construct :
      py.Obj → Descriptor py.Obj → Collected py.Obj → Result CodecError py.Obj
  construct cls desc s = do
    kwargs ← keywords desc 0 s.values []
    instance ← ok_or (rt.call_class cls kwargs) raised
    if is_nil s.unknown then ok instance else set_unknown instance s.unknown

  -- What stands behind the loop: the fast path is for exactly the class that was verified.
  unfoldable pub build_instance :
      py.Obj
      → Descriptor py.Obj
      → Option (FastInit py.Obj)
      → Collected py.Obj
      → Result CodecError py.Obj
  build_instance cls desc none s = construct cls desc s
  build_instance cls desc (some fast) s =
      if rt.same cls fast.cls then construct_fast desc fast s else construct cls desc s

  module _ (heap : Handle → Descriptor py.Obj)
      (nested : py.Obj → Descriptor py.Obj → List ℕ → ℕ → Result CodecError py.Obj) where
    -- The arms of the `match` on the kind for a field that is neither a map nor repeated.
    unfoldable pub singular_arm :
        FieldKind
        → ℕ
        → Option (LinkedRef py.Obj)
        → ℕ
        → Collected py.Obj
        → Reader
        → Result CodecError (Collected py.Obj × Reader)
    singular_arm (FieldKind.scalar sc) idx linked depth s r = store s idx (decode_scalar py sc r)
    singular_arm FieldKind.enum idx linked depth s r = store s idx (decode_enum py rt linked r)
    singular_arm FieldKind.message idx linked depth s r =
        store s idx (decode_child py rt heap nested linked depth r)
    singular_arm FieldKind.timestamp idx linked depth s r = store s idx (decode_datetime py rt r)
    singular_arm FieldKind.duration idx linked depth s r = store s idx (decode_timedelta py rt r)
    singular_arm (FieldKind.map_of k v) idx linked depth s r = err panicked

    unfoldable pub repeated_field :
        FieldKind
        → ℕ
        → Option (LinkedRef py.Obj)
        → ℕ
        → ℕ
        → WireType
        → Collected py.Obj
        → Reader
        → Result CodecError (Collected py.Obj × Reader)
    repeated_field kind idx linked depth start w s r = do
      list ← list_at s.values idx
      handled ← decode_repeated py rt heap nested kind linked w r list depth
      elim handled [
        | none ↦ keep_unknown s start w r
        | some (list', r') ↦ do
          values' ← put s.values idx (list_slot list')
          ok (record s { values = values' }, r')
      ]

    unfoldable pub kind_arm :
        FieldDescriptor
        → ℕ
        → Option (LinkedRef py.Obj)
        → ℕ
        → ℕ
        → WireType
        → FieldKind
        → Collected py.Obj
        → Reader
        → Result CodecError (Collected py.Obj × Reader)
    kind_arm f idx linked depth start w (FieldKind.map_of key value) s r = do
      (entry, r') ← checked (read_len_delimited r)
      (k, v) ← decode_map_entry py rt heap nested key value linked entry depth
      dict ← dict_at s.values idx
      dict' ← ok_or (rt.set_item dict k v) raised
      values' ← put s.values idx (dict_slot dict')
      ok (record s { values = values' }, r')
    kind_arm f idx linked depth start w kind s r =
        if is_repeated f.label
        then repeated_field kind idx linked depth start w s r
        else singular_arm kind idx linked depth s r

    -- A field that the message has, behind its tag.
    unfoldable pub known_field :
        FieldDescriptor
        → ℕ
        → Option (LinkedRef py.Obj)
        → ℕ
        → ℕ
        → WireType
        → Collected py.Obj
        → Reader
        → Result CodecError (Collected py.Obj × Reader)
    known_field f idx linked depth start w s r =
        if not (is_repeated f.label) && not (wire_eq w (expected f.kind))
        then keep_unknown s start w r
        else (do
          s' ← take_group f.oneof_index f.label idx s
          kind_arm f idx linked depth start w f.kind s' r)

    unfoldable pub field_arm :
        Descriptor py.Obj
        → ℕ
        → ℕ
        → ℕ
        → WireType
        → Option ℕ
        → Collected py.Obj
        → Reader
        → Result CodecError (Collected py.Obj × Reader)
    field_arm desc depth start number w none s r = keep_unknown s start w r
    field_arm desc depth start number w (some idx) s r = do
      f ← ok_or (get_elem? desc.inner.fields idx) panicked
      known_field f idx (linked_of desc.refs number) depth start w s r

    unfoldable pub field_round :
        Descriptor py.Obj
        → ℕ
        → Collected py.Obj
        → Reader
        → Result CodecError (Collected py.Obj × Reader)
    field_round desc depth s r = do
      ((number, w), r') ← checked (read_tag r)
      field_arm desc depth r.pos number w (get desc.field_index number) s r'

    -- The loop over the bytes.
    unfoldable pub collect : Descriptor py.Obj → List ℕ → ℕ → Result CodecError (Collected py.Obj)
    collect desc bytes depth =
        read_all (field_round desc depth)
          (record { values = accumulators desc.inner.fields; unknown = []; owner = [] }) bytes

  module _ (heap : Handle → Descriptor py.Obj) where
    unfoldable pub decode_message :
        ℕ → py.Obj → Descriptor py.Obj → List ℕ → ℕ → Result CodecError py.Obj
    decode_message zero cls desc bytes depth = out_of_fuel
    decode_message (suc fuel) cls desc bytes depth = elim (ltb max_depth depth) [
      | true ↦ err nesting_exceeded
      | false ↦ do
        s ← collect heap (decode_message fuel) desc bytes depth
        build_instance cls desc desc.fast_init s
    ]

    -- `decode` of the descriptor: a call for each depth from 0 to 101, which fails.
    unfoldable pub decode : Descriptor py.Obj → py.Obj → List ℕ → Result CodecError py.Obj
    decode desc cls bytes = decode_message (max_depth + 2) cls desc bytes 0
