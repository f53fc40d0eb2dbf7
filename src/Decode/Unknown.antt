-- ===== src/Decode/Unknown.antt =====
-- The unknown fields that `decode_message` of src/decode/mod.rs keeps, against a pass over the bytes
-- that reads tags and skips fields, and decodes nothing.
use fastproto.Common.{
  Gives, Gives-ok, Gives-bind, ℕ, ◌≡◌, refl, ap, ◌∙◌, if◌then◌else◌, Bool, true, false, Option,
  none, some, List, [], ◌++◌, Result, ok, ◌>>=◌, ok_or, map_err,
}
use fastproto.Wire.Types.{WireType, varint, len, wire_eq}
use fastproto.Wire.Reader.{Reader, read_tag, read_len_delimited, raw_since, skip}
use fastproto.Wire.Loop.{read_all}
use fastproto.Descriptor.Types.{
  FieldKind, MapValue, ScalarType, Label, single, optional, repeated, FieldDescriptor, wire_type,
  is_map,
}
use fastproto.Descriptor.Index.{field_by_number}
use fastproto.Message.Link.{LinkedRef, Handle}
use fastproto.Message.Class.{Descriptor, is_repeated}
use fastproto.Python.{Python, Runtime, CodecError, malformed, raised}
use fastproto.Decode.Scalars.{checked}
use fastproto.Decode.Values.{decode_repeated, decode_map_entry}
use fastproto.Decode.Slots.{
  present, list_slot, dict_slot, Collected, put, dict_at, list_at, owner_of, clear_other,
  take_group,
}
use fastproto.Decode.Message.{expected, keep_unknown, store, singular_arm, repeated_field, kind_arm}
use fastproto.Decode.Skips.{
  map_err-eq-ok, Skips, chunk-Skips, decode_scalar-Skips, decode_datetime-Skips,
  decode_timedelta-Skips, decode_enum-Skips,
}
use fastproto.Decode.Taken.{
  decode_child-Skips, accepts, wire_eq→eq, Handled, decode_repeated-Handled,
}

-- Whether the message has the field, in that wire type.
unfoldable pub recognised : Option FieldDescriptor → WireType → Bool
recognised none w = false
recognised (some f) w =
    if is_repeated f.label then accepts f.kind w else wire_eq w (expected f.kind)

unfoldable pub unknown_round :
    List FieldDescriptor → List ℕ → Reader → Result CodecError (List ℕ × Reader)
unknown_round fs unknown r = do
  ((number, w), r') ← checked (read_tag r)
  r'' ← map_err malformed (skip w r')
  ok (
    if recognised (field_by_number fs number) w then unknown else unknown ++ raw_since r'' r.pos,
    r'',
  )

-- The bytes of the fields that the message does not have, tags included, in their order.
unfoldable pub unknown_fields : List FieldDescriptor → List ℕ → Result CodecError (List ℕ)
unknown_fields fs bytes = read_all (unknown_round fs) [] bytes

-- A field that was skipped, and its bytes where it is not recognised.
abbrev pub Follows :
    {Obj : Type 0} → Bool → WireType → Reader → ℕ → List ℕ → Collected Obj × Reader → Type 0
Follows b w r start u (s, r') =
    (skip w r ≡ ok r') × (s.unknown ≡ (if b then u else u ++ raw_since r' start))

module _ {Obj : Type 0} where
  pub keep_unknown-Follows :
      (s : Collected Obj) (start : ℕ) (w : WireType) (r : Reader)
      → Gives (Follows false w r start s.unknown) (keep_unknown s start w r)
  unfolding keep_unknown
  keep_unknown-Follows s start w r =
      Gives-bind _ (map_err malformed (skip w r)) _
        λ r' e. Gives-ok _ _ (map_err-eq-ok malformed (skip w r) r' e, refl)

  store-Follows :
      (s : Collected Obj) (idx start : ℕ) (w v : WireType) (r : Reader)
      (read : Result CodecError (Obj × Reader))
      → w ≡ v
      → Skips v r read
      → Gives (Follows true w r start s.unknown) (store s idx read)
  unfolding store
  store-Follows s idx start w v r read same h = Gives-bind _ read _ λ p e.
      Gives-bind _ (put s.values idx (present p.0)) _
        λ values e'. Gives-ok _ _ (ap (λ (x : WireType). skip x r) same ∙ h p e, refl)

  pub take_group-unknown :
      (o : Option ℕ) (label : Label) (idx : ℕ) (s : Collected Obj)
      → Gives (λ (t : Collected Obj). t.unknown ≡ s.unknown) (take_group o label idx s)
  unfolding take_group
  take_group-unknown none label idx s = Gives-ok _ s refl
  take_group-unknown (some group) single idx s = Gives-ok _ s refl
  take_group-unknown (some group) repeated idx s = Gives-ok _ s refl
  take_group-unknown (some group) optional idx s =
      Gives-bind _ (clear_other (owner_of s.owner group) idx s.values) _
        (λ values e. Gives-ok _ _ refl)

module _ (py : Python) (rt : Runtime py) (heap : Handle → Descriptor py.Obj)
    (nested : py.Obj → Descriptor py.Obj → List ℕ → ℕ → Result CodecError py.Obj) (depth : ℕ) where
  module _ (f : FieldDescriptor) (idx : ℕ) (l : Option (LinkedRef py.Obj)) (start : ℕ)
      (w : WireType) (s : Collected py.Obj) (r : Reader) where
    pub singular_arm-Follows :
        (kind : FieldKind)
        → is_map kind ≡ false
        → wire_eq w (expected kind) ≡ true
        → Gives
            (Follows true w r start s.unknown)
            (singular_arm py rt heap nested kind idx l depth s r)
    unfolding singular_arm expected
    singular_arm-Follows (FieldKind.scalar sc) h e =
        store-Follows s idx start w (wire_type sc) r _ (wire_eq→eq _ _ e)
          (decode_scalar-Skips py sc r)
    singular_arm-Follows FieldKind.enum h e =
        store-Follows s idx start w varint r _ (wire_eq→eq _ _ e) (decode_enum-Skips py rt l r)
    singular_arm-Follows FieldKind.message h e =
        store-Follows s idx start w len r _ (wire_eq→eq _ _ e)
          (decode_child-Skips py rt heap nested depth l r)
    singular_arm-Follows FieldKind.timestamp h e =
        store-Follows s idx start w len r _ (wire_eq→eq _ _ e) (decode_datetime-Skips py rt r)
    singular_arm-Follows FieldKind.duration h e =
        store-Follows s idx start w len r _ (wire_eq→eq _ _ e) (decode_timedelta-Skips py rt r)
    singular_arm-Follows (FieldKind.map_of k v) h e = cc

    repeated_rest-Follows :
        (b : Bool) (o : Option (List py.Obj × Reader))
        → Handled py rt heap nested depth b w r o
        → Gives (Follows b w r start s.unknown) (elim o [
          | none ↦ keep_unknown s start w r
          | some (list', r') ↦ do
            values' ← put s.values idx (list_slot list')
            ok (record s { values = values' }, r')
        ])
    repeated_rest-Follows b none h = rw h (keep_unknown-Follows s start w r)
    repeated_rest-Follows b (some (list', r')) (h, k) =
        rw h
          (Gives-bind _ (put s.values idx (list_slot list')) _ (λ values e. Gives-ok _ _ (k, refl)))

    pub repeated_field-Follows :
        (kind : FieldKind)
        → is_map kind ≡ false
        → Gives
            (Follows (accepts kind w) w r start s.unknown)
            (repeated_field py rt heap nested kind idx l depth start w s r)
    unfolding repeated_field
    repeated_field-Follows kind h = Gives-bind _ (list_at s.values idx) _ λ list e.
        Gives-bind _ (decode_repeated py rt heap nested kind l w r list depth) _ λ o e'.
          repeated_rest-Follows (accepts kind w) o
            (decode_repeated-Handled py rt heap nested depth kind l w r list h o e')

    pub map_arm-Follows :
        (key : ScalarType) (value : MapValue)
        → wire_eq w len ≡ true
        → Gives
            (Follows true w r start s.unknown)
            (kind_arm py rt heap nested f idx l depth start w (FieldKind.map_of key value) s r)
    unfolding kind_arm
    map_arm-Follows key value same = Gives-bind _ (checked (read_len_delimited r)) _ λ p e.
        Gives-bind _ (decode_map_entry py rt heap nested key value l p.0 depth) _ λ kv e₁.
          Gives-bind _ (dict_at s.values idx) _ λ dict e₂.
            Gives-bind _ (ok_or (rt.set_item dict kv.0 kv.1) raised) _ λ dict' e₃.
              Gives-bind _ (put s.values idx (dict_slot dict')) _ λ values e₄.
                Gives-ok _ _ (
                  ap (λ (x : WireType). skip x r) (wire_eq→eq w len same) ∙ chunk-Skips r p e,
                  refl,
                )
