-- ===== src/Encode/Message.antt =====
-- The walk over a message: `encode_message` of src/encode/mod.rs, and `encode` of
-- src/message/mod.rs. The fuel counts the calls of `encode_message` that stand in one another;
-- the check of the depth stops them before it is used up.
use fastproto.Common.{
  ℕ, zero, suc, ◌+◌, ltb, if◌then◌else◌, true, false, Option, none, some, List, [], ◌∷◌, ◌++◌,
  length, get_elem?, set, replicate, Result, ok, err, out_of_fuel, ◌>>=◌, ok_or,
}
use fastproto.Common.Int.{as_u64}
use fastproto.Common.Utf8.{Text, codes}
use fastproto.Wire.Types.{varint}
use fastproto.Wire.Writer.{write_varint, write_tag}
use fastproto.Descriptor.Types.{
  FieldKind, Label, FieldDescriptor, single, optional, repeated, max_depth,
}
use fastproto.WellKnown.Codec.{is_zero}
use fastproto.Message.Link.{Refs, Handle}
use fastproto.Message.Class.{Descriptor}
use fastproto.Python.{
  Python, Runtime, CodecError, nesting_exceeded, oneof_conflict, raised, panicked,
}
use fastproto.Encode.Scalars.{extracted, byte_slice, encode_scalar_field}
use fastproto.Encode.Repeated.{Written, encode_single, encode_repeated, encode_map}

abbrev pub unknown_name : Text
unknown_name = codes "_fastproto_unknown"

-- `saturating_add(1)` of a `u8`.
abbrev pub saturating_suc : ℕ → ℕ
saturating_suc n = if ltb n 255 then n + 1 else 255

-- `oneof_counts[group]` counted up: a panic out of bounds.
unfoldable pub count_member : List ℕ → Option ℕ → Result CodecError (List ℕ)
count_member counts none = ok counts
count_member counts (some group) = do
  n ← ok_or (get_elem? counts group) panicked
  ok (set counts group (saturating_suc n))

-- The loop over the counters behind the walk.
unfoldable pub check_counts : List ℕ → List ℕ → Written
check_counts buf [] = ok buf
check_counts buf (n ∷ counts) =
    let rest = check_counts buf counts in if ltb 1 n then err oneof_conflict else rest

module _ (py : Python) (rt : Runtime py) where
  -- The unknown fields that the decoder kept; a slot that is unset is nothing to write.
  unfoldable pub append_unknown : Option py.Obj → List ℕ → Written
  append_unknown none buf = ok buf
  append_unknown (some raw) buf = do b ← byte_slice py raw; ok (buf ++ b)

  unfoldable pub write_unknown : py.Obj → List ℕ → Written
  write_unknown instance buf = append_unknown (rt.getattr instance unknown_name) buf

  -- What stands behind the loop over the fields.
  unfoldable pub after_fields : py.Obj → List ℕ → List ℕ → Written
  after_fields instance counts buf = do
    checked ← check_counts buf counts
    write_unknown instance checked

  module _ (heap : Handle → Descriptor py.Obj)
      (nested : py.Obj → Descriptor py.Obj → List ℕ → ℕ → Written) where
    -- A field with implicit presence.
    unfoldable pub encode_implicit :
        List ℕ → ℕ → FieldKind → py.Obj → Option (Refs py.Obj) → ℕ → Written
    encode_implicit buf number (FieldKind.scalar s) value refs depth =
        encode_scalar_field py buf number s value true
    encode_implicit buf number FieldKind.enum value refs depth = do
      v ← extracted py (py.extract_i32 value)
      if is_zero v then ok buf else ok (write_varint (write_tag buf number varint) (as_u64 v))
    encode_implicit buf number kind value refs depth =
        encode_single py rt heap nested buf number kind value refs depth

    -- The branches of the loop's body on the label: the counters and the buffer after the field.
    unfoldable pub encode_labelled :
        Label
        → FieldDescriptor
        → py.Obj
        → Option (Refs py.Obj)
        → ℕ
        → List ℕ
        → List ℕ
        → Result CodecError (List ℕ × List ℕ)
    encode_labelled repeated f value refs depth counts buf = do
      buf' ← encode_repeated py rt heap nested buf f.number f.kind value refs depth
      ok (counts, buf')
    encode_labelled optional f value refs depth counts buf =
        if rt.is_none value then ok (counts, buf) else (do
          counts' ← count_member counts f.oneof_index
          buf' ← encode_single py rt heap nested buf f.number f.kind value refs depth
          ok (counts', buf'))
    encode_labelled single f value refs depth counts buf = do
      buf' ← encode_implicit buf f.number f.kind value refs depth
      ok (counts, buf')

    -- The branches on the kind: a map is written before the label is looked at.
    unfoldable pub encode_kind :
        FieldKind
        → FieldDescriptor
        → py.Obj
        → Option (Refs py.Obj)
        → ℕ
        → List ℕ
        → List ℕ
        → Result CodecError (List ℕ × List ℕ)
    encode_kind (FieldKind.map_of key val_kind) f value refs depth counts buf = do
      buf' ← encode_map py rt heap nested buf f.number key val_kind value refs depth
      ok (counts, buf')
    encode_kind _ f value refs depth counts buf =
        encode_labelled f.label f value refs depth counts buf

    unfoldable pub encode_field :
        FieldDescriptor
        → py.Obj
        → Option (Refs py.Obj)
        → ℕ
        → List ℕ
        → List ℕ
        → Result CodecError (List ℕ × List ℕ)
    encode_field f value refs depth counts buf = encode_kind f.kind f value refs depth counts buf

    -- The loop over the fields from index `idx` on, and what stands behind it.
    unfoldable pub encode_fields :
        Descriptor py.Obj → py.Obj → ℕ → ℕ → List FieldDescriptor → List ℕ → List ℕ → Written
    encode_fields desc instance depth idx [] counts buf = after_fields instance counts buf
    encode_fields desc instance depth idx (f ∷ fs) counts buf = do
      name ← ok_or (get_elem? desc.names idx) panicked
      value ← ok_or (rt.getattr instance name) raised
      (counts', buf') ← encode_field f value desc.refs depth counts buf
      encode_fields desc instance depth (suc idx) fs counts' buf'

  module _ (heap : Handle → Descriptor py.Obj) where
    unfoldable pub encode_message : ℕ → py.Obj → Descriptor py.Obj → List ℕ → ℕ → Written
    encode_message zero instance desc buf depth = out_of_fuel
    encode_message (suc fuel) instance desc buf depth = elim (ltb max_depth depth) [
      | true ↦ err nesting_exceeded
      | false ↦
          encode_fields heap (encode_message fuel) desc instance depth 0 desc.inner.fields
            (replicate (length desc.inner.oneofs) 0) buf
    ]

    -- `encode` of the descriptor: a call for each depth from 0 to 101, which fails.
    unfoldable pub encode : Descriptor py.Obj → py.Obj → Written
    encode desc instance = encode_message (max_depth + 2) instance desc [] 0
