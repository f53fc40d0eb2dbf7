-- ===== src/Encode/Reference.antt =====
-- The bytes of a message with no output buffer: what a field holds is put behind its tag and its
-- length, and the fields one behind the other. It reads the objects as src/encode/mod.rs does, and
-- knows no reserved slot, no payload that is moved and no tag that is taken back.
use fastproto.Common.{
  ℕ, zero, suc, ◌+◌, ltb, ◌||◌, if◌then◌else◌, true, false, Option, List, [], ◌∷◌, ◌++◌, length,
  map, get_elem?, replicate, Result, ok, err, out_of_fuel, ◌>>=◌, ok_or,
}
use fastproto.Common.Int.{as_u64}
use fastproto.Wire.Types.{varint}
use fastproto.Wire.Writer.{write_varint}
use fastproto.Descriptor.Types.{
  ScalarType, FieldKind, MapValue, Label, FieldDescriptor, single, optional, repeated, wire_type,
  is_packable, max_depth,
}
use fastproto.WellKnown.Codec.{is_zero}
use fastproto.Message.Link.{LinkedRef, Refs, Handle}
use fastproto.Message.Class.{Descriptor}
use fastproto.Python.{
  Python, Runtime, CodecError, not_a_sequence, not_a_dict, nesting_exceeded, raised, panicked,
}
use fastproto.Encode.Scalars.{extracted, write_parts_field, encode_scalar, encode_scalar_field}
use fastproto.Encode.Repeated.{
  drawn, Written, is_present, linked_of, items_of, datetime_parts, timedelta_parts, descriptor_for,
}
use fastproto.Encode.Message.{count_member, check_counts, write_unknown}
use fastproto.Encode.Writes.{each, tagged, chunked, chunked_or_nothing}

module _ (py : Python) (rt : Runtime py) where
  unfoldable pub enum_bytes : py.Obj → Written
  enum_bytes value = do v ← extracted py (py.extract_i32 value); ok (write_varint [] (as_u64 v))

  unfoldable pub datetime_bytes : ℕ → py.Obj → Written
  datetime_bytes number value = do
    (secs, nanos) ← datetime_parts py rt value
    ok (write_parts_field [] number secs nanos)

  unfoldable pub timedelta_bytes : ℕ → py.Obj → Written
  timedelta_bytes number value = do
    (secs, nanos) ← timedelta_parts py rt value
    ok (write_parts_field [] number secs nanos)

  unfoldable pub items_bytes : (py.Obj → Written) → py.Obj → Written
  items_bytes g value = do items ← items_of py rt value; each g items

  module _ (heap : Handle → Descriptor py.Obj)
      (nested : py.Obj → Descriptor py.Obj → ℕ → Written) where
    unfoldable pub nested_bytes : py.Obj → Option (LinkedRef py.Obj) → ℕ → Written
    nested_bytes value linked depth = do
      desc ← descriptor_for py rt value linked
      nested value (heap desc) (depth + 1)

    abbrev pub message_field : ℕ → Option (LinkedRef py.Obj) → ℕ → py.Obj → Written
    message_field number linked depth value = do
      payload ← nested_bytes value linked depth
      ok (chunked number payload)

    unfoldable pub single_bytes : ℕ → FieldKind → py.Obj → Option (Refs py.Obj) → ℕ → Written
    single_bytes number (FieldKind.scalar s) value refs depth =
        encode_scalar_field py [] number s value false
    single_bytes number FieldKind.enum value refs depth = do
      payload ← enum_bytes value
      ok (tagged number varint payload)
    single_bytes number FieldKind.message value refs depth =
        message_field number (linked_of refs number) depth value
    single_bytes number FieldKind.timestamp value refs depth = datetime_bytes number value
    single_bytes number FieldKind.duration value refs depth = timedelta_bytes number value
    single_bytes number (FieldKind.map_of k v) value refs depth = err panicked

    -- A list: one chunk of all payloads, or nothing if there is none; or a field for each item.
    unfoldable pub list_bytes : ℕ → FieldKind → py.Obj → Option (Refs py.Obj) → ℕ → Written
    list_bytes number (FieldKind.scalar s) value refs depth =
        if is_packable s
        then (do
          payload ← items_bytes (λ item. encode_scalar py [] s item) value
          ok (chunked_or_nothing number payload))
        else items_bytes
            (λ item. do
              payload ← encode_scalar py [] s item
              ok (tagged number (wire_type s) payload))
            value
    list_bytes number FieldKind.enum value refs depth = do
      payload ← items_bytes enum_bytes value
      ok (chunked_or_nothing number payload)
    list_bytes number FieldKind.message value refs depth =
        items_bytes (message_field number (linked_of refs number) depth) value
    list_bytes number FieldKind.timestamp value refs depth =
        items_bytes (datetime_bytes number) value
    list_bytes number FieldKind.duration value refs depth =
        items_bytes (timedelta_bytes number) value
    list_bytes number (FieldKind.map_of k v) value refs depth = err panicked

    unfoldable pub repeated_bytes : ℕ → FieldKind → py.Obj → Option (Refs py.Obj) → ℕ → Written
    repeated_bytes number kind value refs depth =
        if py.is_str value || is_present (py.cast_bytes value)
        then err not_a_sequence
        else list_bytes number kind value refs depth

    unfoldable pub map_value_bytes : MapValue → py.Obj → Option (LinkedRef py.Obj) → ℕ → Written
    map_value_bytes (MapValue.scalar s) v linked depth = do
      payload ← encode_scalar py [] s v
      ok (tagged 2 (wire_type s) payload)
    map_value_bytes MapValue.enum v linked depth = do
      payload ← enum_bytes v
      ok (tagged 2 varint payload)
    map_value_bytes MapValue.message v linked depth = message_field 2 linked depth v
    map_value_bytes MapValue.timestamp v linked depth = datetime_bytes 2 v
    map_value_bytes MapValue.duration v linked depth = timedelta_bytes 2 v

    unfoldable pub entry_bytes :
        ScalarType → MapValue → Option (LinkedRef py.Obj) → ℕ → py.Obj × py.Obj → Written
    entry_bytes key value_kind linked depth (k, v) = do
      key_payload ← (do payload ← encode_scalar py [] key k; ok (tagged 1 (wire_type key) payload))
      value_payload ← map_value_bytes value_kind v linked depth
      ok (key_payload ++ value_payload)

    unfoldable pub map_bytes :
        ℕ → ScalarType → MapValue → py.Obj → Option (Refs py.Obj) → ℕ → Written
    map_bytes number key value_kind value refs depth = do
      dict ← ok_or (rt.cast_dict value) not_a_dict
      each
          (λ entry. do
            payload ← entry_bytes key value_kind (linked_of refs number) depth entry
            ok (chunked number payload))
          (map drawn dict)

    unfoldable pub implicit_bytes : ℕ → FieldKind → py.Obj → Option (Refs py.Obj) → ℕ → Written
    implicit_bytes number (FieldKind.scalar s) value refs depth =
        encode_scalar_field py [] number s value true
    implicit_bytes number FieldKind.enum value refs depth = do
      v ← extracted py (py.extract_i32 value)
      if is_zero v then ok [] else ok (tagged number varint (write_varint [] (as_u64 v)))
    implicit_bytes number kind value refs depth = single_bytes number kind value refs depth

    unfoldable pub labelled_bytes :
        Label → FieldDescriptor → py.Obj → Option (Refs py.Obj) → ℕ → Written
    labelled_bytes repeated f value refs depth = repeated_bytes f.number f.kind value refs depth
    labelled_bytes optional f value refs depth =
        if rt.is_none value then ok [] else single_bytes f.number f.kind value refs depth
    labelled_bytes single f value refs depth = implicit_bytes f.number f.kind value refs depth

    unfoldable pub kind_bytes :
        FieldKind → FieldDescriptor → py.Obj → Option (Refs py.Obj) → ℕ → Written
    kind_bytes (FieldKind.map_of key val_kind) f value refs depth =
        map_bytes f.number key val_kind value refs depth
    kind_bytes _ f value refs depth = labelled_bytes f.label f value refs depth

  -- The counters after a field: a set member of a oneof counts in its group.
  unfoldable pub labelled_count :
      Label → FieldDescriptor → py.Obj → List ℕ → Result CodecError (List ℕ)
  labelled_count optional f value counts =
      if rt.is_none value then ok counts else count_member counts f.oneof_index
  labelled_count _ f value counts = ok counts

  unfoldable pub kind_count :
      FieldKind → FieldDescriptor → py.Obj → List ℕ → Result CodecError (List ℕ)
  kind_count (FieldKind.map_of key val_kind) f value counts = ok counts
  kind_count _ f value counts = labelled_count f.label f value counts

  module _ (heap : Handle → Descriptor py.Obj)
      (nested : py.Obj → Descriptor py.Obj → ℕ → Written) where
    unfoldable pub fields_bytes :
        Descriptor py.Obj → py.Obj → ℕ → ℕ → List FieldDescriptor → List ℕ → Written
    fields_bytes desc instance depth idx [] counts = do
      checked ← check_counts [] counts
      unknown ← write_unknown py rt instance []
      ok (checked ++ unknown)
    fields_bytes desc instance depth idx (f ∷ fs) counts = do
      name ← ok_or (get_elem? desc.names idx) panicked
      value ← ok_or (rt.getattr instance name) raised
      counts' ← kind_count f.kind f value counts
      first ← kind_bytes heap nested f.kind f value desc.refs depth
      rest ← fields_bytes desc instance depth (suc idx) fs counts'
      ok (first ++ rest)

  module _ (heap : Handle → Descriptor py.Obj) where
    unfoldable pub message_bytes : ℕ → py.Obj → Descriptor py.Obj → ℕ → Written
    message_bytes zero instance desc depth = out_of_fuel
    message_bytes (suc fuel) instance desc depth = elim (ltb max_depth depth) [
      | true ↦ err nesting_exceeded
      | false ↦
          fields_bytes heap (message_bytes fuel) desc instance depth 0 desc.inner.fields
            (replicate (length desc.inner.oneofs) 0)
    ]
