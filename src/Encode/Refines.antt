-- ===== src/Encode/Refines.antt =====
-- The parts of src/encode/mod.rs on the buffer write the bytes of the reference.
use fastproto.Common.{
  ℕ, ◌+◌, refl, ◌||◌, if◌then◌else◌, Bool, true, false, Option, List, [], map, ok, err, ok_or,
}
use fastproto.Common.Int.{as_u64}
use fastproto.Wire.Types.{varint}
use fastproto.Wire.Writer.{write_varint, write_tag}
use fastproto.Descriptor.Types.{ScalarType, FieldKind, MapValue, wire_type, is_packable}
use fastproto.WellKnown.Codec.{is_zero}
use fastproto.Message.Link.{LinkedRef, Refs, Handle}
use fastproto.Message.Class.{Descriptor}
use fastproto.Python.{Python, Runtime, not_a_sequence, not_a_dict}
use fastproto.Encode.Scalars.{extracted, encode_scalar}
use fastproto.Encode.Repeated.{
  drawn, Written, is_present, linked_of, framed, for_each, items_of, for_each_item, datetime_parts,
  timedelta_parts, write_datetime, write_timedelta, write_enum, descriptor_for, encode_nested,
  encode_single, repeated_arm, encode_repeated, encode_map_value, encode_entry, encode_map,
}
use fastproto.Encode.Message.{encode_implicit}
use fastproto.Encode.Writes.{
  Writes, Writes-same, Writes-bind, Writes-if, Writes-then, Writes-tag, Writes-framed, Writes-each,
  each, tagged,
}
use fastproto.Encode.Rollback.{Writes-framed_or_nothing}
use fastproto.Encode.Behind.{
  write_varint-Writes, write_parts_field-Writes, encode_scalar-Writes, encode_scalar_field-Writes,
}
use fastproto.Encode.Reference.{
  enum_bytes, datetime_bytes, timedelta_bytes, items_bytes, nested_bytes, message_field,
  single_bytes, list_bytes, repeated_bytes, map_value_bytes, entry_bytes, map_bytes, implicit_bytes,
}

module _ (py : Python) (rt : Runtime py) where
  write_enum-Writes : (o : py.Obj) → Writes (λ buf. write_enum py rt buf o) (enum_bytes py rt o)
  unfolding write_enum enum_bytes
  write_enum-Writes o =
      Writes-bind (extracted py (py.extract_i32 o)) _ _ (λ v. write_varint-Writes (as_u64 v))

  write_datetime-Writes :
      (number : ℕ) (o : py.Obj)
      → Writes (λ buf. write_datetime py rt buf number o) (datetime_bytes py rt number o)
  unfolding write_datetime datetime_bytes
  write_datetime-Writes number o =
      Writes-bind (datetime_parts py rt o) _ _ (λ p. write_parts_field-Writes number p.0 p.1)

  write_timedelta-Writes :
      (number : ℕ) (o : py.Obj)
      → Writes (λ buf. write_timedelta py rt buf number o) (timedelta_bytes py rt number o)
  unfolding write_timedelta timedelta_bytes
  write_timedelta-Writes number o =
      Writes-bind (timedelta_parts py rt o) _ _ (λ p. write_parts_field-Writes number p.0 p.1)

  for_each_item-Writes :
      (f : List ℕ → py.Obj → Written) (g : py.Obj → Written)
      → ((o : py.Obj) → Writes (λ buf. f buf o) (g o))
      → (value : py.Obj)
      → Writes (λ buf. for_each_item py rt f buf value) (items_bytes py rt g value)
  unfolding for_each_item items_bytes
  for_each_item-Writes f g h value =
      Writes-bind (items_of py rt value) (λ items buf. for_each f buf items) (each g)
        (λ items. Writes-each f g h items)

  module _ (heap : Handle → Descriptor py.Obj)
      (nested : py.Obj → Descriptor py.Obj → List ℕ → ℕ → Written)
      (inner : py.Obj → Descriptor py.Obj → ℕ → Written)
      (refines : (o : py.Obj) (d : Descriptor py.Obj) (depth : ℕ)
        → Writes (λ buf. nested o d buf depth) (inner o d depth)) where
    message_field-Writes :
        (number : ℕ) (linked : Option (LinkedRef py.Obj)) (depth : ℕ) (o : py.Obj)
        → Writes
            (framed (λ reserved. encode_nested py rt heap nested reserved o linked depth) number)
            (message_field py rt heap inner number linked depth o)
    unfolding encode_nested nested_bytes
    message_field-Writes number linked depth o = Writes-framed _ _ number (
        Writes-bind (descriptor_for py rt o linked)
          (λ desc buf. nested o (heap desc) buf (depth + 1)) _
          (λ desc. refines o (heap desc) (depth + 1)))

    pub encode_single-Writes :
        (number : ℕ) (kind : FieldKind) (o : py.Obj) (refs : Option (Refs py.Obj)) (depth : ℕ)
        → Writes
            (λ buf. encode_single py rt heap nested buf number kind o refs depth)
            (single_bytes py rt heap inner number kind o refs depth)
    unfolding encode_single single_bytes write_enum enum_bytes
    encode_single-Writes number (FieldKind.scalar s) o refs depth =
        encode_scalar_field-Writes py number s o false
    encode_single-Writes number FieldKind.enum o refs depth =
        Writes-tag (λ buf. write_enum py rt buf o) (enum_bytes py rt o) number varint
          (write_enum-Writes o)
    encode_single-Writes number FieldKind.message o refs depth =
        message_field-Writes number (linked_of refs number) depth o
    encode_single-Writes number FieldKind.timestamp o refs depth = write_datetime-Writes number o
    encode_single-Writes number FieldKind.duration o refs depth = write_timedelta-Writes number o
    encode_single-Writes number (FieldKind.map_of k v) o refs depth = λ buf. refl

    repeated_arm-Writes :
        (number : ℕ) (kind : FieldKind) (o : py.Obj) (refs : Option (Refs py.Obj)) (depth : ℕ)
        → Writes
            (λ buf. repeated_arm py rt heap nested buf number kind o refs depth)
            (list_bytes py rt heap inner number kind o refs depth)
    unfolding repeated_arm list_bytes
    repeated_arm-Writes number (FieldKind.scalar s) o refs depth =
        Writes-if (is_packable s) _ _ _ _
          (Writes-framed_or_nothing _ _ number (
            for_each_item-Writes _ (λ item. encode_scalar py [] s item)
              (λ item. encode_scalar-Writes py s item) o))
          (for_each_item-Writes _ _
            (λ item.
              Writes-tag (λ b. encode_scalar py b s item) _ number (wire_type s)
                (encode_scalar-Writes py s item))
            o)
    repeated_arm-Writes number FieldKind.enum o refs depth =
        Writes-framed_or_nothing _ _ number
          (for_each_item-Writes (write_enum py rt) (enum_bytes py rt) write_enum-Writes o)
    repeated_arm-Writes number FieldKind.message o refs depth =
        for_each_item-Writes _ (message_field py rt heap inner number (linked_of refs number) depth)
          (message_field-Writes number (linked_of refs number) depth) o
    repeated_arm-Writes number FieldKind.timestamp o refs depth =
        for_each_item-Writes _ (datetime_bytes py rt number) (write_datetime-Writes number) o
    repeated_arm-Writes number FieldKind.duration o refs depth =
        for_each_item-Writes _ (timedelta_bytes py rt number) (write_timedelta-Writes number) o
    repeated_arm-Writes number (FieldKind.map_of k v) o refs depth = λ buf. refl

    pub encode_repeated-Writes :
        (number : ℕ) (kind : FieldKind) (o : py.Obj) (refs : Option (Refs py.Obj)) (depth : ℕ)
        → Writes
            (λ buf. encode_repeated py rt heap nested buf number kind o refs depth)
            (repeated_bytes py rt heap inner number kind o refs depth)
    unfolding encode_repeated repeated_bytes
    encode_repeated-Writes number kind o refs depth =
        Writes-if (py.is_str o || is_present (py.cast_bytes o)) (λ buf. err not_a_sequence) _ _ _
          (λ buf. refl) (repeated_arm-Writes number kind o refs depth)

    encode_map_value-Writes :
        (kind : MapValue) (o : py.Obj) (linked : Option (LinkedRef py.Obj)) (depth : ℕ)
        → Writes
            (λ buf. encode_map_value py rt heap nested buf kind o linked depth)
            (map_value_bytes py rt heap inner kind o linked depth)
    unfolding encode_map_value map_value_bytes
    encode_map_value-Writes (MapValue.scalar s) o linked depth =
        Writes-tag (λ buf. encode_scalar py buf s o) _ 2 (wire_type s) (encode_scalar-Writes py s o)
    encode_map_value-Writes MapValue.enum o linked depth =
        Writes-tag (λ buf. write_enum py rt buf o) _ 2 varint (write_enum-Writes o)
    encode_map_value-Writes MapValue.message o linked depth = message_field-Writes 2 linked depth o
    encode_map_value-Writes MapValue.timestamp o linked depth = write_datetime-Writes 2 o
    encode_map_value-Writes MapValue.duration o linked depth = write_timedelta-Writes 2 o

    encode_entry-Writes :
        (key : ScalarType) (kind : MapValue) (linked : Option (LinkedRef py.Obj)) (depth : ℕ)
        (entry : py.Obj × py.Obj)
        → Writes
            (λ buf. encode_entry py rt heap nested key kind linked depth buf entry)
            (entry_bytes py rt heap inner key kind linked depth entry)
    unfolding encode_entry entry_bytes
    encode_entry-Writes key kind linked depth (k, v) =
        Writes-then (λ buf. encode_scalar py (write_tag buf 1 (wire_type key)) key k) _ _ _
          (Writes-tag (λ buf. encode_scalar py buf key k) _ 1 (wire_type key)
            (encode_scalar-Writes py key k))
          (encode_map_value-Writes kind v linked depth)

    pub encode_map-Writes :
        (number : ℕ) (key : ScalarType) (kind : MapValue) (o : py.Obj) (refs : Option (Refs py.Obj))
        (depth : ℕ)
        → Writes
            (λ buf. encode_map py rt heap nested buf number key kind o refs depth)
            (map_bytes py rt heap inner number key kind o refs depth)
    unfolding encode_map map_bytes
    encode_map-Writes number key kind o refs depth =
        Writes-bind (ok_or (rt.cast_dict o) not_a_dict) _ _ (λ dict.
          Writes-each _ _
            (λ entry.
              Writes-framed _ _ number
                (encode_entry-Writes key kind (linked_of refs number) depth entry))
            (map drawn dict))

    implicit_enum :
        (number word : ℕ) (b : Bool)
        → Writes
            (λ buf. if b then ok buf else ok (write_varint (write_tag buf number varint) word))
            (if b then ok [] else ok (tagged number varint (write_varint [] word)))
    implicit_enum number word b =
        Writes-if b (λ buf. ok buf) (λ buf. ok (write_varint (write_tag buf number varint) word))
          (ok []) (ok (tagged number varint (write_varint [] word)))
          (Writes-same (λ buf. ok buf) (λ buf. refl))
          (Writes-tag (λ buf. ok (write_varint buf word)) (ok (write_varint [] word)) number varint
            (write_varint-Writes word))

    pub encode_implicit-Writes :
        (number : ℕ) (kind : FieldKind) (o : py.Obj) (refs : Option (Refs py.Obj)) (depth : ℕ)
        → Writes
            (λ buf. encode_implicit py rt heap nested buf number kind o refs depth)
            (implicit_bytes py rt heap inner number kind o refs depth)
    unfolding encode_implicit implicit_bytes
    encode_implicit-Writes number (FieldKind.scalar s) o refs depth =
        encode_scalar_field-Writes py number s o true
    encode_implicit-Writes number FieldKind.enum o refs depth =
        Writes-bind (extracted py (py.extract_i32 o)) _ _
          (λ v. implicit_enum number (as_u64 v) (is_zero v))
    encode_implicit-Writes number FieldKind.message o refs depth =
        encode_single-Writes number FieldKind.message o refs depth
    encode_implicit-Writes number FieldKind.timestamp o refs depth =
        encode_single-Writes number FieldKind.timestamp o refs depth
    encode_implicit-Writes number FieldKind.duration o refs depth =
        encode_single-Writes number FieldKind.duration o refs depth
    encode_implicit-Writes number (FieldKind.map_of k v) o refs depth =
        encode_single-Writes number (FieldKind.map_of k v) o refs depth
