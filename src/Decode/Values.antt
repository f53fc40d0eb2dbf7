-- ===== src/Decode/Values.antt =====
-- Values, repeated fields and map entries off the cursor: `decode_message_value`,
-- `decode_repeated` and `decode_map_entry` of src/decode/mod.rs. `nested` is `decode_message`, on
-- which these call back: it takes the class, its descriptor, the bytes and the depth.
use fastproto.Common.{
  ℕ, ◌+◌, ◌==◌, ◌&&◌, if◌then◌else◌, Bool, Option, none, some, List, [], ◌∷◌, ◌++◌, Result, ok, err,
  ◌>>=◌, ok_or, map_err,
}
use fastproto.Common.Int.{ℤ, pos, as_i32}
use fastproto.Wire.Types.{WireType, varint, len, wire_eq}
use fastproto.Wire.Reader.{Reader, read_tag, read_varint, read_len_delimited, skip}
use fastproto.Wire.Loop.{read_all}
use fastproto.Descriptor.Types.{ScalarType, FieldKind, MapValue, wire_type, is_packable}
use fastproto.WellKnown.Parts.{parts_to_datetime, parts_to_timedelta}
use fastproto.WellKnown.Codec.{decode_parts}
use fastproto.Message.Link.{CallError, LinkedRef, Handle}
use fastproto.Message.Class.{Descriptor}
use fastproto.Python.{
  Python, Runtime, CodecError, malformed, not_in_range, not_linked, not_a_message, raised, panicked,
}
use fastproto.Decode.Scalars.{checked, scalar_default, decode_scalar}
use fastproto.Decode.Enum.{coerce_enum}
use fastproto.Decode.Packed.{decode_packed}

-- The exception of an enum class.
abbrev pub from_call : CallError → CodecError
from_call e = raised

-- An arm of a `match` with a guard.
abbrev pub guarded : {A : Type 0} → Bool → A → Option A
guarded b a = if b then some a else none

module _ (py : Python) (rt : Runtime py) where
  -- Reads with their objects.
  abbrev pub ReadObj : Type 0
  ReadObj = Result CodecError (py.Obj × Reader)

  abbrev pub moved_epoch : Option py.Obj → Option py.Obj
  moved_epoch none = none
  moved_epoch (some delta) = rt.epoch_add delta

  unfoldable pub to_datetime : ℤ → ℤ → Result CodecError py.Obj
  to_datetime secs nanos = do
    made ← map_err not_in_range (parts_to_datetime rt.timedelta moved_epoch secs nanos)
    ok_or made raised

  unfoldable pub to_timedelta : ℤ → ℤ → Result CodecError py.Obj
  to_timedelta secs nanos = do
    made ← map_err not_in_range (parts_to_timedelta rt.timedelta secs nanos)
    ok_or made raised

  -- A timestamp, a duration and an enum value off the cursor.
  unfoldable pub decode_datetime : Reader → ReadObj
  decode_datetime r = do
    (sub, r') ← checked (read_len_delimited r)
    (secs, nanos) ← map_err malformed (decode_parts sub)
    o ← to_datetime secs nanos
    ok (o, r')

  unfoldable pub decode_timedelta : Reader → ReadObj
  decode_timedelta r = do
    (sub, r') ← checked (read_len_delimited r)
    (secs, nanos) ← map_err malformed (decode_parts sub)
    o ← to_timedelta secs nanos
    ok (o, r')

  unfoldable pub coerced : Option (LinkedRef py.Obj) → ℤ → Result CodecError py.Obj
  coerced linked value = map_err from_call (coerce_enum py.from_int linked value)

  unfoldable pub decode_enum : Option (LinkedRef py.Obj) → Reader → ReadObj
  decode_enum linked r = do
    (raw, r') ← checked (read_varint r)
    o ← coerced linked (as_i32 raw)
    ok (o, r')

  unfoldable pub enum_round :
      Option (LinkedRef py.Obj) → List py.Obj → Reader → Result CodecError (List py.Obj × Reader)
  enum_round linked list r = do (o, r') ← decode_enum linked r; ok (list ++ (o ∷ []), r')

  module _ (heap : Handle → Descriptor py.Obj)
      (nested : py.Obj → Descriptor py.Obj → List ℕ → ℕ → Result CodecError py.Obj) where
    unfoldable pub decode_message_value :
        Option (LinkedRef py.Obj) → List ℕ → ℕ → Result CodecError py.Obj
    decode_message_value none bytes depth = err not_linked
    decode_message_value (some linked) bytes depth =
        if rt.is_type linked.class
        then (do
          desc ← ok_or linked.desc not_a_message
          nested linked.class (heap desc) bytes (depth + 1))
        else err raised

    unfoldable pub decode_child : Option (LinkedRef py.Obj) → ℕ → Reader → ReadObj
    decode_child linked depth r = do
      (sub, r') ← checked (read_len_delimited r)
      o ← decode_message_value linked sub depth
      ok (o, r')

    -- One item behind those that the list has.
    abbrev pub append_item :
        List py.Obj → ReadObj → Result CodecError (Option (List py.Obj × Reader))
    append_item list m = do (o, r') ← m; ok (some (list ++ (o ∷ []), r'))

    abbrev pub append_chunk :
        Result CodecError (List py.Obj × Reader) → Result CodecError (Option (List py.Obj × Reader))
    append_chunk m = do (list', r') ← m; ok (some (list', r'))

    -- None is `Ok(false)`: no byte is taken.
    unfoldable pub decode_repeated :
        FieldKind
        → Option (LinkedRef py.Obj)
        → WireType
        → Reader
        → List py.Obj
        → ℕ
        → Result CodecError (Option (List py.Obj × Reader))
    decode_repeated (FieldKind.scalar s) linked w r list depth =
        if is_packable s
        then if wire_eq w len
          then append_chunk (decode_packed py s list r)
          else if wire_eq w (wire_type s)
          then append_item list (decode_scalar py s r)
          else ok none
        else if wire_eq w len
        then append_item list (decode_scalar py s r)
        else ok none
    decode_repeated FieldKind.enum linked w r list depth =
        if wire_eq w len
        then (do
          (chunk, r') ← checked (read_len_delimited r)
          list' ← read_all (enum_round linked) list chunk
          ok (some (list', r')))
        else if wire_eq w varint
        then append_item list (decode_enum linked r)
        else ok none
    decode_repeated FieldKind.message linked w r list depth =
        if wire_eq w len then append_item list (decode_child linked depth r) else ok none
    decode_repeated FieldKind.timestamp linked w r list depth =
        if wire_eq w len then append_item list (decode_datetime r) else ok none
    decode_repeated FieldKind.duration linked w r list depth =
        if wire_eq w len then append_item list (decode_timedelta r) else ok none
    decode_repeated (FieldKind.map_of k v) linked w r list depth = err panicked

    -- The arms of a map entry's value; none where the guard on the wire type fails.
    unfoldable pub decode_map_value :
        MapValue → Option (LinkedRef py.Obj) → ℕ → WireType → Reader → Option ReadObj
    decode_map_value (MapValue.scalar s) linked depth w r =
        guarded (wire_eq w (wire_type s)) (decode_scalar py s r)
    decode_map_value MapValue.enum linked depth w r =
        guarded (wire_eq w varint) (decode_enum linked r)
    decode_map_value MapValue.message linked depth w r =
        guarded (wire_eq w len) (decode_child linked depth r)
    decode_map_value MapValue.timestamp linked depth w r =
        guarded (wire_eq w len) (decode_datetime r)
    decode_map_value MapValue.duration linked depth w r =
        guarded (wire_eq w len) (decode_timedelta r)

    abbrev pub Entry : Type 0
    Entry = Option py.Obj × Option py.Obj

    unfoldable pub skip_entry : Entry → WireType → Reader → Result CodecError (Entry × Reader)
    skip_entry entry w r = do r' ← map_err malformed (skip w r); ok (entry, r')

    -- The loop's body behind the tag.
    unfoldable pub pair_arm :
        ScalarType
        → MapValue
        → Option (LinkedRef py.Obj)
        → ℕ
        → Entry
        → ℕ
        → WireType
        → Reader
        → Result CodecError (Entry × Reader)
    pair_arm key kind linked depth (k, v) number w r =
        if (number == 1) && wire_eq w (wire_type key)
        then (do (o, r') ← decode_scalar py key r; ok ((some o, v), r'))
        else if number == 2
        then elim (decode_map_value kind linked depth w r) [
          | some read ↦ do (o, r') ← read; ok ((k, some o), r')
          | none ↦ skip_entry (k, v) w r
        ]
        else skip_entry (k, v) w r

    unfoldable pub pair_round :
        ScalarType
        → MapValue
        → Option (LinkedRef py.Obj)
        → ℕ
        → Entry
        → Reader
        → Result CodecError (Entry × Reader)
    pair_round key kind linked depth entry r = do
      ((number, w), r') ← checked (read_tag r)
      pair_arm key kind linked depth entry number w r'

    unfoldable pub default_value :
        MapValue → Option (LinkedRef py.Obj) → ℕ → Result CodecError py.Obj
    default_value (MapValue.scalar s) linked depth = ok (scalar_default py s)
    default_value MapValue.enum linked depth = coerced linked (pos 0)
    default_value MapValue.message linked depth = decode_message_value linked [] depth
    default_value MapValue.timestamp linked depth = to_datetime (pos 0) (pos 0)
    default_value MapValue.duration linked depth = to_timedelta (pos 0) (pos 0)

    abbrev pub key_or_default : ScalarType → Option py.Obj → py.Obj
    key_or_default key none = scalar_default py key
    key_or_default key (some k) = k

    unfoldable pub value_or_default :
        MapValue → Option (LinkedRef py.Obj) → ℕ → Option py.Obj → Result CodecError py.Obj
    value_or_default kind linked depth none = default_value kind linked depth
    value_or_default kind linked depth (some v) = ok v

    unfoldable pub decode_map_entry :
        ScalarType
        → MapValue
        → Option (LinkedRef py.Obj)
        → List ℕ
        → ℕ
        → Result CodecError (py.Obj × py.Obj)
    decode_map_entry key kind linked entry depth = do
      (k, v) ← read_all (pair_round key kind linked depth) (none, none) entry
      value ← value_or_default kind linked depth v
      ok (key_or_default key k, value)
