-- ===== src/Encode/Repeated.antt =====
-- Values, repeated fields and maps on the output buffer: `encode_single`, `encode_nested`,
-- `for_each_item`, `encode_repeated` and `encode_map` of src/encode/mod.rs. `nested` is
-- `encode_message`, on which these call back: it takes the instance, its descriptor, the buffer
-- and the depth.
use fastproto.Common.{
  zero, suc, out_of_fuel, ℕ, ◌+◌, ◌==◌, ◌||◌, if◌then◌else◌, Bool, true, false, Option, none, some,
  List, [], ◌∷◌, length, map, take, Result, ok, err, ◌>>=◌, ok_or, map_err,
}
use fastproto.Common.Int.{ℤ, as_u64}
use fastproto.Common.Utf8.{Text, codes}
use fastproto.Wire.Types.{varint, len}
use fastproto.Wire.Writer.{write_varint, write_tag, begin_len_prefix, finish_len_prefix}
use fastproto.Descriptor.Types.{ScalarType, FieldKind, MapValue, wire_type, is_packable}
use fastproto.WellKnown.Parts.{datetime_to_parts, timedelta_to_parts}
use fastproto.Message.Link.{LinkedRef, Refs, Handle, get_ref}
use fastproto.Message.Class.{Descriptor}
use fastproto.Python.{
  Python, Runtime, CodecError, not_a_message, not_a_sequence, not_a_dict, not_in_range, raised,
  panicked,
}
use fastproto.Encode.Scalars.{extracted, write_parts_field, encode_scalar, encode_scalar_field}

abbrev pub Written : Type 0
Written = Result CodecError (List ℕ)

abbrev pub descriptor_name : Text
descriptor_name = codes "__fastproto__"

abbrev pub is_present : {A : Type 0} → Option A → Bool
is_present (some a) = true
is_present none = false

-- `refs.and_then(|r| r.get(&number))`
abbrev pub linked_of : {Obj : Type 0} → Option (Refs Obj) → ℕ → Option (LinkedRef Obj)
linked_of none number = none
linked_of (some refs) number = get_ref refs number

-- A payload between `begin_len_prefix` and `finish_len_prefix`, behind its tag.
abbrev pub framed : (List ℕ → Written) → ℕ → List ℕ → Written
framed write number buf = do
  let (reserved, len_pos) = begin_len_prefix (write_tag buf number len)
  written ← write reserved
  ok (finish_len_prefix written len_pos)

-- The same, where the tag is taken back if the payload is empty.
abbrev pub framed_or_nothing : (List ℕ → Written) → ℕ → List ℕ → Written
framed_or_nothing write number buf = do
  let tag_start = length buf
  let (reserved, len_pos) = begin_len_prefix (write_tag buf number len)
  written ← write reserved
  if length written == len_pos + 1
      then ok (take tag_start written)
      else ok (finish_len_prefix written len_pos)

-- What the loop over the items meets: an item, an exception, or the end of its fuel.
pub data Drawn (A : Type 0) : Type 0 where
  drawn : A → Drawn A
  failed unfinished : Drawn A

module _ {A : Type 0} (f : List ℕ → A → Written) where
  unfoldable pub for_each : List ℕ → List (Drawn A) → Written
  for_each buf [] = ok buf
  for_each buf (unfinished ∷ items) = out_of_fuel
  for_each buf (failed ∷ items) = err raised
  for_each buf (drawn item ∷ items) = do buf' ← f buf item; for_each buf' items

-- The items of an iterator from call `k` on, in as many calls as there is fuel. They are drawn when
-- the loop is there, so that an item that fails ends it before the next call.
unfoldable pub draw : {A : Type 0} → ℕ → (ℕ → Option (Option A)) → ℕ → List (Drawn A)
draw zero iterator k = unfinished ∷ []
draw (suc fuel) iterator k = elim (iterator k) [
  | none ↦ []
  | some none ↦ failed ∷ []
  | some (some item) ↦ drawn item ∷ draw fuel iterator (suc k)
]

module _ (py : Python) (rt : Runtime py) where
  -- The items that `for_each_item` visits.
  unfoldable pub items_of : py.Obj → Result CodecError (List (Drawn py.Obj))
  items_of value = elim (rt.cast_list value) [
    | some items ↦ ok (map drawn items)
    | none ↦ elim (rt.cast_tuple value) [
      | some items ↦ ok (map drawn items)
      | none ↦ do iterator ← ok_or (rt.try_iter value) raised; ok (draw rt.patience iterator 0)
    ]
  ]

  unfoldable pub for_each_item : (List ℕ → py.Obj → Written) → List ℕ → py.Obj → Written
  for_each_item f buf value = do items ← items_of value; for_each f buf items

  -- `datetime_to_parts` and `timedelta_to_parts` on an object, with their exceptions.
  unfoldable pub datetime_parts : py.Obj → Result CodecError (ℤ × ℤ)
  datetime_parts value = do
    delta ← ok_or (rt.since_epoch value) raised
    ok (datetime_to_parts delta)

  unfoldable pub timedelta_parts : py.Obj → Result CodecError (ℤ × ℤ)
  timedelta_parts value = do
    delta ← ok_or (rt.timedelta_attributes value) raised
    map_err not_in_range (timedelta_to_parts delta)

  unfoldable pub write_datetime : List ℕ → ℕ → py.Obj → Written
  write_datetime buf number value = do
    (secs, nanos) ← datetime_parts value
    ok (write_parts_field buf number secs nanos)

  unfoldable pub write_timedelta : List ℕ → ℕ → py.Obj → Written
  write_timedelta buf number value = do
    (secs, nanos) ← timedelta_parts value
    ok (write_parts_field buf number secs nanos)

  -- The extraction of an enum's `i32` and its varint.
  unfoldable pub write_enum : List ℕ → py.Obj → Written
  write_enum buf value = do
    v ← extracted py (py.extract_i32 value)
    ok (write_varint buf (as_u64 v))

  -- The descriptor that the type of a value carries.
  unfoldable pub own_descriptor : py.Obj → Result CodecError Handle
  own_descriptor value = do
    handle ← ok_or (rt.getattr (rt.get_type value) descriptor_name) raised
    ok_or (rt.cast_descriptor handle) not_a_message

  -- The choice of `encode_nested`: the descriptor cached at link time where the value has exactly
  -- the linked class.
  unfoldable pub descriptor_for : py.Obj → Option (LinkedRef py.Obj) → Result CodecError Handle
  descriptor_for value none = own_descriptor value
  descriptor_for value (some linked) = elim linked.desc [
    | none ↦ own_descriptor value
    | some desc ↦ if rt.same (rt.get_type value) linked.class then ok desc else own_descriptor value
  ]

  module _ (heap : Handle → Descriptor py.Obj)
      (nested : py.Obj → Descriptor py.Obj → List ℕ → ℕ → Written) where
    unfoldable pub encode_nested : List ℕ → py.Obj → Option (LinkedRef py.Obj) → ℕ → Written
    encode_nested buf value linked depth = do
      desc ← descriptor_for value linked
      nested value (heap desc) buf (depth + 1)

    unfoldable pub encode_single :
        List ℕ → ℕ → FieldKind → py.Obj → Option (Refs py.Obj) → ℕ → Written
    encode_single buf number (FieldKind.scalar s) value refs depth =
        encode_scalar_field py buf number s value false
    encode_single buf number FieldKind.enum value refs depth = do
      v ← extracted py (py.extract_i32 value)
      ok (write_varint (write_tag buf number varint) (as_u64 v))
    encode_single buf number FieldKind.message value refs depth =
        framed (λ reserved. encode_nested reserved value (linked_of refs number) depth) number buf
    encode_single buf number FieldKind.timestamp value refs depth = write_datetime buf number value
    encode_single buf number FieldKind.duration value refs depth = write_timedelta buf number value
    encode_single buf number (FieldKind.map_of k v) value refs depth = err panicked

    -- The arms of `encode_repeated`, behind its guard.
    unfoldable pub repeated_arm :
        List ℕ → ℕ → FieldKind → py.Obj → Option (Refs py.Obj) → ℕ → Written
    repeated_arm buf number (FieldKind.scalar s) value refs depth =
        if is_packable s
        then framed_or_nothing
            (λ reserved. for_each_item (λ b item. encode_scalar py b s item) reserved value) number
            buf
        else for_each_item (λ b item. encode_scalar py (write_tag b number (wire_type s)) s item)
            buf value
    repeated_arm buf number FieldKind.enum value refs depth =
        framed_or_nothing (λ reserved. for_each_item write_enum reserved value) number buf
    repeated_arm buf number FieldKind.message value refs depth =
        for_each_item
          (λ b item.
            framed (λ reserved. encode_nested reserved item (linked_of refs number) depth) number b)
          buf value
    repeated_arm buf number FieldKind.timestamp value refs depth =
        for_each_item (λ b item. write_datetime b number item) buf value
    repeated_arm buf number FieldKind.duration value refs depth =
        for_each_item (λ b item. write_timedelta b number item) buf value
    repeated_arm buf number (FieldKind.map_of k v) value refs depth = err panicked

    unfoldable pub encode_repeated :
        List ℕ → ℕ → FieldKind → py.Obj → Option (Refs py.Obj) → ℕ → Written
    encode_repeated buf number kind value refs depth =
        if py.is_str value || is_present (py.cast_bytes value)
        then err not_a_sequence
        else repeated_arm buf number kind value refs depth

    -- The value of an entry: field 2.
    unfoldable pub encode_map_value :
        List ℕ → MapValue → py.Obj → Option (LinkedRef py.Obj) → ℕ → Written
    encode_map_value buf (MapValue.scalar s) v linked depth =
        encode_scalar py (write_tag buf 2 (wire_type s)) s v
    encode_map_value buf MapValue.enum v linked depth = write_enum (write_tag buf 2 varint) v
    encode_map_value buf MapValue.message v linked depth =
        framed (λ reserved. encode_nested reserved v linked depth) 2 buf
    encode_map_value buf MapValue.timestamp v linked depth = write_datetime buf 2 v
    encode_map_value buf MapValue.duration v linked depth = write_timedelta buf 2 v

    unfoldable pub encode_entry :
        ScalarType → MapValue → Option (LinkedRef py.Obj) → ℕ → List ℕ → py.Obj × py.Obj → Written
    encode_entry key value_kind linked depth buf (k, v) = do
      buf' ← encode_scalar py (write_tag buf 1 (wire_type key)) key k
      encode_map_value buf' value_kind v linked depth

    unfoldable pub encode_map :
        List ℕ → ℕ → ScalarType → MapValue → py.Obj → Option (Refs py.Obj) → ℕ → Written
    encode_map buf number key value_kind value refs depth = do
      dict ← ok_or (rt.cast_dict value) not_a_dict
      for_each
          (λ b entry.
            framed
              (λ reserved. encode_entry key value_kind (linked_of refs number) depth reserved entry)
              number b)
          buf (map drawn dict)
