-- ===== src/Parse/MapEntry.antt =====
-- `MapEntry` and `parse_nested_map_entry` (src/parse/mod.rs).
use fastproto.Common.{
  ℕ, ◌==◌, if◌then◌else◌, ◌&&◌, not, Bool, false, Option, none, some, List, [], Result, ok, ◌>>=◌,
  ok_or,
}
use mathlib.Core.Option
use mathlib.Core.Option.{get_or}
use fastproto.Common.Int.{ℤ, as_i32, as_u64}
use fastproto.Common.Utf8.{Text}
use fastproto.Common.Text.{text_eq}
use fastproto.Wire.Types.{WireType, varint, len, wire_eq}
use fastproto.Wire.Reader.{Reader, read_tag, read_varint, read_len_delimited, skip}
use fastproto.Wire.Loop.{read_all}
use fastproto.Descriptor.Types.{ScalarType, string, MapValue}
use fastproto.Parse.Types.{
  ParseError, unsupported_type, missing_type, lift, read_string, full_name, type_enum, type_message,
  int_eq, timestamp_full_name, duration_full_name, scalar_from_proto_type,
}
use fastproto.Parse.RawField.{RawField, parse_raw_field}

pub record MapEntry : Type 0 where
  pub key : ScalarType
  pub value : MapValue
  pub value_type_name : Option Text

-- The loop's variables.
pub record EntryState : Type 0 where
  pub name : Text
  pub is_map_entry : Bool
  pub key : Option ScalarType
  pub value : Option MapValue
  pub value_type_name : Option Text

abbrev pub start : EntryState
start = record { name = []; is_map_entry = false; key = none; value = none; value_type_name = none }

-- The arms of the `match` on the name of a message type.
unfoldable pub message_value : Option Text → MapValue
message_value none = MapValue.message
message_value (some full) =
    if text_eq full timestamp_full_name
    then MapValue.timestamp
    else if text_eq full duration_full_name
    then MapValue.duration
    else MapValue.message

unfoldable pub map_value : ℤ → Option Text → Result ParseError MapValue
map_value code full =
    if int_eq code type_enum
    then ok MapValue.enum
    else if int_eq code type_message
    then ok (message_value full)
    else (do
      s ← ok_or (scalar_from_proto_type code) (unsupported_type (as_i32 (as_u64 code)))
      ok (MapValue.scalar s))

unfoldable pub value_name : MapValue → Option Text → Option Text
value_name MapValue.timestamp full = none
value_name MapValue.duration full = none
value_name _ full = Option.map full_name full

-- A field of the entry: the key (number 1) or the value (number 2).
unfoldable pub entry_field : EntryState → RawField → Result ParseError EntryState
entry_field s raw = do
  code ← ok_or raw.type_code missing_type
  if raw.number == 1
      then ok (record s { key = scalar_from_proto_type code })
      else if raw.number == 2
      then (do
        v ← map_value code raw.type_name
        ok (record s { value = some v; value_type_name = value_name v raw.type_name }))
      else ok s

-- The loop over `MessageOptions`: field 7 is `map_entry`.
unfoldable pub option_round : Bool → Reader → Result ParseError (Bool × Reader)
option_round flag r = do
  ((n, w), r') ← lift (read_tag r)
  if n == 7 && wire_eq w varint
      then (do (v, r'') ← lift (read_varint r'); ok (not (v == 0), r''))
      else (do r'' ← lift (skip w r'); ok (flag, r''))

unfoldable pub entry_arm :
    EntryState → ℕ → WireType → Reader → Result ParseError (EntryState × Reader)
entry_arm s number w r =
    if number == 1 && wire_eq w len
    then (do (text, r') ← read_string r; ok (record s { name = text }, r'))
    else if number == 2 && wire_eq w len
    then (do
      (chunk, r') ← lift (read_len_delimited r)
      raw ← parse_raw_field chunk
      s' ← entry_field s raw
      ok (s', r'))
    else if number == 7 && wire_eq w len
    then (do
      (opts, r') ← lift (read_len_delimited r)
      flag ← read_all option_round s.is_map_entry opts
      ok (record s { is_map_entry = flag }, r'))
    else (do r' ← lift (skip w r); ok (s, r'))

unfoldable pub entry_round : EntryState → Reader → Result ParseError (EntryState × Reader)
entry_round s r = do ((number, w), r') ← lift (read_tag r); entry_arm s number w r'

-- What the loop's variables give.
unfoldable pub entry_of : EntryState → Option (Text × MapEntry)
entry_of s =
    if s.is_map_entry
    then some (
      s.name,
      record {
        key = get_or s.key string;
        value = get_or s.value (MapValue.scalar string);
        value_type_name = s.value_type_name;
      },
    )
    else none

unfoldable pub parse_nested_map_entry : List ℕ → Result ParseError (Option (Text × MapEntry))
parse_nested_map_entry bytes = do s ← read_all entry_round start bytes; ok (entry_of s)
