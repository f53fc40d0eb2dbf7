-- ===== src/Parse/RawField.antt =====
-- `RawField` and `parse_raw_field` (src/parse/mod.rs).
use fastproto.Common.{
  ℕ, ◌%◌, ◌^◌, ◌==◌, if◌then◌else◌, ◌&&◌, not, Bool, false, Option, none, some, List, [], Result,
  ok, ◌>>=◌,
}
use fastproto.Common.Int.{ℤ, pos, as_i64}
use fastproto.Common.Utf8.{Text}
use fastproto.Wire.Types.{WireType, varint, len, wire_eq}
use fastproto.Wire.Reader.{Reader, read_tag, read_varint, skip}
use fastproto.Wire.Loop.{read_all}
use fastproto.Parse.Types.{ParseError, lift, read_string}

pub record RawField : Type 0 where
  pub name : Text
  pub number : ℕ
  pub label : ℤ
  pub type_code : Option ℤ
  pub type_name : Option Text
  pub oneof_index : Option ℕ
  pub proto3_optional : Bool

abbrev pub default : RawField
default = record {
  name = [];
  number = 0;
  label = pos 0;
  type_code = none;
  type_name = none;
  oneof_index = none;
  proto3_optional = false;
}

-- The arms of the `match (number, wire)`.
unfoldable pub raw_arm : RawField → ℕ → WireType → Reader → Result ParseError (RawField × Reader)
raw_arm raw number w r =
    if number == 1 && wire_eq w len
    then (do (text, r') ← read_string r; ok (record raw { name = text }, r'))
    else if number == 3 && wire_eq w varint
    then (do (v, r') ← lift (read_varint r); ok (record raw { number = v % 2 ^ 32 }, r'))
    else if number == 4 && wire_eq w varint
    then (do (v, r') ← lift (read_varint r); ok (record raw { label = as_i64 v }, r'))
    else if number == 5 && wire_eq w varint
    then (do (v, r') ← lift (read_varint r); ok (record raw { type_code = some (as_i64 v) }, r'))
    else if number == 6 && wire_eq w len
    then (do (text, r') ← read_string r; ok (record raw { type_name = some text }, r'))
    else if number == 9 && wire_eq w varint
    then (do
      (v, r') ← lift (read_varint r)
      ok (record raw { oneof_index = some (v % 2 ^ 32) }, r'))
    else if number == 17 && wire_eq w varint
    then (do (v, r') ← lift (read_varint r); ok (record raw { proto3_optional = not (v == 0) }, r'))
    else (do r' ← lift (skip w r); ok (raw, r'))

unfoldable pub raw_round : RawField → Reader → Result ParseError (RawField × Reader)
raw_round raw r = do ((number, w), r') ← lift (read_tag r); raw_arm raw number w r'

unfoldable pub parse_raw_field : List ℕ → Result ParseError RawField
parse_raw_field bytes = read_all raw_round default bytes
