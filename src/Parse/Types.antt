-- ===== src/Parse/Types.antt =====
-- Errors, names and type codes of the descriptor parser (src/parse/mod.rs).
use fastproto.Common.{
  ℕ, ◌==◌, if◌then◌else◌, Bool, false, Option, none, some, Result, ok, err, ◌>>=◌, map_err,
}
use mathlib.Core.Option.{get_or}
use mathlib.Core.List.{head?}
use fastproto.Common.Int.{ℤ, pos, negsuc}
use fastproto.Common.Utf8.{Text, codes, is_utf8}
use fastproto.Common.Text.{rsplit, strip_prefix}
use fastproto.Wire.Types.{WireError}
use fastproto.Wire.Reader.{Reader, read_len_delimited}
use fastproto.Descriptor.Types.{
  ScalarType, double, float, int32, int64, uint32, uint64, sint32, sint64, fixed32, fixed64,
  sfixed32, sfixed64, bool, string, bytes,
}

pub data ParseError : Type 0 where
  wire : WireError → ParseError
  unsupported_type : ℤ → ParseError
  missing_type : ParseError
  invalid_utf8 : ParseError

-- `?` on a wire read: `From<WireError>`.
abbrev pub lift : {A : Type 0} → Result WireError A → Result ParseError A
lift = map_err wire

abbrev pub label_repeated : ℤ
label_repeated = pos 3

abbrev pub type_group : ℤ
type_group = pos 10

abbrev pub type_message : ℤ
type_message = pos 11

abbrev pub type_enum : ℤ
type_enum = pos 14

abbrev pub timestamp_full_name : Text
timestamp_full_name = codes ".google.protobuf.Timestamp"

abbrev pub duration_full_name : Text
duration_full_name = codes ".google.protobuf.Duration"

-- `==` of type codes and labels.
abbrev pub int_eq : ℤ → ℤ → Bool
int_eq (pos a) (pos b) = a == b
int_eq (negsuc a) (negsuc b) = a == b
int_eq _ _ = false

abbrev scalar_of_code : ℕ → Option ScalarType
scalar_of_code c =
    if c == 1
    then some double
    else if c == 2
    then some float
    else if c == 3
    then some int64
    else if c == 4
    then some uint64
    else if c == 5
    then some int32
    else if c == 6
    then some fixed64
    else if c == 7
    then some fixed32
    else if c == 8
    then some bool
    else if c == 9
    then some string
    else if c == 12
    then some bytes
    else if c == 13
    then some uint32
    else if c == 15
    then some sfixed32
    else if c == 16
    then some sfixed64
    else if c == 17
    then some sint32
    else if c == 18
    then some sint64
    else none

unfoldable pub scalar_from_proto_type : ℤ → Option ScalarType
scalar_from_proto_type (pos c) = scalar_of_code c
scalar_from_proto_type (negsuc c) = none

unfoldable pub read_string : Reader → Result ParseError (Text × Reader)
read_string r = do
  (text, r') ← lift (read_len_delimited r)
  if is_utf8 text then ok (text, r') else err invalid_utf8

-- `.pkg.Outer.Inner` to `Inner`.
unfoldable pub short_name : Text → Text
short_name full = get_or (head? (rsplit b'.' full)) full

-- `.pkg.Outer.Inner` to `pkg.Outer.Inner`.
unfoldable pub full_name : Text → Text
full_name full = get_or (strip_prefix b'.' full) full
