-- ===== src/Wire/Types.antt =====
-- Wire types, wire errors and the bounds of a field number (src/wire/mod.rs).
use fastproto.Common.{ℕ, ◌-◌, ◌^◌, ◌<◌, ◌==◌, if◌then◌else◌, Bool, true, false, Option, none, some}

-- The low three bits of a tag.
pub data WireType : Type 0 where
  varint i64 len i32 : WireType

unfoldable pub from_u64 : ℕ → Option WireType
from_u64 value =
    if value == 0
    then some varint
    else if value == 1
    then some i64
    else if value == 2
    then some len
    else if value == 5
    then some i32
    else none

-- `wire as u64`: the discriminants of the enum.
abbrev pub wire_value : WireType → ℕ
wire_value varint = 0
wire_value i64 = 1
wire_value len = 2
wire_value i32 = 5

-- The derived `==` of wire types.
abbrev pub wire_eq : WireType → WireType → Bool
wire_eq varint varint = true
wire_eq i64 i64 = true
wire_eq len len = true
wire_eq i32 i32 = true
wire_eq _ _ = false

pub data WireError : Type 0 where
  unexpected_eof : WireError
  varint_overflow : WireError
  invalid_wire_type : ℕ → WireError
  invalid_length : WireError
  invalid_field_number : ℕ → WireError

-- (1 << 29) - 1
abbrev pub max_field_number : ℕ
max_field_number = 2 ^ 29 - 1

abbrev pub IsByte : ℕ → Type 0
IsByte b = b < 256
