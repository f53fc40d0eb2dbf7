-- ===== src/Wire/Reader.antt =====
-- The cursor over an input buffer (`Reader` of src/wire/mod.rs). A method that takes `&mut self`
-- returns the reader after the call beside its result; every caller gives a reader up on an
-- error, so an error carries none. `usize` has 64 bits, and a buffer is shorter than 2 ^ 63.
use fastproto.Common.{
  ℕ, zero, suc, ◌+◌, ◌-◌, ◌*◌, ◌/◌, ◌%◌, ◌^◌, bit_and, bit_or, ltb, leb, ◌==◌, if◌then◌else◌, Bool,
  true, false, ◌&&◌, ◌||◌, Option, none, some, List, [], ◌∷◌, length, get_elem?, take, drop, ◌++◌,
  Result, ok, err, ◌>>=◌, ok_or,
}
use fastproto.Wire.Types.{
  WireType, varint, i64, len, i32, from_u64, WireError, unexpected_eof, varint_overflow,
  invalid_wire_type, invalid_length, invalid_field_number, max_field_number,
}

pub record Reader : Type 0 where
  pub buf : List ℕ
  pub pos : ℕ

-- The reader that has read `front` of a buffer and has `back` before it.
abbrev pub reader_at : List ℕ → List ℕ → Reader
reader_at front back = record { buf = front ++ back; pos = length front }

abbrev pub Read : Type 0 → Type 0
Read A = Result WireError (A × Reader)

abbrev pub new : List ℕ → Reader
new bytes = record { buf = bytes; pos = 0 }

unfoldable pub is_empty : Reader → Bool
is_empty r = leb (length r.buf) r.pos

-- `&self.buf[start..self.pos]`
unfoldable pub raw_since : Reader → ℕ → List ℕ
raw_since r start = drop start (take r.pos r.buf)

-- `buf.get(from..to)`
abbrev pub get_range : List ℕ → ℕ → ℕ → Option (List ℕ)
get_range bytes from to =
    if leb from to && leb to (length bytes) then some (take (to - from) (drop from bytes)) else none

unfoldable pub next_byte : Reader → Read ℕ
next_byte r = do
  b ← ok_or (get_elem? r.buf r.pos) unexpected_eof
  ok (b, record r { pos = r.pos + 1 })

-- The rounds of `for shift in (7..64).step_by(7)` that are left, from `shift` on. The shift drops
-- the bits above the 64th.
unfoldable pub read_groups : ℕ → ℕ → ℕ → Reader → Read ℕ
read_groups zero shift result r = err varint_overflow
read_groups (suc left) shift result r = do
  (byte, r') ← next_byte r
  let result' = bit_or result (bit_and byte 0x7f * 2 ^ shift % 2 ^ 64)
  elim (bit_and byte 0x80 == 0) [
    | true ↦ ok (result', r')
    | false ↦ read_groups left (shift + 7) result' r'
  ]

-- 7, 14, ..., 63 are nine rounds.
unfoldable pub read_varint : Reader → Read ℕ
read_varint r = do
  first ← ok_or (get_elem? r.buf r.pos) unexpected_eof
  let r' = record r { pos = r.pos + 1 }
  if bit_and first 0x80 == 0 then ok (first, r') else read_groups 9 7 (bit_and first 0x7f) r'

-- The cast `field as u32` keeps the number, which is at most `max_field_number`.
unfoldable pub read_tag : Reader → Read (ℕ × WireType)
read_tag r = do
  (key, r') ← read_varint r
  wire ← ok_or (from_u64 (bit_and key 7)) (invalid_wire_type (bit_and key 7))
  let field = key / 2 ^ 3
  if field == 0 || ltb max_field_number field
      then err (invalid_field_number field)
      else ok ((field % 2 ^ 32, wire), r')

-- `from_le_bytes`
abbrev pub from_le_bytes : List ℕ → ℕ
from_le_bytes [] = 0
from_le_bytes (b ∷ bs) = b + 256 * from_le_bytes bs

unfoldable pub read_fixed32 : Reader → Read ℕ
read_fixed32 r = do
  bytes ← ok_or (get_range r.buf r.pos (r.pos + 4)) unexpected_eof
  ok (from_le_bytes bytes, record r { pos = r.pos + 4 })

unfoldable pub read_fixed64 : Reader → Read ℕ
read_fixed64 r = do
  bytes ← ok_or (get_range r.buf r.pos (r.pos + 8)) unexpected_eof
  ok (from_le_bytes bytes, record r { pos = r.pos + 8 })

-- `checked_add` fails where the sum passes a `usize`.
unfoldable pub read_len_delimited : Reader → Read (List ℕ)
read_len_delimited r = do
  (n, r') ← read_varint r
  let end = r'.pos + n
  if leb (2 ^ 64) end
      then err invalid_length
      else if ltb (length r'.buf) end
      then err invalid_length
      else ok (take n (drop r'.pos r'.buf), record r' { pos = end })

unfoldable pub skip : WireType → Reader → Result WireError Reader
skip varint r = do (_, r') ← read_varint r; ok r'
skip i64 r = do (_, r') ← read_fixed64 r; ok r'
skip i32 r = do (_, r') ← read_fixed32 r; ok r'
skip len r = do (_, r') ← read_len_delimited r; ok r'
