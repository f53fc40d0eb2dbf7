-- ===== src/Wire/RoundTrip.antt =====
-- What the writers of src/wire/mod.rs append, the cursor reads back.
use fastproto.Common.{
  ℕ, zero, suc, ◌+◌, ◌*◌, ◌/◌, ◌%◌, ◌^◌, ◌≤◌, ◌<◌, ◌≡◌, refl, sym, subst, ap, lt→leb, le→ltb, ap₂,
  ◌∙◌, bit_and, bit_or, List, [], ◌++◌, length, length-append, append_assoc, drop-append,
  take-append, arith, ok, ◌>>=◌, some,
}
use fastproto.Common.Bits.{bit_and_seven, bit_or_fields, bit_or_comm}
use fastproto.Wire.Types.{WireType, varint, i64, len, i32, from_u64, wire_value, max_field_number}
use fastproto.Wire.Reader.{
  Reader, reader_at, read_varint, read_tag, read_fixed32, read_fixed64, read_len_delimited,
  get_range, from_le_bytes,
}
use fastproto.Wire.Writer.{
  write_varint, write_tag, write_fixed32, write_fixed64, write_len_delimited, to_le_bytes,
}
use native.Mathlib.Nat.{pow-suc}
use fastproto.Wire.Varint.{encoding, write_varint-append, read_varint-encoding, advance_at}

-- The key of a tag.
abbrev pub tag_key : ℕ → WireType → ℕ
tag_key field wire = wire_value wire + field * 2 ^ 3

wire_value-lt : (wire : WireType) → wire_value wire < 8
wire_value-lt varint = omega arith
wire_value-lt i64 = omega arith
wire_value-lt len = omega arith
wire_value-lt i32 = omega arith

from_u64-wire_value : (wire : WireType) → from_u64 (wire_value wire) ≡ some wire
unfolding from_u64
from_u64-wire_value varint = refl
from_u64-wire_value i64 = refl
from_u64-wire_value len = refl
from_u64-wire_value i32 = refl

pub write_tag-append :
    (buf : List ℕ) (field : ℕ) (wire : WireType)
    → field ≤ max_field_number
    → write_tag buf field wire ≡ buf ++ encoding (tag_key field wire)
unfolding write_tag
write_tag-append buf field wire h = rw (key, write_varint-append)
  where
    key : bit_or (field * 2 ^ 3 % 2 ^ 64) (wire_value wire) ≡ tag_key field wire
    key =
        bit_or_comm (field * 2 ^ 3 % 2 ^ 64) (wire_value wire)
        ∙ ap (λ (t : ℕ). bit_or (wire_value wire) t) (omega arith)
        ∙ bit_or_fields 3 field (wire_value wire) (wire_value-lt wire)

read_tag-encoding :
    (field : ℕ) (wire : WireType) (front back : List ℕ)
    → 0 < field
    → field ≤ max_field_number
    → read_tag (reader_at front (encoding (tag_key field wire) ++ back))
      ≡ ok ((field, wire), reader_at (front ++ encoding (tag_key field wire)) back)
unfolding read_tag
read_tag-encoding field wire front back pos small =
    rw
      (
        read_varint-encoding (tag_key field wire) front back (omega (arith, wire_value-lt wire)),
        ◌>>=◌,
      )
      (rw (low, from_u64-wire_value) (rw (field_of) (ground arith)))
  where
    low : bit_and (tag_key field wire) 7 ≡ wire_value wire
    low = omega (arith, wire_value-lt wire, bit_and_seven (tag_key field wire))

    field_of : tag_key field wire / 2 ^ 3 ≡ field
    field_of = omega (arith, wire_value-lt wire)

-- A tag that was written is read back, for every legal field number.
pub read_tag-write_tag :
    (field : ℕ) (wire : WireType) (front back : List ℕ)
    → 0 < field
    → field ≤ max_field_number
    → read_tag (reader_at front (write_tag [] field wire ++ back))
      ≡ ok ((field, wire), reader_at (front ++ write_tag [] field wire) back)
read_tag-write_tag field wire front back pos small =
    rw (write_tag-append [] field wire small) (read_tag-encoding field wire front back pos small)

-- A varint that was written is read back, for every `u64`: the cursor gives the number and stands
-- behind its last byte, whatever stands before and after it.
pub read_varint-write_varint :
    (v : ℕ) (front back : List ℕ)
    → v < 2 ^ 64
    → read_varint (reader_at front (write_varint [] v ++ back))
      ≡ ok (v, reader_at (front ++ write_varint [] v) back)
read_varint-write_varint v front back h =
    rw (write_varint-append [] v) (read_varint-encoding v front back h)

-- The next `length mid` bytes.
get_range_at :
    (front mid back : List ℕ)
    → get_range (front ++ (mid ++ back)) (length front) (length front + length mid) ≡ some mid
get_range_at front mid back = ground (
  arith,
  length-append front (mid ++ back),
  length-append mid back,
  drop-append front (mid ++ back),
  take-append mid back,
)

from_le_bytes-to_le_bytes : (n v : ℕ) → v < 256 ^ n → from_le_bytes (to_le_bytes n v) ≡ v
from_le_bytes-to_le_bytes zero v h = omega arith
from_le_bytes-to_le_bytes (suc n) v h =
    omega (arith, from_le_bytes-to_le_bytes n (v / 256) (omega (arith, pow-suc 256 n)))

-- A fixed 32-bit word is read back.
pub read_fixed32-write_fixed32 :
    (v : ℕ) (front back : List ℕ)
    → v < 2 ^ 32
    → read_fixed32 (reader_at front (write_fixed32 [] v ++ back))
      ≡ ok (v, reader_at (front ++ write_fixed32 [] v) back)
unfolding read_fixed32 write_fixed32
read_fixed32-write_fixed32 v front back h = rw (get_range_at front (to_le_bytes 4 v) back) (
    ap₂ (λ (x : ℕ) (r : Reader). ok (x, r)) (from_le_bytes-to_le_bytes 4 v (omega arith))
      (advance_at front (to_le_bytes 4 v) back))

-- A fixed 64-bit word is read back.
pub read_fixed64-write_fixed64 :
    (v : ℕ) (front back : List ℕ)
    → v < 2 ^ 64
    → read_fixed64 (reader_at front (write_fixed64 [] v ++ back))
      ≡ ok (v, reader_at (front ++ write_fixed64 [] v) back)
unfolding read_fixed64 write_fixed64
read_fixed64-write_fixed64 v front back h = rw (get_range_at front (to_le_bytes 8 v) back) (
    ap₂ (λ (x : ℕ) (r : Reader). ok (x, r)) (from_le_bytes-to_le_bytes 8 v (omega arith))
      (advance_at front (to_le_bytes 8 v) back))

pub write_len_delimited-append :
    (buf chunk : List ℕ) → write_len_delimited buf chunk ≡ buf ++ (encoding (length chunk) ++ chunk)
unfolding write_len_delimited
write_len_delimited-append buf chunk = rw (write_varint-append, append_assoc)

-- The chunk behind its length.
pub read_len_delimited_at :
    (chunk front back : List ℕ)
    → length (front ++ (encoding (length chunk) ++ (chunk ++ back))) < 2 ^ 63
    → read_len_delimited (reader_at front (encoding (length chunk) ++ (chunk ++ back)))
      ≡ ok (chunk, reader_at ((front ++ encoding (length chunk)) ++ chunk) back)
unfolding read_len_delimited
read_len_delimited_at chunk front back h =
    let n = length chunk in
    let before = front ++ encoding n in
    let room : length (before ++ (chunk ++ back)) < 2 ^ 63 = rw append_assoc h in
    let sizes : length (before ++ (chunk ++ back)) ≡ length before + (length chunk + length back) =
      length-append before (chunk ++ back)
      ∙ ap (λ (t : ℕ). length before + t) (length-append chunk back) in
    let fits : length before + n ≤ length (before ++ (chunk ++ back)) = omega arith in
    rw (read_varint-encoding n front (chunk ++ back) (omega arith), ◌>>=◌)
      (rw
        (
          drop-append,
          take-append,
          lt→leb (2 ^ 64) (length before + n) (omega arith),
          le→ltb (length (before ++ (chunk ++ back))) _ fits,
        )
        (ap (λ (r : Reader). ok (chunk, r)) (advance_at before chunk back)))

-- A chunk is read back, where the whole buffer is shorter than 2 ^ 63.
pub read_len_delimited-write_len_delimited :
    (chunk front back : List ℕ)
    → length (front ++ (write_len_delimited [] chunk ++ back)) < 2 ^ 63
    → read_len_delimited (reader_at front (write_len_delimited [] chunk ++ back))
      ≡ ok (chunk, reader_at (front ++ write_len_delimited [] chunk) back)
read_len_delimited-write_len_delimited chunk front back h =
    let written : write_len_delimited [] chunk ++ back
        ≡ encoding (length chunk) ++ (chunk ++ back) =
      ap (λ (l : List ℕ). l ++ back) (write_len_delimited-append [] chunk)
      ∙ append_assoc (encoding (length chunk)) chunk back in
    ap (λ (l : List ℕ). read_len_delimited (reader_at front l)) written
    ∙ read_len_delimited_at chunk front back (subst (λ l. length (front ++ l) < 2 ^ 63) written h)
    ∙ ap (λ (l : List ℕ). ok (chunk, reader_at l back))
        (append_assoc front (encoding (length chunk)) chunk
          ∙ ap (λ (l : List ℕ). front ++ l) (sym (write_len_delimited-append [] chunk)))
