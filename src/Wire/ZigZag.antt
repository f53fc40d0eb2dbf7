-- ===== src/Wire/ZigZag.antt =====
-- The zig-zag maps of src/wire/mod.rs, on the bit patterns of the signed words.
use fastproto.Common.{
  ℕ, ◌+◌, ◌-◌, ◌*◌, ◌/◌, ◌%◌, ◌^◌, ◌<◌, ◌≡◌, ◌∙◌, bit_and, bit_xor, ltb, ==→eq, ==→ne, ◌==◌,
  Bool-cases, inl, inr, if◌then◌else◌, arith,
}
use fastproto.Common.Bits.{bit_and_one, bit_xor-zero, bit_xor_ones}
use fastproto.Common.Int.{ℤ, pos, negsuc, as_u32, as_u64, as_i32, as_i64, IsI32, IsI64}

-- `x >> (w - 1)` on a signed word of `w` bits, given its pattern: all ones or all zeros.
abbrev sign_fill : ℕ → ℕ → ℕ
sign_fill w p = if ltb p (2 ^ (w - 1)) then 0 else 2 ^ w - 1

-- `-x` on a word of `w` bits.
abbrev negate : ℕ → ℕ → ℕ
negate w p = (2 ^ w - p) % 2 ^ w

-- ((value << 1) ^ (value >> 31)) as u32
unfoldable pub zigzag_encode32 : ℤ → ℕ
zigzag_encode32 value = let p = as_u32 value in bit_xor (p * 2 % 2 ^ 32) (sign_fill 32 p)

-- ((value >> 1) as i32) ^ -((value & 1) as i32)
unfoldable pub zigzag_decode32 : ℕ → ℤ
zigzag_decode32 value = as_i32 (bit_xor (value / 2) (negate 32 (bit_and value 1)))

unfoldable pub zigzag_encode64 : ℤ → ℕ
zigzag_encode64 value = let p = as_u64 value in bit_xor (p * 2 % 2 ^ 64) (sign_fill 64 p)

unfoldable pub zigzag_decode64 : ℕ → ℤ
zigzag_decode64 value = as_i64 (bit_xor (value / 2) (negate 64 (bit_and value 1)))

abbrev pub zigzag : ℤ → ℕ
zigzag (pos n) = 2 * n
zigzag (negsuc n) = 2 * n + 1

-- On every `i32` the shifts and the exclusive or give 2n or -2n - 1.
pub zigzag_encode32-eq-zigzag : (i : ℤ) → IsI32 i → zigzag_encode32 i ≡ zigzag i
unfolding zigzag_encode32
zigzag_encode32-eq-zigzag (pos n) h = ground (arith, bit_xor-zero 32 (2 * n))
zigzag_encode32-eq-zigzag (negsuc n) h =
    ground (arith, bit_xor_ones 32 ((2 ^ 32 - 1 - n) * 2 % 2 ^ 32))

pub zigzag_encode64-eq-zigzag : (i : ℤ) → IsI64 i → zigzag_encode64 i ≡ zigzag i
unfolding zigzag_encode64
zigzag_encode64-eq-zigzag (pos n) h = ground (arith, bit_xor-zero 64 (2 * n))
zigzag_encode64-eq-zigzag (negsuc n) h =
    ground (arith, bit_xor_ones 64 ((2 ^ 64 - 1 - n) * 2 % 2 ^ 64))

-- The inverse map.
abbrev pub unzigzag : ℕ → ℤ
unzigzag u = if u % 2 == 0 then pos (u / 2) else negsuc (u / 2)

zigzag_decode32-eq-unzigzag : (u : ℕ) → u < 2 ^ 32 → zigzag_decode32 u ≡ unzigzag u
unfolding zigzag_decode32
zigzag_decode32-eq-unzigzag u h = rw (bit_and_one u) (elim (Bool-cases (u % 2 == 0)) [
  | inl e ↦ let even : u % 2 ≡ 0 = ==→eq _ _ e in rw even (ground (arith, bit_xor-zero 32 (u / 2)))
  | inr e ↦
      let odd : u % 2 ≡ 1 = omega (arith, ==→ne _ _ e) in
      rw odd (ground (arith, bit_xor_ones 32 (u / 2)))
])

zigzag_decode64-eq-unzigzag : (u : ℕ) → u < 2 ^ 64 → zigzag_decode64 u ≡ unzigzag u
unfolding zigzag_decode64
zigzag_decode64-eq-unzigzag u h = rw (bit_and_one u) (elim (Bool-cases (u % 2 == 0)) [
  | inl e ↦ let even : u % 2 ≡ 0 = ==→eq _ _ e in rw even (ground (arith, bit_xor-zero 64 (u / 2)))
  | inr e ↦
      let odd : u % 2 ≡ 1 = omega (arith, ==→ne _ _ e) in
      rw odd (ground (arith, bit_xor_ones 64 (u / 2)))
])

unzigzag-zigzag : (i : ℤ) → unzigzag (zigzag i) ≡ i
unzigzag-zigzag (pos n) = ground arith
unzigzag-zigzag (negsuc n) = ground arith

zigzag-unzigzag : (u : ℕ) → zigzag (unzigzag u) ≡ u
zigzag-unzigzag u = ground arith

-- On every `i32`, encoding and decoding are inverse, and the code is the zig-zag order.
pub zigzag32_roundtrip :
    (i : ℤ) → IsI32 i → (zigzag_decode32 (zigzag_encode32 i) ≡ i) × (zigzag_encode32 i ≡ zigzag i)
zigzag32_roundtrip i h = (
  rw (zigzag_encode32-eq-zigzag i h)
      (zigzag_decode32-eq-unzigzag (zigzag i) (room i h) ∙ unzigzag-zigzag i),
  zigzag_encode32-eq-zigzag i h,
)
  where
    room : (i : ℤ) → IsI32 i → zigzag i < 2 ^ 32
    room (pos n) h = omega arith
    room (negsuc n) h = omega arith

-- On every `i64`, encoding and decoding are inverse, and the code is the zig-zag order.
pub zigzag64_roundtrip :
    (i : ℤ) → IsI64 i → (zigzag_decode64 (zigzag_encode64 i) ≡ i) × (zigzag_encode64 i ≡ zigzag i)
zigzag64_roundtrip i h = (
  rw (zigzag_encode64-eq-zigzag i h)
      (zigzag_decode64-eq-unzigzag (zigzag i) (room i h) ∙ unzigzag-zigzag i),
  zigzag_encode64-eq-zigzag i h,
)
  where
    room : (i : ℤ) → IsI64 i → zigzag i < 2 ^ 64
    room (pos n) h = omega arith
    room (negsuc n) h = omega arith

-- Every word is the code of exactly the integer it decodes to.
pub zigzag_encode32-zigzag_decode32 : (u : ℕ) → u < 2 ^ 32 → zigzag_encode32 (zigzag_decode32 u) ≡ u
zigzag_encode32-zigzag_decode32 u h =
    rw (zigzag_decode32-eq-unzigzag u h)
      (zigzag_encode32-eq-zigzag (unzigzag u) (ground arith) ∙ zigzag-unzigzag u)

-- The code of an integer fits the word.
pub zigzag_encode32-lt : (i : ℤ) → IsI32 i → zigzag_encode32 i < 2 ^ 32
zigzag_encode32-lt (pos n) h = rw (zigzag_encode32-eq-zigzag (pos n) h) (omega arith)
zigzag_encode32-lt (negsuc n) h = rw (zigzag_encode32-eq-zigzag (negsuc n) h) (omega arith)

pub zigzag_encode64-lt : (i : ℤ) → IsI64 i → zigzag_encode64 i < 2 ^ 64
zigzag_encode64-lt (pos n) h = rw (zigzag_encode64-eq-zigzag (pos n) h) (omega arith)
zigzag_encode64-lt (negsuc n) h = rw (zigzag_encode64-eq-zigzag (negsuc n) h) (omega arith)
