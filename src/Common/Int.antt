-- ===== src/Common/Int.antt =====
-- Signed integers over the native numbers, and Rust's `as` casts between a signed integer and an
-- unsigned machine word: two's complement, modulo the word's size.
use Prim.Native.Nat.{ℕ, zero, suc, ◌+◌, ◌-◌, ◌*◌, ◌%◌, ◌^◌, ◌<◌}
use mathlib.Core.Path.{◌≡◌}
use mathlib.Core.Bool.{Bool, true, false}
use native.Mathlib.Omega.{arith}
use fastproto.Common.Tests.{ltb, leb, if◌then◌else◌}

-- `negsuc n` is -(n + 1).
pub data ℤ : Type 0 where
  pos : ℕ → ℤ
  negsuc : ℕ → ℤ

-- -n
abbrev pub negate : ℕ → ℤ
negate zero = pos 0
negate (suc n) = negsuc n

-- `abs`
abbrev pub magnitude : ℤ → ℕ
magnitude (pos n) = n
magnitude (negsuc n) = n + 1

-- m - n
abbrev pub subtract : ℕ → ℕ → ℤ
subtract m n = if ltb m n then negsuc (n - m - 1) else pos (m - n)

infixl 6 ◌+ℤ◌
abbrev pub ◌+ℤ◌ : ℤ → ℤ → ℤ
pos m +ℤ pos n = pos (m + n)
pos m +ℤ negsuc n = subtract m (n + 1)
negsuc m +ℤ pos n = subtract n (m + 1)
negsuc m +ℤ negsuc n = negsuc (m + n + 1)

-- The product with a natural number.
abbrev pub times : ℕ → ℤ → ℤ
times k (pos n) = pos (k * n)
times k (negsuc n) = negate (k * (n + 1))

-- `<=`
abbrev pub leb_int : ℤ → ℤ → Bool
leb_int (pos m) (pos n) = leb m n
leb_int (pos m) (negsuc n) = false
leb_int (negsuc m) (pos n) = true
leb_int (negsuc m) (negsuc n) = leb n m

-- The integer fits an `i32`, an `i64`.
abbrev pub IsI32 : ℤ → Type 0
IsI32 (pos n) = n < 2 ^ 31
IsI32 (negsuc n) = n < 2 ^ 31

abbrev pub IsI64 : ℤ → Type 0
IsI64 (pos n) = n < 2 ^ 63
IsI64 (negsuc n) = n < 2 ^ 63

-- The same as tests: whether a Python int fits.
abbrev pub fits_i32 : ℤ → Bool
fits_i32 (pos n) = ltb n (2 ^ 31)
fits_i32 (negsuc n) = ltb n (2 ^ 31)

abbrev pub fits_i64 : ℤ → Bool
fits_i64 (pos n) = ltb n (2 ^ 63)
fits_i64 (negsuc n) = ltb n (2 ^ 63)

-- `i as u32`, `i as u64`
abbrev pub as_u32 : ℤ → ℕ
as_u32 (pos n) = n % 2 ^ 32
as_u32 (negsuc n) = 2 ^ 32 - 1 - n % 2 ^ 32

abbrev pub as_u64 : ℤ → ℕ
as_u64 (pos n) = n % 2 ^ 64
as_u64 (negsuc n) = 2 ^ 64 - 1 - n % 2 ^ 64

-- `u as u32 as i32`, `u as i64`
abbrev pub as_i32 : ℕ → ℤ
as_i32 u = let p = u % 2 ^ 32 in if ltb p (2 ^ 31) then pos p else negsuc (2 ^ 32 - 1 - p)

abbrev pub as_i64 : ℕ → ℤ
as_i64 u = let p = u % 2 ^ 64 in if ltb p (2 ^ 63) then pos p else negsuc (2 ^ 64 - 1 - p)

pub as_i64-as_u64 : (i : ℤ) → IsI64 i → as_i64 (as_u64 i) ≡ i
as_i64-as_u64 (pos n) h = ground arith
as_i64-as_u64 (negsuc n) h = ground arith

-- An `i32` sign-extended to 64 bits and truncated back.
pub as_i32-as_u64 : (i : ℤ) → IsI32 i → as_i32 (as_u64 i) ≡ i
as_i32-as_u64 (pos n) h = ground arith
as_i32-as_u64 (negsuc n) h = ground arith

pub as_i32-as_u32 : (i : ℤ) → IsI32 i → as_i32 (as_u32 i) ≡ i
as_i32-as_u32 (pos n) h = ground arith
as_i32-as_u32 (negsuc n) h = ground arith

pub as_u64-lt : (i : ℤ) → as_u64 i < 2 ^ 64
as_u64-lt (pos n) = omega arith
as_u64-lt (negsuc n) = omega arith

pub as_u32-lt : (i : ℤ) → as_u32 i < 2 ^ 32
as_u32-lt (pos n) = omega arith
as_u32-lt (negsuc n) = omega arith

pub as_i32-IsI32 : (u : ℕ) → IsI32 (as_i32 u)
as_i32-IsI32 u = ground arith

pub as_i64-IsI64 : (u : ℕ) → IsI64 (as_i64 u)
as_i64-IsI64 u = ground arith
