-- ===== src/Common/Bits.antt =====
-- The bit operations of Rust on unsigned words, as arithmetic: masks, disjoint fields, and the
-- exclusive or with all ones. Each law takes one binary digit a step.
mod Step
use Step.{bit_and_step, bit_or_step, bit_xor_step}
use Prim.Native.Nat.{ℕ, zero, suc, ◌+◌, ◌-◌, ◌*◌, ◌/◌, ◌%◌, ◌^◌, ◌≤◌, ◌<◌, bit_and, bit_or, bit_xor}
use Prim.Native.Nat.{bit_or-bitwise, bit_and-bitwise, bit_xor-bitwise, max, min, differ}
use mathlib.Core.Path.{◌≡◌, refl, ap}
use native.Mathlib.Nat.{pow-suc, one-le-pow}
use native.Mathlib.Omega.{arith}

double_pow : (q k : ℕ) → q * 2 ^ suc k ≡ 2 * (q * 2 ^ k)
double_pow q k = omega (arith, ap (λ (t : ℕ). q * t) (pow-suc 2 k))

pub zero-bit_or : (b : ℕ) → bit_or 0 b ≡ b
zero-bit_or b = bit_or-bitwise 0 b

-- A word of `k` bits joined with a field above it is their sum.
pub bit_or_fields : (k q r : ℕ) → r < 2 ^ k → bit_or r (q * 2 ^ k) ≡ r + q * 2 ^ k
bit_or_fields zero zero r h = ground (arith, zero-bit_or 0)
bit_or_fields zero q r h = ground (arith, zero-bit_or q)
bit_or_fields (suc k) q r h =
    ground
      (arith, bit_or_step r (q * 2 ^ suc k), double_pow q k, pow-suc 2 k, bit_or_fields k q (r / 2))

-- The union of two words of `k` bits is one.
pub bit_or-lt : (k a b : ℕ) → a < 2 ^ k → b < 2 ^ k → bit_or a b < 2 ^ k
bit_or-lt zero a b h l = ground (arith, zero-bit_or 0)
bit_or-lt (suc k) a b h l = omega (
  arith,
  bit_or_step a b,
  pow-suc 2 k,
  bit_or-lt k (a / 2) (b / 2) (omega (arith, pow-suc 2 k)) (omega (arith, pow-suc 2 k)),
)

below-bit_and-zero : (top a : ℕ) → a ≤ top → bit_and a 0 ≡ 0
below-bit_and-zero top zero h = bit_and-bitwise 0 0
below-bit_and-zero zero (suc a) h = absurd (omega arith)
below-bit_and-zero (suc top) (suc a) h =
    omega (arith, below-bit_and-zero top (suc a / 2) (omega arith), bit_and_step (suc a) 0)

-- `a & 1`
pub bit_and_one : (a : ℕ) → bit_and a 1 ≡ a % 2
bit_and_one a = omega (arith, bit_and_step a 1, below-bit_and-zero (a / 2) (a / 2) (omega arith))

bit_and_three : (a : ℕ) → bit_and a 3 ≡ a % 4
bit_and_three a = omega (arith, bit_and_step a 3, bit_and_one (a / 2))

-- `a & 7`
pub bit_and_seven : (a : ℕ) → bit_and a 7 ≡ a % 8
bit_and_seven a = omega (arith, bit_and_step a 7, bit_and_three (a / 2))

bit_and_fifteen : (a : ℕ) → bit_and a 15 ≡ a % 16
bit_and_fifteen a = omega (arith, bit_and_step a 15, bit_and_seven (a / 2))

bit_and_31 : (a : ℕ) → bit_and a 31 ≡ a % 32
bit_and_31 a = omega (arith, bit_and_step a 31, bit_and_fifteen (a / 2))

bit_and_63 : (a : ℕ) → bit_and a 63 ≡ a % 64
bit_and_63 a = omega (arith, bit_and_step a 63, bit_and_31 (a / 2))

-- `a & 0x7f`
pub bit_and_x7f : (a : ℕ) → bit_and a 0x7f ≡ a % 128
bit_and_x7f a = omega (arith, bit_and_step a 0x7f, bit_and_63 (a / 2))

bit_and_double : (a k : ℕ) → bit_and a (2 * k) ≡ 2 * bit_and (a / 2) k
bit_and_double a k = omega (arith, bit_and_step a (2 * k), ap (λ (t : ℕ). bit_and (a / 2) t) half)
  where
    half : 2 * k / 2 ≡ k
    half = omega arith

-- `a & 0x80`: the top bit of a byte, in place.
pub bit_and_x80 : (a : ℕ) → bit_and a 0x80 ≡ a / 128 % 2 * 128
bit_and_x80 a = omega (
  arith,
  bit_and_double a 64,
  bit_and_double (a / 2) 32,
  bit_and_double (a / 2 / 2) 16,
  bit_and_double (a / 2 / 2 / 2) 8,
  bit_and_double (a / 2 / 2 / 2 / 2) 4,
  bit_and_double (a / 2 / 2 / 2 / 2 / 2) 2,
  bit_and_double (a / 2 / 2 / 2 / 2 / 2 / 2) 1,
  bit_and_one (a / 2 / 2 / 2 / 2 / 2 / 2 / 2),
)

-- `a | 0x80` on a group of seven bits.
pub bit_or_x80 : (a : ℕ) → a < 128 → bit_or a 0x80 ≡ a + 128
bit_or_x80 a h = bit_or_fields 7 1 a h

zero-bit_xor : (b : ℕ) → bit_xor 0 b ≡ b
zero-bit_xor b = bit_xor-bitwise 0 b

differ_zero : (a : ℕ) → a < 2 → differ a 0 ≡ a
differ_zero zero h = refl
differ_zero (suc a) h = refl

differ_one : (a : ℕ) → a < 2 → differ a 1 ≡ 1 - a
differ_one zero h = refl
differ_one (suc zero) h = refl
differ_one (suc (suc a)) h = absurd (omega arith)

-- `a ^ 0`
pub bit_xor-zero : (k a : ℕ) → a < 2 ^ k → bit_xor a 0 ≡ a
bit_xor-zero zero a h = ground (arith, zero-bit_xor 0)
bit_xor-zero (suc k) a h = omega (
  arith,
  bit_xor_step a 0,
  differ_zero (a % 2) (omega arith),
  bit_xor-zero k (a / 2) (omega (arith, pow-suc 2 k)),
)

ones_half : (k : ℕ) → (2 ^ suc k - 1) / 2 ≡ 2 ^ k - 1
ones_half k = omega (arith, pow-suc 2 k, one-le-pow k 2)

-- `a ^ -1` on `k` bits: the complement.
pub bit_xor_ones : (k a : ℕ) → a < 2 ^ k → bit_xor a (2 ^ k - 1) ≡ 2 ^ k - 1 - a
bit_xor_ones zero a h = ground (arith, zero-bit_xor 0)
bit_xor_ones (suc k) a h = omega (
  arith,
  bit_xor_step a (2 ^ suc k - 1),
  ap (λ (t : ℕ). bit_xor (a / 2) t) (ones_half k),
  ap (λ (t : ℕ). differ (a % 2) t) odd,
  differ_one (a % 2) (omega arith),
  pow-suc 2 k,
  one-le-pow k 2,
  bit_xor_ones k (a / 2) (omega (arith, pow-suc 2 k)),
)
  where
    odd : (2 ^ suc k - 1) % 2 ≡ 1
    odd = omega (arith, pow-suc 2 k, one-le-pow k 2)

bit_or_comm_fuel : (n a b : ℕ) → a ≤ n → b ≤ n → bit_or a b ≡ bit_or b a
bit_or_comm_fuel zero zero zero h k = refl
bit_or_comm_fuel zero (suc a) b h k = absurd (omega arith)
bit_or_comm_fuel zero zero (suc b) h k = absurd (omega arith)
bit_or_comm_fuel (suc n) a b h k = omega (
  arith,
  bit_or_step a b,
  bit_or_step b a,
  bit_or_comm_fuel n (a / 2) (b / 2) (omega arith) (omega arith),
)

pub bit_or_comm : (a b : ℕ) → bit_or a b ≡ bit_or b a
bit_or_comm a b = bit_or_comm_fuel (a + b) a b (omega arith) (omega arith)

-- `a | 1`
pub bit_or_one : (a : ℕ) → bit_or a 1 ≡ a / 2 * 2 + 1
bit_or_one a = omega (arith, bit_or_step a 1, bit_or_comm (a / 2) 0, zero-bit_or (a / 2))
