-- ===== src/Common/Bits/Step.antt =====
-- One equation for the lowest binary digit of each bit operation. The native operations mean
-- `bitwise`, a recursion on digits with fuel; here the fuel is dropped.
use Prim.Native.Nat.{ℕ, zero, suc, ◌+◌, ◌*◌, ◌/◌, ◌%◌, ◌≤◌, min, max, differ}
use Prim.Native.Nat.{
  bit_and, bit_or, bit_xor, digits, bit_and-bitwise, bit_or-bitwise, bit_xor-bitwise,
}
use mathlib.Core.Path.{◌≡◌, refl}
use native.Mathlib.Nat.{le_refl}
use native.Mathlib.Omega.{arith}

module _ (z : ℕ → ℕ) (f : ℕ → ℕ → ℕ) where
  -- Fuel above the first number changes nothing.
  enough_digits : (n l u v : ℕ) → u ≤ n → u ≤ l → digits z f n u v ≡ digits z f l u v
  enough_digits n l zero v p q = both_zero n l
    where
      both_zero : (n l : ℕ) → digits z f n zero v ≡ digits z f l zero v
      both_zero zero zero = refl
      both_zero zero (suc l) = refl
      both_zero (suc n) zero = refl
      both_zero (suc n) (suc l) = refl
  enough_digits zero l (suc u) v p q = absurd (omega arith)
  enough_digits (suc n) zero (suc u) v p q = absurd (omega arith)
  enough_digits (suc n) (suc l) (suc u) v p q =
      rw (enough_digits n l (suc u / 2) (v / 2) (omega arith) (omega arith))

  digits_step :
      (u v : ℕ)
      → digits z f (suc u) (suc u) v
        ≡ digits z f (suc u / 2) (suc u / 2) (v / 2) * 2 + f (suc u % 2) (v % 2)
  digits_step u v = rw (enough_digits u (suc u / 2) (suc u / 2) (v / 2) (omega arith) (le_refl _))

pub bit_xor_step : (u v : ℕ) → bit_xor u v ≡ bit_xor (u / 2) (v / 2) * 2 + differ (u % 2) (v % 2)
bit_xor_step zero v = simp bit_xor-bitwise (omega arith)
bit_xor_step (suc u) v = simp bit_xor-bitwise (digits_step (λ y. y) differ u v)

pub bit_and_step : (u v : ℕ) → bit_and u v ≡ bit_and (u / 2) (v / 2) * 2 + min (u % 2) (v % 2)
bit_and_step zero v = simp bit_and-bitwise (omega arith)
bit_and_step (suc u) v = simp bit_and-bitwise (digits_step (λ y. 0) min u v)

pub bit_or_step : (u v : ℕ) → bit_or u v ≡ bit_or (u / 2) (v / 2) * 2 + max (u % 2) (v % 2)
bit_or_step zero v = simp bit_or-bitwise (omega arith)
bit_or_step (suc u) v = simp bit_or-bitwise (digits_step (λ y. y) max u v)
