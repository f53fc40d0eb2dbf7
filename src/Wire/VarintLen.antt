-- ===== src/Wire/VarintLen.antt =====
-- `varint_len` of src/wire/mod.rs counts the bytes that `write_varint` appends.
use fastproto.Common.{
  ℕ, zero, suc, ◌+◌, ◌-◌, ◌*◌, ◌/◌, ◌^◌, ◌≤◌, ◌<◌, ◌≡◌, refl, ap, ◌⊎◌, inl, inr, bit_or, ltb, List,
  length, length-append, arith, Bool-cases, ltb→lt, ltb→le,
}
use fastproto.Common.Bits.{bit_or_one}
use fastproto.Wire.Writer.{write_varint, leading_zeros, varint_len}
use fastproto.Wire.Varint.{write_varint-append, groups, encoding, pow_seven}
use native.Mathlib.Nat.{pow-suc, pow-le-pow_right}

leading_zeros-ge : (w k x : ℕ) → x < 2 ^ k → w - k ≤ leading_zeros w x
unfolding leading_zeros
leading_zeros-ge zero k x h = omega arith
leading_zeros-ge (suc w) k x h = elim (Bool-cases (ltb w k)) [
  | inl e ↦ omega (arith, ltb→lt w k e)
  | inr e ↦
      ground
        (arith, pow-le-pow_right {n = 2} (omega arith) (ltb→le w k e), leading_zeros-ge w k x h)
]

leading_zeros-lt : (w k x : ℕ) → 2 ^ k ≤ x → k < w → leading_zeros w x + k < w
unfolding leading_zeros
leading_zeros-lt zero k x h l = absurd (omega arith)
leading_zeros-lt (suc w) k x h l = ground (arith, leading_zeros-lt w k x h)

pow_128 : (k : ℕ) → 128 ^ k ≡ 2 ^ (7 * k)
pow_128 zero = refl
pow_128 (suc k) =
    omega (arith, pow-suc 128 k, pow_128 k, pow_seven (7 * k), ap (λ (t : ℕ). 2 ^ t) seven)
  where
    seven : 7 * suc k ≡ 7 * k + 7
    seven = omega arith

-- `v` has exactly `k + 1` groups of seven bits.
abbrev InBand : ℕ → ℕ → Type 0
InBand v k = (v < 128 ^ suc k) × ((k ≡ 0) ⊎ (128 ^ k ≤ v))

band : (n v : ℕ) → v < 128 ^ suc n → (k : ℕ) × (k ≤ n) × InBand v k
band zero v h = (0, omega arith, (h, inl refl))
band (suc n) v h = elim (Bool-cases (ltb v (128 ^ suc n))) [
  | inl e ↦ let (k, small, inside) = band n v (ltb→lt _ _ e) in (k, omega arith, inside)
  | inr e ↦ (suc n, omega arith, (h, inr (ltb→le _ _ e)))
]

length-groups : (n k v : ℕ) → k < n → InBand v k → length (groups n v) ≡ suc k
unfolding groups
length-groups zero k v l h = absurd (omega arith)
length-groups (suc n) zero v l h = ground arith
length-groups (suc n) (suc k) v l h =
    ground (arith, pow-suc 128 k, pow-suc 128 (suc k), length-groups n k (v / 128) (omega arith))

-- So many significant bits have the number and the number with its lowest bit set.
significant :
    (k v : ℕ)
    → k ≤ 9
    → v < 2 ^ 64
    → InBand v k
    → (64 - (7 * k + 7) ≤ leading_zeros 64 (bit_or v 1))
      × (leading_zeros 64 (bit_or v 1) + 7 * k < 64)
significant k v small word (below, above) = (
  leading_zeros-ge 64 (7 * k + 7) (bit_or v 1)
      (omega (arith, bit_or_one v, pow-suc 128 k, pow_128 k, pow_seven (7 * k))),
  leading_zeros-lt 64 (7 * k) (bit_or v 1) (omega (arith, bit_or_one v, pow_128 k, reached above))
      (omega arith),
)
  where
    reached : (k ≡ 0) ⊎ (128 ^ k ≤ v) → 128 ^ k ≤ v / 2 * 2 + 1
    reached (inl e) = rw e (omega arith)
    reached (inr h) = omega arith

-- The length that is computed from the leading zeros is that of the varint.
pub varint_len-eq-length : (v : ℕ) → v < 2 ^ 64 → varint_len v ≡ length (encoding v)
unfolding varint_len
varint_len-eq-length v h =
    let (k, small, inside) = band 9 v (omega arith) in
    let (lo, hi) = significant k v small h inside in
    omega (arith, length-groups 10 k v (omega arith) inside)

-- `varint_len` is the number of bytes that `write_varint` appends, for every `u64`.
pub length-write_varint :
    (buf : List ℕ) (v : ℕ) → v < 2 ^ 64 → length (write_varint buf v) ≡ length buf + varint_len v
length-write_varint buf v h =
    rw (write_varint-append buf v, length-append, varint_len-eq-length v h) refl
