-- ===== src/WellKnown/Range.antt =====
-- The range that `parts_to_timedelta` of src/wellknown/mod.rs accepts. `i64::abs` and `i32::abs`
-- wrap at the least number, which therefore passes the test for the range.
use fastproto.Common.{
  ◌+◌, ◌≤◌, ◌≡◌, refl, ap, leb, leb→le, leb→lt, Bool-cases, true, inl, inr, ◌⊎◌, ok, err, arith,
}
use fastproto.Common.Int.{ℤ, pos, negsuc, magnitude, leb_int, IsI64, IsI32}
use fastproto.WellKnown.Parts.{
  abs_i64, abs_i32, duration_max_seconds, max_nanos, div_trunc, timedelta_from, parts_to_timedelta,
  duration_out_of_range,
}

abbrev pub least_i64 : ℤ
least_i64 = negsuc 9223372036854775807

abbrev pub least_i32 : ℤ
least_i32 = negsuc 2147483647

pub seconds_in :
    (secs : ℤ)
    → magnitude secs ≤ duration_max_seconds
    → leb_int (abs_i64 secs) (pos duration_max_seconds) ≡ true
unfolding abs_i64
seconds_in (pos n) h = ground arith
seconds_in (negsuc n) h = ground arith

pub nanos_in :
    (nanos : ℤ) → magnitude nanos ≤ max_nanos → leb_int (abs_i32 nanos) (pos max_nanos) ≡ true
unfolding abs_i32
nanos_in (pos n) h = ground arith
nanos_in (negsuc n) h = ground arith

seconds_out :
    (secs : ℤ)
    → IsI64 secs
    → leb_int (abs_i64 secs) (pos duration_max_seconds) ≡ true
    → (magnitude secs ≤ duration_max_seconds) ⊎ (secs ≡ least_i64)
unfolding abs_i64
seconds_out (pos n) h e = inl (leb→le _ _ e)
seconds_out (negsuc n) h e = elim (Bool-cases (leb (n + 1) duration_max_seconds)) [
  | inl small ↦ inl (leb→le _ _ small)
  | inr large ↦ inr (ap negsuc (ground (arith, leb→lt _ _ large)))
]

nanos_out :
    (nanos : ℤ)
    → IsI32 nanos
    → leb_int (abs_i32 nanos) (pos max_nanos) ≡ true
    → (magnitude nanos ≤ max_nanos) ⊎ (nanos ≡ least_i32)
unfolding abs_i32
nanos_out (pos n) h e = inl (leb→le _ _ e)
nanos_out (negsuc n) h e = elim (Bool-cases (leb (n + 1) max_nanos)) [
  | inl small ↦ inl (leb→le _ _ small)
  | inr large ↦ inr (ap negsuc (ground (arith, leb→lt _ _ large)))
]

-- In range, or the least number of the width.
abbrev pub PassesRange : ℤ → ℤ → Type 0
PassesRange secs nanos =
    ((magnitude secs ≤ duration_max_seconds) ⊎ (secs ≡ least_i64))
    × ((magnitude nanos ≤ max_nanos) ⊎ (nanos ≡ least_i32))

seconds_pass :
    (secs : ℤ)
    → (magnitude secs ≤ duration_max_seconds) ⊎ (secs ≡ least_i64)
    → leb_int (abs_i64 secs) (pos duration_max_seconds) ≡ true
unfolding abs_i64
seconds_pass secs (inl h) = seconds_in secs h
seconds_pass secs (inr e) = ap (λ (i : ℤ). leb_int (abs_i64 i) (pos duration_max_seconds)) e

nanos_pass :
    (nanos : ℤ)
    → (magnitude nanos ≤ max_nanos) ⊎ (nanos ≡ least_i32)
    → leb_int (abs_i32 nanos) (pos max_nanos) ≡ true
unfolding abs_i32
nanos_pass nanos (inl h) = nanos_in nanos h
nanos_pass nanos (inr e) = ap (λ (i : ℤ). leb_int (abs_i32 i) (pos max_nanos)) e

-- For every `i64` and `i32`: a duration is refused exactly where a part is out of range and is not
-- the least number of its width, and what is not refused is built from its seconds and
-- microseconds. The least `i64` and the least `i32` pass, out of range as they are.
pub parts_to_timedelta-cases :
    {T : Type 0} (timedelta : ℤ → ℤ → T) (secs nanos : ℤ)
    → IsI64 secs
    → IsI32 nanos
    → (PassesRange secs nanos
        × (parts_to_timedelta timedelta secs nanos ≡ ok (timedelta secs (div_trunc nanos 1000))))
      ⊎ ((¬ PassesRange secs nanos)
          × (parts_to_timedelta timedelta secs nanos ≡ err duration_out_of_range))
unfolding parts_to_timedelta timedelta_from
parts_to_timedelta-cases timedelta secs nanos h k =
    elim (Bool-cases (leb_int (abs_i64 secs) (pos duration_max_seconds))) [
      | inl e ↦ elim (Bool-cases (leb_int (abs_i32 nanos) (pos max_nanos))) [
        | inl f ↦ inl ((seconds_out secs h e, nanos_out nanos k f), rw (e, f) refl)
        | inr f ↦ inr (λ p. absurd (cc (f, nanos_pass nanos p.1)), rw (e, f) refl)
      ]
      | inr e ↦ inr (λ p. absurd (cc (e, seconds_pass secs p.0)), rw e refl)
    ]
