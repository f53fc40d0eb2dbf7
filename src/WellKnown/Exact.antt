-- ===== src/WellKnown/Exact.antt =====
-- The numbers that src/wellknown/mod.rs computes for a real `timedelta` of Python, as literals.
use fastproto.Common.{
  if◌then◌else◌, not, ok, err, ℕ, ◌*◌, ◌≤◌, ◌<◌, ◌≡◌, refl, arith, ap, ap₂, leb, ◌^◌,
}
use fastproto.Common.Int.{
  ℤ, pos, negsuc, ◌+ℤ◌, times, magnitude, IsI64, IsI32, as_i64-as_u64, as_i32-as_u32,
}
use fastproto.WellKnown.Parts.{
  Timedelta, timedelta_total_nanos, duration_out_of_range, div_euclid, rem_euclid, div_trunc,
  rem_trunc, abs_i64, datetime_to_parts, timedelta_to_parts,
}

-- What the documentation of Python's `timedelta` says of its attributes.
pub record IsTimedelta (t : Timedelta) : Type 0 where
  pub seconds : ℕ
  pub micros : ℕ
  pub seconds_part : t.seconds ≡ pos seconds
  pub micros_part : t.microseconds ≡ pos micros
  pub seconds-lt : seconds < 86400
  pub micros-lt : micros < 1000000
  pub days-le : magnitude t.days ≤ 999999999

-- Its length in nanoseconds: a day has 86400000000000 of them.
abbrev pub exact_nanos : Timedelta → ℤ
exact_nanos t =
    times 86400000000000 t.days +ℤ times 1000000000 t.seconds +ℤ times 1000 t.microseconds

total_exact :
    (d : ℤ) (s u : ℕ)
    → times 1000000000 (times 86400 d +ℤ pos s) +ℤ times 1000 (pos u)
      ≡ times 86400000000000 d +ℤ times 1000000000 (pos s) +ℤ times 1000 (pos u)
total_exact (pos d) s u = ap pos (omega arith)
total_exact (negsuc d) s u = ground arith

module _ (t : Timedelta) (real : IsTimedelta t) where
  total-eq-exact_nanos : timedelta_total_nanos t ≡ exact_nanos t
  unfolding timedelta_total_nanos
  total-eq-exact_nanos =
      rw (real.seconds_part, real.micros_part) (total_exact t.days real.seconds real.micros)

  -- Less than 1000000000 days either way.
  exact_bound :
      (d : ℤ) (s u : ℕ)
      → s < 86400
      → u < 1000000
      → magnitude d ≤ 999999999
      → magnitude (times 86400000000000 d +ℤ times 1000000000 (pos s) +ℤ times 1000 (pos u))
        < 86400000000000 * 1000000000
  exact_bound (pos d) s u hs hu hd = omega arith
  exact_bound (negsuc d) s u hs hu hd = ground arith

  exact_nanos-lt : magnitude (exact_nanos t) < 86400000000000 * 1000000000
  exact_nanos-lt =
      rw (real.seconds_part, real.micros_part)
        (exact_bound t.days real.seconds real.micros real.seconds-lt real.micros-lt real.days-le)

div_euclid-IsI64 :
    (i : ℤ) → magnitude i < 86400000000000 * 1000000000 → IsI64 (div_euclid i 1000000000)
div_euclid-IsI64 (pos n) h = omega arith
div_euclid-IsI64 (negsuc n) h = omega arith

div_trunc-IsI64 :
    (i : ℤ) → magnitude i < 86400000000000 * 1000000000 → IsI64 (div_trunc i 1000000000)
div_trunc-IsI64 (pos n) h = omega arith
div_trunc-IsI64 (negsuc n) h = ground arith

div_trunc-lt :
    (i : ℤ)
    → magnitude i < 86400000000000 * 1000000000
    → magnitude (div_trunc i 1000000000) < 2 ^ 63
div_trunc-lt (pos n) h = omega arith
div_trunc-lt (negsuc n) h = ground arith

abs_i64-magnitude : (i : ℤ) → magnitude i < 2 ^ 63 → abs_i64 i ≡ pos (magnitude i)
unfolding abs_i64
abs_i64-magnitude (pos n) h = refl
abs_i64-magnitude (negsuc n) h = ground arith

rem_euclid-IsI32 : (i : ℤ) → IsI32 (pos (rem_euclid i 1000000000))
rem_euclid-IsI32 (pos n) = omega arith
rem_euclid-IsI32 (negsuc n) = omega arith

rem_trunc-IsI32 : (i : ℤ) → IsI32 (rem_trunc i 1000000000)
rem_trunc-IsI32 (pos n) = omega arith
rem_trunc-IsI32 (negsuc n) = ground arith

module _ (t : Timedelta) (real : IsTimedelta t) where
  -- The casts lose nothing.
  pub datetime_to_parts-exact :
      datetime_to_parts t
      ≡ (div_euclid (exact_nanos t) 1000000000, pos (rem_euclid (exact_nanos t) 1000000000))
  unfolding datetime_to_parts
  datetime_to_parts-exact = rw (total-eq-exact_nanos t real) (
      ap₂ (λ (a b : ℤ). (a, b))
        (as_i64-as_u64 _ (div_euclid-IsI64 (exact_nanos t) (exact_nanos-lt t real)))
        (as_i32-as_u32 _ (rem_euclid-IsI32 (exact_nanos t))))

  pub timedelta_to_parts-exact : timedelta_to_parts t ≡ (
      if not (leb (magnitude (div_trunc (exact_nanos t) 1000000000)) 315576000000)
      then err duration_out_of_range
      else ok (div_trunc (exact_nanos t) 1000000000, rem_trunc (exact_nanos t) 1000000000))
  unfolding timedelta_to_parts
  timedelta_to_parts-exact =
      let whole = div_trunc-IsI64 (exact_nanos t) (exact_nanos-lt t real) in
      rw
        (
          total-eq-exact_nanos t real,
          as_i64-as_u64 _ whole,
          as_i32-as_u32 _ (rem_trunc-IsI32 (exact_nanos t)),
          abs_i64-magnitude _ (div_trunc-lt (exact_nanos t) (exact_nanos-lt t real)),
        )
        refl
