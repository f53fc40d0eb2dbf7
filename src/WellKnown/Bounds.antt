-- ===== src/WellKnown/Bounds.antt =====
-- What the conversions of src/wellknown/mod.rs give: parts in range that add up to the total.
use fastproto.Common.{
  ◌*◌, err, Bool-cases, inl, inr, ◌⊎◌, le→leb, leb→le, leb→lt, leb, ℕ, ◌≤◌, ◌<◌, ◌≡◌, refl, ap,
  arith, ok, ◌>>=◌,
}
use fastproto.Common.Int.{ℤ, pos, negsuc, ◌+ℤ◌, times, magnitude}
use fastproto.WellKnown.Parts.{
  parts_to_datetime, timestamp_out_of_range, duration_out_of_range, Timedelta, datetime_to_parts,
  timedelta_to_parts, div_euclid, rem_euclid, div_trunc, rem_trunc, parts_to_timedelta,
  timedelta_from,
}
use fastproto.WellKnown.Exact.{
  IsTimedelta, exact_nanos, datetime_to_parts-exact, timedelta_to_parts-exact,
}
use fastproto.WellKnown.Range.{seconds_in, nanos_in}

euclid-adds :
    (i : ℤ) → times 1000000000 (div_euclid i 1000000000) +ℤ pos (rem_euclid i 1000000000) ≡ i
euclid-adds (pos n) = ap pos (omega arith)
euclid-adds (negsuc n) = ground arith

trunc-adds : (i : ℤ) → times 1000000000 (div_trunc i 1000000000) +ℤ rem_trunc i 1000000000 ≡ i
trunc-adds (pos n) = ap pos (omega arith)
trunc-adds (negsuc n) = ground arith

-- The numbers have no opposite signs.
abbrev pub SameSign : ℤ → ℤ → Type 0
SameSign (pos m) (pos n) = 0 ≤ m
SameSign (pos m) (negsuc n) = m ≡ 0
SameSign (negsuc m) (pos n) = n ≡ 0
SameSign (negsuc m) (negsuc n) = 0 ≤ m

-- The parts that the protobuf specification allows for a timestamp.
pub record AreTimestampParts (total : ℤ) (parts : ℤ × ℤ) : Type 0 where
  pub nanos : ℕ
  pub nanos_part : parts.1 ≡ pos nanos
  pub nanos-lt : nanos < 1000000000
  pub adds : times 1000000000 parts.0 +ℤ parts.1 ≡ total

-- The parts that it allows for a duration.
pub record AreDurationParts (total : ℤ) (parts : ℤ × ℤ) : Type 0 where
  pub seconds-le : magnitude parts.0 ≤ 315576000000
  pub nanos-lt : magnitude parts.1 < 1000000000
  pub same_sign : SameSign parts.0 parts.1
  pub adds : times 1000000000 parts.0 +ℤ parts.1 ≡ total

rem_euclid-lt : (i : ℤ) → rem_euclid i 1000000000 < 1000000000
rem_euclid-lt (pos n) = omega arith
rem_euclid-lt (negsuc n) = omega arith

-- The parts of every instant are the legal ones, before the epoch as well: the nanoseconds are
-- between 0 and 999999999, and with the seconds they add up to the nanoseconds between the epoch
-- and the instant, where the distance is one that a `timedelta` of Python can have.
pub datetime_to_parts-AreTimestampParts :
    (delta : Timedelta)
    → IsTimedelta delta
    → AreTimestampParts (exact_nanos delta) (datetime_to_parts delta)
datetime_to_parts-AreTimestampParts delta real = rw (datetime_to_parts-exact delta real) (record {
  nanos = rem_euclid (exact_nanos delta) 1000000000;
  nanos_part = refl;
  nanos-lt = rem_euclid-lt (exact_nanos delta);
  adds = euclid-adds (exact_nanos delta);
})

rem_trunc-lt : (i : ℤ) → magnitude (rem_trunc i 1000000000) < 1000000000
rem_trunc-lt (pos n) = omega arith
rem_trunc-lt (negsuc n) = ground arith

trunc-SameSign : (i : ℤ) → SameSign (div_trunc i 1000000000) (rem_trunc i 1000000000)
trunc-SameSign (pos n) = omega arith
trunc-SameSign (negsuc n) = ground arith

div_trunc-large :
    (i : ℤ)
    → 315576000000 < magnitude (div_trunc i 1000000000)
    → 315576000001 * 1000000000 ≤ magnitude i
div_trunc-large (pos n) h = omega arith
div_trunc-large (negsuc n) h = ground arith

-- A `timedelta` of Python is converted to the legal parts, in range, with no opposite signs and
-- with the sum of its nanoseconds, or it is 315576000001 seconds long or more, either way, and is
-- refused as out of range.
pub timedelta_to_parts-cases :
    (value : Timedelta)
    → IsTimedelta value
    → ((parts : ℤ × ℤ) × (timedelta_to_parts value ≡ ok parts)
        × AreDurationParts (exact_nanos value) parts)
      ⊎ ((315576000001 * 1000000000 ≤ magnitude (exact_nanos value))
          × (timedelta_to_parts value ≡ err duration_out_of_range))
timedelta_to_parts-cases value real =
    let total = exact_nanos value in
    elim (Bool-cases (leb (magnitude (div_trunc total 1000000000)) 315576000000)) [
      | inl e ↦ inl (
        (div_trunc total 1000000000, rem_trunc total 1000000000),
        rw (timedelta_to_parts-exact value real, e) refl,
        record {
          seconds-le = leb→le _ _ e;
          nanos-lt = rem_trunc-lt total;
          same_sign = trunc-SameSign total;
          adds = trunc-adds total;
        },
      )
      | inr e ↦
          inr
            (div_trunc-large total (leb→lt _ _ e), rw (timedelta_to_parts-exact value real, e) refl)
    ]

div_trunc-adds :
    (secs nanos : ℤ)
    → SameSign secs nanos
    → magnitude nanos < 1000000000
    → div_trunc (times 1000000000 secs +ℤ times 1000 (div_trunc nanos 1000)) 1000000000 ≡ secs
div_trunc-adds (pos m) (pos n) same small = ap pos (omega arith)
div_trunc-adds (pos m) (negsuc n) same small = ground arith
div_trunc-adds (negsuc m) (pos n) same small = ground arith
div_trunc-adds (negsuc m) (negsuc n) same small = ground arith

rem_trunc-adds :
    (secs nanos : ℤ)
    → SameSign secs nanos
    → magnitude nanos < 1000000000
    → rem_trunc (times 1000000000 secs +ℤ times 1000 (div_trunc nanos 1000)) 1000000000
      ≡ times 1000 (div_trunc nanos 1000)
rem_trunc-adds (pos m) (pos n) same small = ap pos (omega arith)
rem_trunc-adds (pos m) (negsuc n) same small = ground arith
rem_trunc-adds (negsuc m) (pos n) same small = ground arith
rem_trunc-adds (negsuc m) (negsuc n) same small = ground arith

micros-le : (nanos : ℤ) → magnitude nanos ≤ 999999999 → magnitude (div_trunc nanos 1000) ≤ 999999
micros-le (pos n) h = omega arith
micros-le (negsuc n) h = ground arith

-- What Python's constructor gives for seconds and microseconds that a duration in range has: a
-- `timedelta` of that length.
abbrev pub Constructs : (ℤ → ℤ → Timedelta) → Type 0
Constructs timedelta =
    (s u : ℤ)
    → magnitude s ≤ 315576000000
    → magnitude u ≤ 999999
    → IsTimedelta (timedelta s u)
      × (exact_nanos (timedelta s u) ≡ times 1000000000 s +ℤ times 1000 u)

-- A duration that is decoded into a `timedelta` and encoded again keeps its seconds and loses of
-- its nanoseconds only what is below a microsecond, where the parts are in range and have no
-- opposite signs, and the constructor of Python gives a `timedelta` of the length it is given.
pub timedelta_to_parts-parts_to_timedelta :
    (timedelta : ℤ → ℤ → Timedelta)
    → Constructs timedelta
    → (secs nanos : ℤ) → SameSign secs nanos
    → magnitude secs ≤ 315576000000
    → magnitude nanos ≤ 999999999
    → (parts_to_timedelta timedelta secs nanos >>= timedelta_to_parts)
      ≡ ok (secs, times 1000 (div_trunc nanos 1000))
unfolding parts_to_timedelta timedelta_from
timedelta_to_parts-parts_to_timedelta timedelta law secs nanos same in_secs in_nanos =
    let (real, length_law) = law secs (div_trunc nanos 1000) in_secs (micros-le nanos in_nanos) in
    rw
      (
        seconds_in secs in_secs,
        nanos_in nanos in_nanos,
        timedelta_to_parts-exact (timedelta secs (div_trunc nanos 1000)) real,
        length_law,
        div_trunc-adds secs nanos same (omega arith),
        rem_trunc-adds secs nanos same (omega arith),
        le→leb _ _ in_secs,
      )
      refl

-- The range of a timestamp: from the year 1 to the year 9999, in UTC, and nanoseconds below a
-- second.
abbrev pub InTimestampRange : ℤ → ℤ → Type 0
InTimestampRange (pos s) (pos n) = (s ≤ 253402300799) × (n ≤ 999999999)
InTimestampRange (negsuc s) (pos n) = (s < 62135596800) × (n ≤ 999999999)
InTimestampRange secs (negsuc n) = ⊥

-- A timestamp is converted exactly where it is in range, to the epoch moved by its seconds and
-- microseconds, and any other is refused as out of range.
pub parts_to_datetime-cases :
    {D : Type 0} (timedelta : ℤ → ℤ → Timedelta) (epoch_add : Timedelta → D) (secs nanos : ℤ)
    → (InTimestampRange secs nanos
        × (parts_to_datetime timedelta epoch_add secs nanos
            ≡ ok (epoch_add (timedelta secs (div_trunc nanos 1000)))))
      ⊎ (¬ InTimestampRange secs nanos
          × (parts_to_datetime timedelta epoch_add secs nanos ≡ err timestamp_out_of_range))
unfolding parts_to_datetime timedelta_from
parts_to_datetime-cases timedelta epoch_add (pos s) (pos n) =
    elim (Bool-cases (leb s 253402300799)) [
      | inl e ↦ elim (Bool-cases (leb n 999999999)) [
        | inl h ↦ inl ((leb→le _ _ e, leb→le _ _ h), rw (e, h, le→leb 0 n (omega arith)) refl)
        | inr h ↦ inr (
          λ p. absurd (omega (arith, p.1, leb→lt n 999999999 h)),
          rw (e, h, le→leb 0 n (omega arith)) refl,
        )
      ]
      | inr e ↦ inr (λ p. absurd (omega (arith, p.0, leb→lt s 253402300799 e)), rw e refl)
    ]
parts_to_datetime-cases timedelta epoch_add (negsuc s) (pos n) =
    elim (Bool-cases (leb s 62135596799)) [
      | inl e ↦ elim (Bool-cases (leb n 999999999)) [
        | inl h ↦ inl (
          (omega (arith, leb→le s 62135596799 e), leb→le _ _ h),
          rw (e, h, le→leb 0 n (omega arith)) refl,
        )
        | inr h ↦ inr (
          λ p. absurd (omega (arith, p.1, leb→lt n 999999999 h)),
          rw (e, h, le→leb 0 n (omega arith)) refl,
        )
      ]
      | inr e ↦ inr (λ p. absurd (omega (arith, p.0, leb→lt s 62135596799 e)), rw e refl)
    ]
parts_to_datetime-cases timedelta epoch_add (pos s) (negsuc n) =
    elim (Bool-cases (leb s 253402300799)) [
      | inl e ↦ inr (λ p. p, rw e refl)
      | inr e ↦ inr (λ p. p, rw e refl)
    ]
parts_to_datetime-cases timedelta epoch_add (negsuc s) (negsuc n) =
    elim (Bool-cases (leb s 62135596799)) [
      | inl e ↦ inr (λ p. p, rw e refl)
      | inr e ↦ inr (λ p. p, rw e refl)
    ]
