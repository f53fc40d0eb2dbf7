-- ===== src/WellKnown/Examples.antt =====
-- The theorems on src/wellknown/mod.rs at concrete inputs.
use fastproto.Common.{
  ◌-◌, ◌*◌, ◌/◌, ◌%◌, ◌≤◌, ◌<◌, ◌∙◌, err, ◌⊎◌, ◌≡◌, ◌≢◌, refl, arith, [], ◌∷◌, ok, out_of_fuel,
  ◌>>=◌, ap,
}
use fastproto.Common.Int.{ℤ, pos, negsuc, ◌+ℤ◌, times, magnitude}
use fastproto.WellKnown.Parts.{
  parts_to_datetime, timestamp_out_of_range, duration_out_of_range, Timedelta, datetime_to_parts,
  timedelta_to_parts, parts_to_timedelta, div_trunc, div_euclid, rem_euclid,
}
use fastproto.WellKnown.Bounds.{
  InTimestampRange, parts_to_datetime-cases, AreTimestampParts, AreDurationParts,
  datetime_to_parts-AreTimestampParts, timedelta_to_parts-cases, Constructs,
  timedelta_to_parts-parts_to_timedelta,
}
use fastproto.WellKnown.Exact.{IsTimedelta, exact_nanos}
use fastproto.WellKnown.Range.{PassesRange, parts_to_timedelta-cases}
use fastproto.WellKnown.Codec.{encode_parts, decode_parts}
use fastproto.WellKnown.RoundTrip.{decode_parts-encode_parts, decode_parts_ends}

-- A second and a half before the epoch.
abbrev delta : Timedelta
delta = record { days = negsuc 0; seconds = pos 86398; microseconds = pos 500000 }

delta-IsTimedelta : IsTimedelta delta
delta-IsTimedelta = record {
  seconds = 86398;
  micros = 500000;
  seconds_part = refl;
  micros_part = refl;
  seconds-lt = omega arith;
  micros-lt = omega arith;
  days-le = omega arith;
}

datetime_to_parts-AreTimestampParts_example :
    AreTimestampParts (exact_nanos delta) (datetime_to_parts delta)
datetime_to_parts-AreTimestampParts_example =
    datetime_to_parts-AreTimestampParts delta delta-IsTimedelta

timedelta_to_parts-cases_example :
    ((parts : ℤ × ℤ) × (timedelta_to_parts delta ≡ ok parts)
      × AreDurationParts (exact_nanos delta) parts)
    ⊎ ((315576000001 * 1000000000 ≤ magnitude (exact_nanos delta))
        × (timedelta_to_parts delta ≡ err duration_out_of_range))
timedelta_to_parts-cases_example = timedelta_to_parts-cases delta delta-IsTimedelta

-- A constructor that keeps seconds and microseconds as they are.
abbrev plain : ℤ → ℤ → Timedelta
plain s u = record { days = pos 0; seconds = s; microseconds = u }

-- The constructor of Python, which brings microseconds and seconds into their ranges.
abbrev of_micros : ℤ → Timedelta
of_micros q = record {
  days = div_euclid q 86400000000;
  seconds = pos (rem_euclid q 86400000000 / 1000000);
  microseconds = pos (rem_euclid q 86400000000 % 1000000);
}

abbrev normal : ℤ → ℤ → Timedelta
normal s u = of_micros (times 1000000 s +ℤ u)

of_micros-IsTimedelta : (q : ℤ) → magnitude q < 86400000000 * 999999999 → IsTimedelta (of_micros q)
of_micros-IsTimedelta (pos n) h = record {
  seconds = n % 86400000000 / 1000000;
  micros = n % 86400000000 % 1000000;
  seconds_part = refl;
  micros_part = refl;
  seconds-lt = omega arith;
  micros-lt = omega arith;
  days-le = omega arith;
}
of_micros-IsTimedelta (negsuc n) h = record {
  seconds = (86400000000 - 1 - n % 86400000000) / 1000000;
  micros = (86400000000 - 1 - n % 86400000000) % 1000000;
  seconds_part = refl;
  micros_part = refl;
  seconds-lt = omega arith;
  micros-lt = omega arith;
  days-le = omega arith;
}

exact_nanos-of_micros : (q : ℤ) → exact_nanos (of_micros q) ≡ times 1000 q
exact_nanos-of_micros (pos n) = ap pos (omega arith)
exact_nanos-of_micros (negsuc n) = ground arith

times-adds : (s u : ℤ) → times 1000 (times 1000000 s +ℤ u) ≡ times 1000000000 s +ℤ times 1000 u
times-adds (pos m) (pos n) = ap pos (omega arith)
times-adds (pos m) (negsuc n) = ground arith
times-adds (negsuc m) (pos n) = ground arith
times-adds (negsuc m) (negsuc n) = ground arith

micros-lt :
    (s u : ℤ)
    → magnitude s ≤ 315576000000
    → magnitude u ≤ 999999
    → magnitude (times 1000000 s +ℤ u) < 86400000000 * 999999999
micros-lt (pos m) (pos n) h k = omega arith
micros-lt (pos m) (negsuc n) h k = ground arith
micros-lt (negsuc m) (pos n) h k = ground arith
micros-lt (negsuc m) (negsuc n) h k = ground arith

normal-Constructs : Constructs normal
normal-Constructs s u h k = (
  of_micros-IsTimedelta (times 1000000 s +ℤ u) (micros-lt s u h k),
  exact_nanos-of_micros (times 1000000 s +ℤ u) ∙ times-adds s u,
)

timedelta_to_parts-parts_to_timedelta_example :
    (parts_to_timedelta normal (negsuc 0) (negsuc 499999999) >>= timedelta_to_parts)
    ≡ ok (negsuc 0, times 1000 (div_trunc (negsuc 499999999) 1000))
timedelta_to_parts-parts_to_timedelta_example =
    timedelta_to_parts-parts_to_timedelta normal normal-Constructs (negsuc 0) (negsuc 499999999)
      (omega arith) (omega arith) (omega arith)

decode_parts-encode_parts_example :
    decode_parts (encode_parts [] (negsuc 0) (pos 500000000)) ≡ ok (negsuc 0, pos 500000000)
decode_parts-encode_parts_example =
    decode_parts-encode_parts (negsuc 0) (pos 500000000) (omega arith) (omega arith)

decode_parts_ends_example : decode_parts (8 ∷ 128 ∷ []) ≢ out_of_fuel
decode_parts_ends_example = decode_parts_ends (8 ∷ 128 ∷ [])

abbrev same_delta : Timedelta → Timedelta
same_delta d = d

parts_to_datetime-cases_example :
    (InTimestampRange (negsuc 62135596800) (pos 0)
      × (parts_to_datetime plain same_delta (negsuc 62135596800) (pos 0)
          ≡ ok (same_delta (plain (negsuc 62135596800) (div_trunc (pos 0) 1000)))))
    ⊎ (¬ InTimestampRange (negsuc 62135596800) (pos 0)
        × (parts_to_datetime plain same_delta (negsuc 62135596800) (pos 0)
            ≡ err timestamp_out_of_range))
parts_to_datetime-cases_example =
    parts_to_datetime-cases plain same_delta (negsuc 62135596800) (pos 0)

-- The least `i32` as nanoseconds, which is out of range.
parts_to_timedelta-cases_example :
    (PassesRange (pos 0) (negsuc 2147483647)
      × (parts_to_timedelta plain (pos 0) (negsuc 2147483647)
          ≡ ok (plain (pos 0) (div_trunc (negsuc 2147483647) 1000))))
    ⊎ ((¬ PassesRange (pos 0) (negsuc 2147483647))
        × (parts_to_timedelta plain (pos 0) (negsuc 2147483647) ≡ err duration_out_of_range))
parts_to_timedelta-cases_example =
    parts_to_timedelta-cases plain (pos 0) (negsuc 2147483647) (omega arith) (omega arith)
