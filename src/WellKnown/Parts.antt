-- ===== src/WellKnown/Parts.antt =====
-- The exact arithmetic of src/wellknown/mod.rs. A Python `timedelta` is its three attributes; a
-- `datetime` stands as its distance from the epoch, which Python computes. The `i128` of the code
-- holds the total of every `timedelta`, so it is a plain integer here.
use fastproto.Common.{ℕ, ◌+◌, ◌-◌, ◌/◌, ◌%◌, if◌then◌else◌, ◌&&◌, ◌||◌, not, Result, ok, err}
use fastproto.Common.Int.{
  ℤ, as_u32, as_u64, pos, negsuc, ◌+ℤ◌, times, leb_int, negate, as_i32, as_i64,
}

pub record Timedelta : Type 0 where
  pub days : ℤ
  pub seconds : ℤ
  pub microseconds : ℤ

pub data RangeError : Type 0 where
  timestamp_out_of_range duration_out_of_range : RangeError

abbrev pub nanos_per_second : ℕ
nanos_per_second = 1000000000

abbrev pub ts_min_seconds : ℤ
ts_min_seconds = negsuc 62135596799

abbrev pub ts_max_seconds : ℤ
ts_max_seconds = pos 253402300799

abbrev pub duration_max_seconds : ℕ
duration_max_seconds = 315576000000

abbrev pub max_nanos : ℕ
max_nanos = 999999999

-- `div_euclid` and `rem_euclid` by a positive number.
abbrev pub div_euclid : ℤ → ℕ → ℤ
div_euclid (pos n) d = pos (n / d)
div_euclid (negsuc n) d = negsuc (n / d)

abbrev pub rem_euclid : ℤ → ℕ → ℕ
rem_euclid (pos n) d = n % d
rem_euclid (negsuc n) d = d - 1 - n % d

-- `/` and `%` by a positive number, which truncate toward zero.
abbrev pub div_trunc : ℤ → ℕ → ℤ
div_trunc (pos n) d = pos (n / d)
div_trunc (negsuc n) d = negate ((n + 1) / d)

abbrev pub rem_trunc : ℤ → ℕ → ℤ
rem_trunc (pos n) d = pos (n % d)
rem_trunc (negsuc n) d = negate ((n + 1) % d)

unfoldable pub timedelta_total_nanos : Timedelta → ℤ
timedelta_total_nanos t =
    times nanos_per_second (times 86400 t.days +ℤ t.seconds) +ℤ times 1000 t.microseconds

-- `abs`, which wraps at the least number of the width: the release profile has no overflow checks.
unfoldable pub abs_i64 : ℤ → ℤ
abs_i64 (pos n) = pos n
abs_i64 (negsuc n) = as_i64 (n + 1)

unfoldable pub abs_i32 : ℤ → ℤ
abs_i32 (pos n) = pos n
abs_i32 (negsuc n) = as_i32 (n + 1)

-- `as i64` and `as i32` of an `i128`.
abbrev pub cast_i64 : ℤ → ℤ
cast_i64 i = as_i64 (as_u64 i)

abbrev pub cast_i32 : ℤ → ℤ
cast_i32 i = as_i32 (as_u32 i)

-- `datetime_to_parts`, behind the subtraction of the epoch.
unfoldable pub datetime_to_parts : Timedelta → ℤ × ℤ
datetime_to_parts delta =
    let total = timedelta_total_nanos delta in
    (
      cast_i64 (div_euclid total nanos_per_second),
      cast_i32 (pos (rem_euclid total nanos_per_second)),
    )

unfoldable pub timedelta_to_parts : Timedelta → Result RangeError (ℤ × ℤ)
timedelta_to_parts value =
    let total = timedelta_total_nanos value in
    let secs = cast_i64 (div_trunc total nanos_per_second) in
    let nanos = cast_i32 (rem_trunc total nanos_per_second) in
    if not (leb_int (abs_i64 secs) (pos duration_max_seconds))
    then err duration_out_of_range
    else ok (secs, nanos)

-- Python's constructor `timedelta(seconds=..., microseconds=...)`.
module _ {T : Type 0} (timedelta : ℤ → ℤ → T) where
  unfoldable pub timedelta_from : ℤ → ℤ → T
  timedelta_from secs nanos = timedelta secs (div_trunc nanos 1000)

  unfoldable pub parts_to_timedelta : ℤ → ℤ → Result RangeError T
  parts_to_timedelta secs nanos =
      if not (leb_int (abs_i64 secs) (pos duration_max_seconds))
        || not (leb_int (abs_i32 nanos) (pos max_nanos))
      then err duration_out_of_range
      else ok (timedelta_from secs nanos)

  -- `epoch + delta`, into a `datetime`.
  unfoldable pub parts_to_datetime : {D : Type 0} → (T → D) → ℤ → ℤ → Result RangeError D
  parts_to_datetime epoch_add secs nanos =
      if not (leb_int ts_min_seconds secs && leb_int secs ts_max_seconds)
        || not (leb_int (pos 0) nanos && leb_int nanos (pos max_nanos))
      then err timestamp_out_of_range
      else ok (epoch_add (timedelta_from secs nanos))
