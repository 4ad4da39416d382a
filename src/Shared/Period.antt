-- ===== src/Shared/Period.antt =====
-- packages/shared/src/period.ts: a period in hours, seconds and days. Numbers are whole here, so
-- the guard against fractions is the guard against unsafe integers.
use cancel_chain.Common.{
  ℕ, ◌*◌, ◌/◌, ◌%◌, ◌≤◌, ◌<◌, ◌≡◌, not, arith, ltb, leb, ◌==◌, Result, ok, throw_if, ◌>>◌,
}
use cancel_chain.Shared.Primitives.{max_safe_integer}

abbrev pub seconds_per_hour : ℕ
seconds_per_hour = 3600

abbrev pub seconds_per_day : ℕ
seconds_per_day = 86_400

pub data PeriodError : Type 0 where
  must_be_whole : ℕ → PeriodError
  must_be_positive : ℕ → PeriodError
  not_whole_hours : ℕ → PeriodError

unfoldable pub assert_whole_positive : ℕ → Result PeriodError (Unit {0})
assert_whole_positive value = do
  throw_if (ltb max_safe_integer value) (must_be_whole value)
  throw_if (leb value 0) (must_be_positive value)

unfoldable pub period_seconds_from_hours : ℕ → Result PeriodError ℕ
unfolding assert_whole_positive
period_seconds_from_hours hours = do assert_whole_positive hours; ok (hours * seconds_per_hour)

unfoldable pub period_hours_from_seconds : ℕ → Result PeriodError ℕ
unfolding assert_whole_positive
period_hours_from_seconds seconds = do
  assert_whole_positive seconds
  throw_if (not (seconds % seconds_per_hour == 0)) (not_whole_hours seconds)
  ok (seconds / seconds_per_hour)

unfoldable pub period_seconds_from_days : ℕ → Result PeriodError ℕ
unfolding assert_whole_positive
period_seconds_from_days days = do assert_whole_positive days; ok (days * seconds_per_day)

-- A plan's hours come back from the stored seconds, as long as the seconds are a safe integer.
pub hours-seconds :
    (hours seconds : ℕ)
    → period_seconds_from_hours hours ≡ ok seconds
    → seconds ≤ max_safe_integer
    → period_hours_from_seconds seconds ≡ ok hours
unfolding period_seconds_from_hours period_hours_from_seconds
hours-seconds hours seconds h fits = ground arith

-- Stored seconds become hours only where nothing is rounded away: the hours are positive, and they
-- give the same seconds again.
pub seconds-hours :
    (seconds hours : ℕ)
    → period_hours_from_seconds seconds ≡ ok hours
    → (0 < hours) × (period_seconds_from_hours hours ≡ ok seconds)
unfolding period_seconds_from_hours period_hours_from_seconds
seconds-hours seconds hours h = ground arith
