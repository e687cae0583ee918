-- ===== src/RateLimit/Month.antt =====
-- The end of the month, and the time to live of a monthly counter.
use email_service_with_aws_s.Base.{ℕ, zero, suc, ◌+◌, ◌-◌, ◌*◌, ◌≤◌, ◌<◌, ◌≡◌, refl, arith}
use email_service_with_aws_s.RateLimit.Calendar.{
  Time, second, whole_day, is_leap, days_in_month, days_of_months, days_before_year, unix, IsDate,
  days_since_epoch, first_of_next_month, seconds_until_end_of_month,
}

days_before_year-suc :
    (y : ℕ) → 1970 ≤ y → days_before_year (y + 1) ≡ days_before_year y + days_of_months y 12
unfolding days_before_year days_of_months is_leap
days_before_year-suc y h = ground arith

days_in_month_bounds : (y m : ℕ) → (28 ≤ days_in_month y m) × (days_in_month y m ≤ 31)
unfolding days_in_month
days_in_month_bounds y m = ground arith

days_of_months-pred :
    (y m : ℕ) → 1 ≤ m → days_of_months y m ≡ days_of_months y (m - 1) + days_in_month y m
unfolding days_of_months
days_of_months-pred y zero h = elim h [ ]
days_of_months-pred y (suc m) h = ground arith

days_of_months-zero : (y : ℕ) → days_of_months y 0 ≡ 0
unfolding days_of_months
days_of_months-zero y = refl

days-first_of_next_month :
    (t : Time)
    → IsDate t
    → days_before_year (first_of_next_month t).year
        + days_of_months (first_of_next_month t).year ((first_of_next_month t).month - 1)
      ≡ days_before_year t.year + days_of_months t.year (t.month - 1) + days_in_month t.year t.month
unfolding first_of_next_month
days-first_of_next_month t d = ground (
  arith,
  days_of_months-pred t.year t.month d.month_pos,
  days_before_year-suc t.year d.from_1970,
  days_of_months-zero (t.year + 1),
)

unix-first_of_next_month :
    (t : Time)
    → IsDate t
    → unix (first_of_next_month t) + (t.day - 1) * whole_day + t.nanos
      ≡ unix t + days_in_month t.year t.month * whole_day
unfolding unix days_since_epoch first_of_next_month
unix-first_of_next_month t d = ground (arith, days-first_of_next_month t d)

-- The month of a date `t` ends after `t`, at most 31 days later.
pub first_of_next_month_bounds :
    (t : Time)
    → IsDate t
    → (unix t < unix (first_of_next_month t))
      × (unix (first_of_next_month t) ≤ unix t + 31 * whole_day)
first_of_next_month_bounds t d = omega (
  arith,
  unix-first_of_next_month t d,
  days_in_month_bounds t.year t.month,
  d.day_pos,
  d.day_le,
  d.nanos_lt,
)

-- The time to live of a monthly counter, set at a date `t`, lasts beyond the end of the month, by at most the buffer of
-- five minutes, and never passes 31 days and five minutes.
pub seconds_until_end_of_month_bounds :
    (t : Time)
    → IsDate t
    → (unix (first_of_next_month t) < unix t + seconds_until_end_of_month t * second)
      × (unix t + seconds_until_end_of_month t * second
          ≤ unix (first_of_next_month t) + 300 * second)
      × (seconds_until_end_of_month t ≤ 31 * 86400 + 300)
unfolding seconds_until_end_of_month
seconds_until_end_of_month_bounds t d =
    let (after, near) = first_of_next_month_bounds t d in (omega arith, omega arith, omega arith)
