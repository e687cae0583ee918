-- ===== src/RateLimit/Calendar.antt =====
-- time.Time in UTC as internal/ratelimit/ratelimit.go uses it: the calendar fields that
-- t.Year(), t.Month() and t.Day() read, and the time of the day in nanoseconds.
use email_service_with_aws_s.Base.{
  ℕ, zero, suc, ◌+◌, ◌-◌, ◌*◌, ◌/◌, ◌%◌, ◌≤◌, ◌<◌, Bool, not, ◌&&◌, ◌||◌, ◌≡◌, refl, nat_eq, ltb,
  if◌then◌else◌,
}

pub record Time : Type 0 where
  pub year : ℕ
  pub month : ℕ
  pub day : ℕ
  pub nanos : ℕ

abbrev pub second : ℕ
second = 1000000000

abbrev pub hour : ℕ
hour = 3600 * second

abbrev pub whole_day : ℕ
whole_day = 24 * hour

unfoldable pub is_leap : ℕ → Bool
is_leap y = nat_eq (y % 4) 0 && (not (nat_eq (y % 100) 0) || nat_eq (y % 400) 0)

unfoldable pub days_in_month : ℕ → ℕ → ℕ
unfolding is_leap
days_in_month y m =
    if nat_eq m 2
    then (if is_leap y then 29 else 28)
    else if nat_eq m 4 || nat_eq m 6 || nat_eq m 9 || nat_eq m 11
    then 30
    else 31

-- Days of the year before the first of month `m + 1`.
unfoldable pub days_of_months : ℕ → ℕ → ℕ
unfolding days_in_month
days_of_months y zero = 0
days_of_months y (suc m) = days_of_months y m + days_in_month y (suc m)

-- Days from the first of January 1970 to the first of January of year `y`, from 1970 on.
unfoldable pub days_before_year : ℕ → ℕ
days_before_year y = 365 * (y - 1970) + (y - 1) / 4 + (y - 1) / 400 - (y - 1) / 100 - 477

unfoldable pub days_since_epoch : Time → ℕ
unfolding days_before_year days_of_months
days_since_epoch t = days_before_year t.year + days_of_months t.year (t.month - 1) + (t.day - 1)

-- Nanoseconds since the epoch, by which times are compared and subtracted.
unfoldable pub unix : Time → ℕ
unfolding days_since_epoch
unix t = days_since_epoch t * whole_day + t.nanos

pub record IsDate (t : Time) : Type 0 where
  pub from_1970 : 1970 ≤ t.year
  pub month_pos : 1 ≤ t.month
  pub month_le : t.month ≤ 12
  pub day_pos : 1 ≤ t.day
  pub day_le : t.day ≤ days_in_month t.year t.month
  pub nanos_lt : t.nanos < whole_day

-- t.UnixMilli()
unfoldable pub unix_milli : Time → ℕ
unfolding unix
unix_milli t = unix t / 1000000

-- time.Date normalises month 13 to January of the next year.
unfoldable pub first_of_next_month : Time → Time
first_of_next_month t =
    if ltb t.month 12
    then record { year = t.year; month = t.month + 1; day = 1; nanos = 0 }
    else record { year = t.year + 1; month = 1; day = 1; nanos = 0 }

-- eom.Add(5 * time.Minute).Sub(t).Seconds(), truncated
unfoldable pub seconds_until_end_of_month : Time → ℕ
unfolding unix first_of_next_month
seconds_until_end_of_month t = (unix (first_of_next_month t) + 300 * second - unix t) / second

-- t.Truncate(time.Hour).Add(time.Hour): hours are counted from a midnight.
unfoldable pub next_hour : Time → ℕ
unfolding unix
next_hour t = unix t / hour * hour + hour

tests :
    (unix (record { year = 2024; month = 3; day = 1; nanos = 0 }) ≡ 1709251200 * second)
    × (unix (record { year = 2000; month = 12; day = 31; nanos = 5 }) ≡ 978220800 * second + 5)
    × (first_of_next_month (record { year = 2024; month = 12; day = 31; nanos = 9 })
        ≡ record { year = 2025; month = 1; day = 1; nanos = 0 })
unfolding unix first_of_next_month
tests = (refl, refl, refl)
