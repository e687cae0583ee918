-- ===== src/Examples/Limits.antt =====
-- The rate limiter on a few requests.
use email_service_with_aws_s.Base.{
  suc, ◌+◌, ◌*◌, ◌≤◌, ◌<◌, ◌↔◌, ◌≡◌, refl, true, List, [], ◌∷◌, none, some, arith, pos, ◌<ℤ◌, ◌-ℤ◌,
  length, if◌then◌else◌, arrived, late, message,
}
use email_service_with_aws_s.Redis.Counters.{Counters, place, to_count}
use email_service_with_aws_s.RateLimit.Calendar.{
  Time, IsDate, days_in_month, next_hour, unix, unix_milli, first_of_next_month, second, whole_day,
  seconds_until_end_of_month,
}
use email_service_with_aws_s.RateLimit.Keys.{hourly_key, monthly_key}
use email_service_with_aws_s.RateLimit.Scripts.{check_all_script, incr_with_ttl}
use email_service_with_aws_s.RateLimit.Month.{first_of_next_month_bounds}
use email_service_with_aws_s.RateLimit.Limiter.{Usage, check_all, get_current_usage}
use email_service_with_aws_s.RateLimit.Laws.{
  is_allowed, hour_entries, month_count, usage-eq-counts, check_all_lem,
}
use email_service_with_aws_s.RateLimit.Counted.{Request, within_hour}
use email_service_with_aws_s.RateLimit.History.{allowed_times, window_bound}
use email_service_with_aws_s.Fakes.Redis.{memory_counters}

abbrev redis : Counters
redis = memory_counters

-- 29 February 2024, 23:59:59
abbrev leap_day : Time
leap_day = record { year = 2024; month = 2; day = 29; nanos = 86399 * second }

leap_day-IsDate : IsDate leap_day
unfolding days_in_month
leap_day-IsDate = record {
  from_1970 = omega arith;
  month_pos = omega arith;
  month_le = omega arith;
  day_pos = omega arith;
  day_le = omega arith;
  nanos_lt = omega arith;
}

-- One second later it is March.
march : first_of_next_month leap_day ≡ record { year = 2024; month = 3; day = 1; nanos = 0 }
unfolding first_of_next_month
march = refl

first_of_next_month_bounds_example :
    (unix leap_day < unix (first_of_next_month leap_day))
    × (unix (first_of_next_month leap_day) ≤ unix leap_day + 31 * whole_day)
first_of_next_month_bounds_example = first_of_next_month_bounds leap_day leap_day-IsDate

abbrev fresh_server : redis.State
fresh_server = record { sets = λ k. []; counts = λ k. none; deadlines = λ k. none; time = 0 }

abbrev requests : List Request
requests =
    record { net = arrived; at = leap_day; uid = "a"; server = 1709251199300 }
    ∷ record { net = late (message "timeout"); at = leap_day; uid = "b"; server = 1709251199500 }
    ∷ record { net = arrived; at = leap_day; uid = "c"; server = 1709251199600 }
    ∷ []

-- Two are counted, one of which was told; the third finds no room.
one_told :
    allowed_times redis "x" (pos 2) (pos 9) [] requests fresh_server ≡ unix_milli leap_day ∷ []
unfolding allowed_times check_all check_all_script hourly_key incr_with_ttl unix_milli ◌-ℤ◌
    monthly_key seconds_until_end_of_month
one_told = refl

window_bound_example :
    within_hour
      (unix_milli leap_day)
      (allowed_times redis "x" (pos 2) (pos 9) [] requests fresh_server)
    ≤ 2
unfolding unix_milli
window_bound_example =
    window_bound redis "x" (pos 2) (pos 9) 600 300 (omega arith) requests fresh_server
      (omega arith, (omega arith, (omega arith, tt)))
      ((omega arith, omega arith), ((omega arith, omega arith), ((omega arith, omega arith), tt)))
      (refl, (refl, (refl, tt)), (refl, (refl, tt), (refl, tt, tt))) (unix_milli leap_day)
      (omega arith)

check_all_lem_example :
    ((is_allowed (check_all redis arrived leap_day "a" "x" (pos 2) (pos 9) fresh_server).0 ≡ true)
      ↔ ((pos (length (hour_entries redis leap_day "x" (pos 2) (pos 9) fresh_server)) <ℤ pos 2)
          × (pos (month_count redis leap_day "x" (pos 2) (pos 9) fresh_server) <ℤ pos 9)))
    × (redis.members
          (check_all redis arrived leap_day "a" "x" (pos 2) (pos 9) fresh_server).1
          (hourly_key "x")
        ≡ (if is_allowed (check_all redis arrived leap_day "a" "x" (pos 2) (pos 9) fresh_server).0
            then place
                (unix_milli leap_day, "a")
                (hour_entries redis leap_day "x" (pos 2) (pos 9) fresh_server)
            else hour_entries redis leap_day "x" (pos 2) (pos 9) fresh_server))
    × (to_count (
          redis.counter
            (check_all redis arrived leap_day "a" "x" (pos 2) (pos 9) fresh_server).1
            (monthly_key "x" leap_day))
        ≡ (if is_allowed (check_all redis arrived leap_day "a" "x" (pos 2) (pos 9) fresh_server).0
            then suc (month_count redis leap_day "x" (pos 2) (pos 9) fresh_server)
            else month_count redis leap_day "x" (pos 2) (pos 9) fresh_server))
check_all_lem_example = check_all_lem redis leap_day "x" (pos 2) (pos 9) fresh_server "a" refl

abbrev full_hour : redis.State
full_hour = record {
  sets = λ k. (unix_milli leap_day, "a") ∷ [];
  counts = λ k. some 4;
  deadlines = λ k. none;
  time = 0;
}

abbrev used : Usage
used = record {
  hourly_used = 1;
  hourly_limit = pos 2;
  hourly_reset_at = 1709251200000000000;
  monthly_used = 4;
  monthly_limit = pos 9;
  monthly_reset_at = 1709251200000000000;
}

usage-eq-counts_example :
    (1 ≡ length (hour_entries redis leap_day "x" (pos 2) (pos 9) full_hour))
    × (4 ≡ month_count redis leap_day "x" (pos 2) (pos 9) full_hour)
unfolding get_current_usage unix_milli next_hour unix first_of_next_month
usage-eq-counts_example = usage-eq-counts redis leap_day "x" (pos 2) (pos 9) full_hour used refl
