-- ===== src/RateLimit/Limiter.antt =====
-- The methods of RateLimiter. `uid` is the value of uuid.New(), and an `Outcome` says what became of
-- the call of Redis.
use email_service_with_aws_s.Base.{
  ℕ, ◌+◌, ◌*◌, String, Bool, true, false, not, ◌&&◌, List, ℤ, pos, pos_part, ◌-ℤ◌, ◌+ℤ◌, leb_ℤ,
  length, select, if◌then◌else◌, Result, Outcome, attempt, query, wrapped, map_ok,
}
use email_service_with_aws_s.Redis.Counters.{Counters, Entry, to_count}
use email_service_with_aws_s.RateLimit.Calendar.{
  Time, unix, unix_milli, next_hour, first_of_next_month, seconds_until_end_of_month,
}
use email_service_with_aws_s.RateLimit.Keys.{hourly_key, monthly_key}
use email_service_with_aws_s.RateLimit.Scripts.{hourly_script, monthly_script, check_all_script}

-- `reset_at` is in nanoseconds since the epoch.
pub record LimitResult : Type 0 where
  pub allowed : Bool
  pub remaining : ℤ
  pub reset_at : ℕ

pub record Usage : Type 0 where
  pub hourly_used : ℕ
  pub hourly_limit : ℤ
  pub hourly_reset_at : ℕ
  pub monthly_used : ℕ
  pub monthly_limit : ℤ
  pub monthly_reset_at : ℕ

-- int64(time.Hour / time.Millisecond)
abbrev pub window_ms : ℕ
window_ms = 3600000

is_one : ℤ → Bool
is_one n = leb_ℤ (pos 1) n && leb_ℤ n (pos 1)

is_zero : ℤ → Bool
is_zero n = leb_ℤ (pos 0) n && leb_ℤ n (pos 0)

-- time.UnixMilli(oldestMs + windowMs) if there is an oldest entry, else the next full hour
reset_after : Time → ℤ → ℕ
reset_after now oldest_ms =
    if leb_ℤ (pos 1) oldest_ms then (pos_part oldest_ms + window_ms) * 1000000 else next_hour now

hourly_result : Time → ℤ × ℤ × ℤ → LimitResult
unfolding is_one reset_after
hourly_result now (code, remaining, oldest_ms) =
    let allowed = is_one code in
    record {
      allowed = allowed;
      remaining = remaining;
      reset_at = if not allowed then reset_after now oldest_ms else next_hour now;
    }

monthly_result : Time → ℤ × ℤ → LimitResult
unfolding is_one
monthly_result now (code, remaining) = record {
  allowed = is_one code;
  remaining = remaining;
  reset_at = unix (first_of_next_month now);
}

-- the `switch code` of CheckAll
unfoldable pub all_result : Time → ℤ × ℤ × ℤ × ℤ → LimitResult
unfolding is_one is_zero reset_after
all_result now (code, hour_remaining, month_remaining, oldest_ms) =
    if is_one code
    then record { allowed = true; remaining = hour_remaining; reset_at = next_hour now }
    else if is_zero code
    then record { allowed = false; remaining = pos 0; reset_at = reset_after now oldest_ms }
    else record { allowed = false; remaining = pos 0; reset_at = unix (first_of_next_month now) }

-- ZCOUNT key (cutoff + 1) +inf
unfoldable pub zcount_from : ℤ → List Entry → ℕ
zcount_from low l = length (select (λ e. leb_ℤ low (pos e.0)) l)

module _ (redis : Counters) where
  open redis use {State, members, counter}

  unfoldable pub check_hourly_limit :
      Outcome → Time → String → String → ℤ → State → Result LimitResult × State
  unfolding hourly_result
  check_hourly_limit net now uid client_id limit s =
      let (vals, s') =
        attempt net
          (hourly_script redis (hourly_key client_id) window_ms limit (unix_milli now) uid) s in
      (wrapped "CheckHourlyLimit" (map_ok (hourly_result now) vals), s')

  unfoldable pub check_monthly_limit :
      Outcome → Time → String → ℤ → State → Result LimitResult × State
  unfolding monthly_result
  check_monthly_limit net now client_id limit s =
      let (vals, s') =
        attempt net
          (monthly_script redis (monthly_key client_id now) limit (seconds_until_end_of_month now))
          s in
      (wrapped "CheckMonthlyLimit" (map_ok (monthly_result now) vals), s')

  unfoldable pub check_all :
      Outcome → Time → String → String → ℤ → ℤ → State → Result LimitResult × State
  unfolding all_result
  check_all net now uid client_id hourly_limit monthly_limit s =
      let (vals, s') =
        attempt net
          (check_all_script redis (hourly_key client_id) (monthly_key client_id now) window_ms
            hourly_limit monthly_limit (unix_milli now) uid (seconds_until_end_of_month now))
          s in
      (wrapped "CheckAll" (map_ok (all_result now) vals), s')

  unfoldable pub get_current_usage : Outcome → Time → String → ℤ → ℤ → State → Result Usage
  unfolding zcount_from ◌-ℤ◌ ◌+ℤ◌
  get_current_usage net now client_id hourly_limit monthly_limit s = wrapped "GetCurrentUsage" (
      query net (record {
        hourly_used =
            zcount_from (pos (unix_milli now) -ℤ pos window_ms +ℤ pos 1)
              (members s (hourly_key client_id));
        hourly_limit = hourly_limit;
        hourly_reset_at = next_hour now;
        monthly_used = to_count (counter s (monthly_key client_id now));
        monthly_limit = monthly_limit;
        monthly_reset_at = unix (first_of_next_month now);
      }))

  -- limiter.go: CheckAndIncrement is CheckAll; CurrentUsage keeps the two counts.
  unfoldable pub check_and_increment :
      Outcome → Time → String → String → ℤ → ℤ → State → Result LimitResult × State
  check_and_increment net now uid client_id hourly_limit monthly_limit s =
      check_all net now uid client_id hourly_limit monthly_limit s

  unfoldable pub current_usage : Outcome → Time → String → State → Result (ℕ × ℕ)
  current_usage net now client_id s =
      map_ok (λ u. (u.hourly_used, u.monthly_used))
        (get_current_usage net now client_id (pos 0) (pos 0) s)
