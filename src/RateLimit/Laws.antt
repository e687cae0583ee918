-- ===== src/RateLimit/Laws.antt =====
-- CheckAll, GetCurrentUsage and their two counters.
use email_service_with_aws_s.Base.{
  ℕ, suc, String, ◌≡◌, refl, ◌↔◌, Bool, true, false, List, [], ◌∷◌, arith, ℤ, pos, ◌-ℤ◌, ◌+ℤ◌, ◌<ℤ◌,
  leb_ℤ, length, select, if◌then◌else◌, Bool-cases, inl, inr, ap, ◌∙◌, Result, ok, err, arrived,
}
use email_service_with_aws_s.Redis.Counters.{Counters, Entry, to_count, place}
use email_service_with_aws_s.RateLimit.Calendar.{Time, unix_milli, seconds_until_end_of_month}
use email_service_with_aws_s.RateLimit.Keys.{hourly_key, monthly_key}
use email_service_with_aws_s.RateLimit.Limiter.{
  LimitResult, Usage, zcount_from, window_ms, check_all, get_current_usage,
}
use email_service_with_aws_s.RateLimit.Window.{
  recent, Absent, without_member-of_Absent, Absent-select,
}
use email_service_with_aws_s.RateLimit.Decision.{
  outcome_of_hour_full, outcome_of_month_full, outcome_of_room, members-swept, counter-swept,
  members-granted, counter-granted,
}

-- The request may go ahead.
abbrev pub is_allowed : Result LimitResult → Bool
is_allowed (ok r) = r.allowed
is_allowed (err e) = false

zcount_from-eq-recent :
    (now : ℕ) (l : List Entry)
    → zcount_from (pos now -ℤ pos window_ms +ℤ pos 1) l ≡ length (select (recent now) l)
unfolding zcount_from ◌-ℤ◌ ◌+ℤ◌
zcount_from-eq-recent now [] = refl
zcount_from-eq-recent now (e ∷ l) = ground (arith, zcount_from-eq-recent now l)

module _ (redis : Counters) (now : Time) (id : String) (h m : ℤ) (s : redis.State) where
  open redis use {State, members, counter}

  -- Requests of the client in the last hour, and in the month of `now`.
  abbrev pub hour_entries : List Entry
  hour_entries = select (recent (unix_milli now)) (members s (hourly_key id))

  abbrev pub month_count : ℕ
  month_count = to_count (counter s (monthly_key id now))

  -- When the read arrives, GetCurrentUsage answers the counts that CheckAll compares with the limits:
  -- the requests of the last hour and of the month.
  pub usage-eq-counts :
      (u : Usage)
      → get_current_usage redis arrived now id h m s ≡ ok u
      → (u.hourly_used ≡ length hour_entries) × (u.monthly_used ≡ month_count)
  unfolding get_current_usage
  usage-eq-counts u e = (
    ground (arith, zcount_from-eq-recent (unix_milli now) (members s (hourly_key id))),
    ground arith,
  )

  module _ (uid : String) where
    abbrev pub checked : Result LimitResult × State
    checked = check_all redis arrived now uid id h m s

    module _ (fresh : Absent uid (members s (hourly_key id))) where
      -- A call of CheckAll that arrives with a new uuid allows its request exactly if both counts are
      -- below their limits. An allowed request is counted once in each; a denied one in neither.
      pub check_all_lem :
          ((is_allowed checked.0 ≡ true)
            ↔ ((pos (length hour_entries) <ℤ h) × (pos month_count <ℤ m)))
          × (members checked.1 (hourly_key id) ≡ (
              if is_allowed checked.0
              then place (unix_milli now, uid) hour_entries
              else hour_entries))
          × (to_count (counter checked.1 (monthly_key id now))
              ≡ (if is_allowed checked.0 then suc month_count else month_count))
      unfolding check_all
      check_all_lem =
          let k = hourly_key id in
          let j = monthly_key id now in
          let t = unix_milli now in
          let ttl = seconds_until_end_of_month now in
          elim (Bool-cases (leb_ℤ h (pos (length hour_entries)))) [
            | inl full ↦ rw (outcome_of_hour_full redis k j h m t uid ttl s full) (
              (λ e. cc, λ p. ground arith),
              members-swept redis k j h m t uid ttl s,
              ap to_count (counter-swept redis k j h m t uid ttl s j),
            )
            | inr room ↦ elim (Bool-cases (leb_ℤ m (pos month_count))) [
              | inl full ↦ rw (outcome_of_month_full redis k j h m t uid ttl s room full) (
                (λ e. cc, λ p. ground arith),
                members-swept redis k j h m t uid ttl s,
                ap to_count (counter-swept redis k j h m t uid ttl s j),
              )
              | inr left ↦ rw (outcome_of_room redis k j h m t uid ttl s room left) (
                (λ e. ground arith, λ p. refl),
                members-granted redis k j h m t uid ttl s
                    ∙ ap (place (t, uid)) (
                        without_member-of_Absent uid hour_entries
                          (Absent-select uid (recent t) (members s k) fresh)),
                ap to_count (counter-granted redis k j h m t uid ttl s),
              )
            ]
          ]
