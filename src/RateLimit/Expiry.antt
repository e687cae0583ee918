-- ===== src/RateLimit/Expiry.antt =====
-- The deadline of a client's sorted set: CheckAll sets it beyond the hour of every entry.
use email_service_with_aws_s.Base.{
  ℕ, ◌+◌, ◌*◌, ◌≤◌, String, Bool, Option, none, some, List, [], ◌∷◌, arith, ℤ, pos, leb_ℤ, length,
  Bool-cases, inl, inr, All, if◌then◌else◌, Outcome, arrived, lost, late,
}
use email_service_with_aws_s.Redis.Counters.{Counters}
use email_service_with_aws_s.RateLimit.Calendar.{Time, unix_milli, seconds_until_end_of_month}
use email_service_with_aws_s.RateLimit.Keys.{hourly_key, monthly_key, monthly_ne_hourly}
use email_service_with_aws_s.RateLimit.Limiter.{window_ms, check_all}
use email_service_with_aws_s.RateLimit.Decision.{
  outcome_of_hour_full, outcome_of_month_full, outcome_of_room, deadline-swept, deadline-granted,
}
use email_service_with_aws_s.RateLimit.Laws.{is_allowed, hour_entries, month_count}

-- The hour of each of these times is over, by a caller's clock that is `behind` the server's, before
-- the deadline.
abbrev pub Lasts : ℕ → List ℕ → Option ℕ → Type 0
Lasts behind times none = Unit {0}
Lasts behind times (some d) = All (λ a. a + window_ms + behind ≤ d) times

pub Lasts-nil : (behind : ℕ) (d : Option ℕ) → Lasts behind [] d
Lasts-nil behind none = tt
Lasts-nil behind (some d) = tt

-- A deadline 3601 seconds ahead is late enough for all requests until now.
Lasts_ahead :
    (behind ahead now clock : ℕ) (times : List ℕ)
    → behind + ahead ≤ 1000
    → now ≤ clock + ahead
    → All (λ a. a ≤ now) times
    → All (λ a. a + window_ms + behind ≤ clock + 3601 * 1000) times
Lasts_ahead behind ahead now clock [] h c a = tt
Lasts_ahead behind ahead now clock (x ∷ l) h c (b, a) =
    (omega (arith, h, c, b), Lasts_ahead behind ahead now clock l h c a)

module _ (redis : Counters) (behind ahead : ℕ) (slack : behind + ahead ≤ 1000) (id : String)
    (h m : ℤ) (at : Time) (uid : String) (times : List ℕ) (s : redis.State) where
  open redis use {deadline, clock}

  abbrev told : Bool → List ℕ
  told answer = if answer then unix_milli at ∷ times else times

  module _ (close : unix_milli at ≤ clock s + ahead) (past : All (λ a. a ≤ unix_milli at) times)
      (lasts : Lasts behind times (deadline s (hourly_key id))) where
    abbrev checked : Bool × redis.State
    checked = let out = check_all redis arrived at uid id h m s in (is_allowed out.0, out.1)

    -- A call that arrives.
    arrived-Lasts :
        Lasts behind (told checked.0) (deadline checked.1 (hourly_key id))
        × Lasts behind times (deadline checked.1 (hourly_key id))
    unfolding check_all
    arrived-Lasts =
        let k = hourly_key id in
        let j = monthly_key id at in
        let t = unix_milli at in
        let ttl = seconds_until_end_of_month at in
        elim (Bool-cases (leb_ℤ h (pos (length (hour_entries redis at id h m s))))) [
          | inl full ↦
              rw (outcome_of_hour_full redis k j h m t uid ttl s full)
                (elim (deadline-swept redis k j h m t uid ttl s) [
                  | inl e ↦ rw e (tt, tt)
                  | inr e ↦ rw e (lasts, lasts)
                ])
          | inr room ↦ elim (Bool-cases (leb_ℤ m (pos (month_count redis at id h m s)))) [
            | inl full ↦
                rw (outcome_of_month_full redis k j h m t uid ttl s room full)
                  (elim (deadline-swept redis k j h m t uid ttl s) [
                    | inl e ↦ rw e (tt, tt)
                    | inr e ↦ rw e (lasts, lasts)
                  ])
            | inr left ↦ rw (outcome_of_room redis k j h m t uid ttl s room left) (
                rw (deadline-granted redis k j h m t uid ttl s (monthly_ne_hourly id at)) (
                  let past' = Lasts_ahead behind ahead t (clock s) times slack close past in
                  ((omega (arith, slack, close), past'), past')))
          ]
        ]

    -- Whatever becomes of a call, the set lasts long enough for the requests that were allowed.
    pub check_all-Lasts :
        (net : Outcome)
        → Lasts behind
            (told (is_allowed (check_all redis net at uid id h m s).0))
            (deadline (check_all redis net at uid id h m s).1 (hourly_key id))
    unfolding check_all
    check_all-Lasts arrived = arrived-Lasts.0
    check_all-Lasts (late e) = arrived-Lasts.1
    check_all-Lasts (lost e) = lasts
