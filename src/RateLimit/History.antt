-- ===== src/RateLimit/History.antt =====
-- A client's requests over time, and the promise of the sliding window: at no time have more requests
-- been allowed within the last hour than the hourly limit.
use email_service_with_aws_s.Base.{
  some, Option-cases, Bool-cases, inl, inr, leb, ℕ, ◌+◌, ◌≤◌, String, ◌≡◌, refl, List, [], ◌∷◌,
  arith, ℤ, pos_part, All, if◌then◌else◌,
}
use email_service_with_aws_s.Redis.Counters.{Counters, Entry}
use email_service_with_aws_s.RateLimit.Calendar.{unix_milli}
use email_service_with_aws_s.RateLimit.Keys.{hourly_key}
use email_service_with_aws_s.RateLimit.Limiter.{window_ms, check_all}
use email_service_with_aws_s.RateLimit.Expiry.{Lasts, Lasts-nil, check_all-Lasts}
use email_service_with_aws_s.RateLimit.Laws.{is_allowed}
use email_service_with_aws_s.RateLimit.Counted.{
  Request, HasFreshIds, within_hour, Kept, check_all-Kept,
}

-- Times never fall, from `last` on.
abbrev pub InOrder : ℕ → List Request → Type 0
InOrder last [] = Unit {0}
InOrder last (r ∷ rs) = (last ≤ unix_milli r.at) × InOrder (unix_milli r.at) rs

-- The clock of Redis is at most `behind` milliseconds ahead of the caller's time when the script runs,
-- the way of the call included, and at most `ahead` milliseconds behind it.
abbrev pub AreClose : ℕ → ℕ → List Request → Type 0
AreClose behind ahead =
    All (λ r. (r.server ≤ unix_milli r.at + behind) × (unix_milli r.at ≤ r.server + ahead))

-- The time of the last request.
abbrev pub last_time : ℕ → List Request → ℕ
last_time last [] = last
last_time last (r ∷ rs) = last_time (unix_milli r.at) rs

module _ (redis : Counters) (id : String) (h m : ℤ) where
  open redis use {State, members}

  -- The times, in milliseconds, of the requests that were allowed, the newest first.
  unfoldable pub allowed_times : List ℕ → List Request → State → List ℕ
  allowed_times times [] s = times
  allowed_times times (r ∷ rs) s =
      let (answer, s') = check_all redis r.net r.at r.uid id h m (redis.at r.server s) in
      allowed_times (if is_allowed answer then unix_milli r.at ∷ times else times) rs s'

  module _ (behind ahead : ℕ) (slack : behind + ahead ≤ 1000) where
    -- What holds of Redis between two calls.
    record Invariant (last : ℕ) (times : List ℕ) (rs : List Request) (s : State) : Type 0 where
      kept : Kept redis id h m last times rs (members s (hourly_key id))
      past : All (λ a. a ≤ last) times
      lasts : Lasts behind times (redis.deadline s (hourly_key id))

    later-past :
        (last now : ℕ) (times : List ℕ)
        → last ≤ now
        → All (λ a. a ≤ last) times
        → All (λ a. a ≤ now) times
    later-past last now [] h a = tt
    later-past last now (x ∷ l) h (b, a) = (omega arith, later-past last now l h a)

    -- When the set has expired, the hour of every allowed request is over.
    expired :
        (d now t : ℕ) (times : List ℕ)
        → d ≤ now + behind
        → now ≤ t
        → All (λ a. a + window_ms + behind ≤ d) times
        → within_hour t times ≡ 0
    expired d now t [] h g a = refl
    expired d now t (x ∷ l) h g (b, a) = ground (arith, b, h, g, expired d now t l h g a)

    HasFreshIds-nil : (l : List Entry) (rs : List Request) → HasFreshIds l rs → HasFreshIds [] rs
    HasFreshIds-nil l [] f = tt
    HasFreshIds-nil l (r ∷ rs) (a, d, f) = (refl, d, HasFreshIds-nil l rs f)

    -- The clock of Redis moves on.
    waited :
        (last now server : ℕ) (times : List ℕ) (rs : List Request) (s : State)
        → last ≤ now
        → server ≤ now + behind
        → Invariant last times rs s
        → Invariant now times rs (redis.at server s)
    waited last now server times rs s le near v =
        let k = hourly_key id in
        let stays : Kept redis id h m now times rs (members s k) =
          ((λ t g. v.kept.0 t (omega arith)), v.kept.1) in
        let past = later-past last now times le v.past in
        elim (Option-cases (redis.deadline s k)) [
          | inl never ↦ record {
            kept = rw (redis.members-at server s k, never) stays;
            past = past;
            lasts = rw (redis.deadline-at server s k, never) tt;
          }
          | inr (d, at_d) ↦
              let lasts : Lasts behind times (some d) = rw at_d at v.lasts in
              elim (Bool-cases (leb d server)) [
                | inr stored ↦ record {
                  kept = rw (redis.members-at server s k, at_d, stored) stays;
                  past = past;
                  lasts = rw (redis.deadline-at server s k, at_d, stored) lasts;
                }
                | inl due ↦ record {
                  kept =
                      rw (redis.members-at server s k, at_d, due)
                        (
                          (λ t g.
                              let none_left =
                                expired d now t times (ground (arith, due, near)) g lasts in
                              (omega (arith, none_left), omega (arith, none_left))),
                          HasFreshIds-nil (members s k) rs v.kept.1,
                        );
                  past = past;
                  lasts = rw (redis.deadline-at server s k, at_d, due) tt;
                }
              ]
        ]

    called :
        (r : Request) (rs : List Request) (times : List ℕ) (s : State)
        → unix_milli r.at ≤ redis.clock s + ahead
        → Invariant (unix_milli r.at) times (r ∷ rs) s
        → Invariant
            (unix_milli r.at)
            (if is_allowed (check_all redis r.net r.at r.uid id h m s).0
              then unix_milli r.at ∷ times
              else times)
            rs
            (check_all redis r.net r.at r.uid id h m s).1
    called r rs times s close v =
        let (c, (absent, distinct, f)) = v.kept in
        record {
          kept =
              check_all-Kept redis id h m r.net r.at r.uid (unix_milli r.at) times rs s
                (omega arith) absent distinct (c, f);
          past = elim (Bool-cases (is_allowed (check_all redis r.net r.at r.uid id h m s).0)) [
            | inl granted ↦ rw granted (omega arith, v.past)
            | inr denied ↦ rw denied v.past
          ];
          lasts =
              check_all-Lasts redis behind ahead slack id h m r.at r.uid times s close v.past
                v.lasts r.net;
        }

    allowed_times-IsCounted :
        (rs : List Request) (last : ℕ) (times : List ℕ) (s : State)
        → InOrder last rs
        → AreClose behind ahead rs
        → Invariant last times rs s
        → (t : ℕ) → last_time last rs ≤ t
        → within_hour t (allowed_times times rs s) ≤ pos_part h
    unfolding allowed_times
    allowed_times-IsCounted [] last times s order close v t le = (v.kept.0 t le).1
    allowed_times-IsCounted (r ∷ rs) last times s (le, order) ((near, far), close) v t after =
        let now = unix_milli r.at in
        let ticked : now ≤ redis.clock (redis.at r.server s) + ahead =
          rw (redis.clock-at r.server s) far in
        allowed_times-IsCounted rs now _ _ order close
          (called r rs times (redis.at r.server s) ticked
            (waited last now r.server times (r ∷ rs) s le near v))
          t after

    -- Whatever Redis held before, whichever calls fail, whenever, and whenever the keys expire: at no
    -- time from the last request on have more requests been allowed within the hour than the hourly
    -- limit. The times of the callers do not fall, the uuids are new, and the clock of Redis and the
    -- times of the callers are apart by so little, each way, that together it is a second at most.
    pub window_bound :
        (rs : List Request) (s : State)
        → InOrder 0 rs
        → AreClose behind ahead rs
        → HasFreshIds (members s (hourly_key id)) rs
        → (t : ℕ) → last_time 0 rs ≤ t
        → within_hour t (allowed_times [] rs s) ≤ pos_part h
    window_bound rs s order close fresh t after =
        allowed_times-IsCounted rs 0 [] s order close
          (record {
            kept = ((λ t' _. (omega arith, omega arith)), fresh);
            past = tt;
            lasts = Lasts-nil behind (redis.deadline s (hourly_key id));
          })
          t after
