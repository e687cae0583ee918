-- ===== src/RateLimit/Decision.antt =====
-- What CheckAll decides, and what it leaves in Redis.
use email_service_with_aws_s.Base.{
  Option, [], ◌∷◌, none, not, ◌&&◌, ◌⊎◌, inl, inr, Bool-cases, refl, ◌∙◌, ◌+◌, ◌*◌, ℕ, suc, String,
  ◌≡◌, true, false, some, List, arith, ◌==◌, eq_refl, ℤ, pos, negsuc, ◌-ℤ◌, leb_ℤ, length, select,
  if◌then◌else◌,
}
use email_service_with_aws_s.Redis.Counters.{
  Counters, Entry, is_stored, precedes, to_count, place, without_member,
}
use email_service_with_aws_s.RateLimit.Scripts.{
  incr_with_ttl, expiry_seconds, check_all_script, oldest_score,
}
use email_service_with_aws_s.RateLimit.Limiter.{window_ms}
use email_service_with_aws_s.RateLimit.Window.{recent, select-outside}

module _ (redis : Counters) where
  open redis use {State, members, counter}

  counter-incr_with_ttl :
      (k : String) (ttl : ℕ) (s : State) (j : String)
      → counter (incr_with_ttl redis k ttl s).1 j
        ≡ (if k == j then some (suc (to_count (counter s j))) else counter s j)
  unfolding incr_with_ttl
  counter-incr_with_ttl k ttl s j =
      ground (arith, redis.counter-incr k s j, redis.counter-expire k ttl (redis.incr k s).1 j)

  members-incr_with_ttl :
      (k : String) (ttl : ℕ) (s : State) (j : String)
      → members (incr_with_ttl redis k ttl s).1 j ≡ members s j
  unfolding incr_with_ttl
  members-incr_with_ttl k ttl s j =
      ground (arith, redis.members-incr k s j, redis.members-expire k ttl (redis.incr k s).1 j)

  module _ (hkey mkey : String) (h m : ℤ) (now : ℕ) (uid : String) (ttl : ℕ) (s : State) where
    -- The entries of the last hour, and the count of the month, before the script runs.
    abbrev pub live : List Entry
    live = select (recent now) (members s hkey)

    abbrev pub month_count : ℕ
    month_count = to_count (counter s mkey)

    abbrev pub swept : State
    swept = redis.zremrangebyscore hkey (pos 0) (pos now -ℤ pos window_ms) s

    pub members-swept : members swept hkey ≡ live
    members-swept =
        simp (redis.members-zremrangebyscore, eq_refl) (select-outside now (members s hkey))

    pub counter-swept : (j : String) → counter swept j ≡ counter s j
    counter-swept j = redis.counter-zremrangebyscore hkey (pos 0) (pos now -ℤ pos window_ms) s j

    abbrev pub granted_state : State
    granted_state =
        (incr_with_ttl redis mkey ttl
          (redis.expire hkey (expiry_seconds window_ms) (redis.zadd hkey now uid swept))).1

    abbrev outcome : (ℤ × ℤ × ℤ × ℤ) × State
    outcome = check_all_script redis hkey mkey window_ms h m now uid ttl s

    pub outcome_of_hour_full :
        leb_ℤ h (pos (length live)) ≡ true → outcome ≡ ((pos 0, pos 0, m, oldest_score live), swept)
    unfolding check_all_script
    outcome_of_hour_full full = rw members-swept (rw full)

    pub outcome_of_month_full :
        leb_ℤ h (pos (length live)) ≡ false
        → leb_ℤ m (pos month_count) ≡ true
        → outcome ≡ ((negsuc 0, h -ℤ pos (length live), pos 0, pos 0), swept)
    unfolding check_all_script
    outcome_of_month_full room full = rw (members-swept, counter-swept mkey) (rw room (rw full))

    incr_value :
        (incr_with_ttl redis mkey ttl
          (redis.expire hkey (expiry_seconds window_ms) (redis.zadd hkey now uid swept))).0
        ≡ suc month_count
    unfolding incr_with_ttl
    incr_value =
        simp (
          redis.incr_value, redis.counter-expire, redis.counter-zadd,
          redis.counter-zremrangebyscore,
        )

    pub outcome_of_room :
        leb_ℤ h (pos (length live)) ≡ false
        → leb_ℤ m (pos month_count) ≡ false
        → outcome ≡ (
          (pos 1, h -ℤ pos (length live) -ℤ pos 1, m -ℤ pos (suc month_count), pos 0),
          granted_state,
        )
    unfolding check_all_script
    outcome_of_room room left =
        rw (members-swept, counter-swept mkey) (rw room (rw left (rw incr_value)))

    pub counter-granted : counter granted_state mkey ≡ some (suc month_count)
    counter-granted = simp (
      counter-incr_with_ttl, eq_refl, redis.counter-expire, redis.counter-zadd,
      redis.counter-zremrangebyscore,
    )

    pub members-granted : members granted_state hkey ≡ place (now, uid) (without_member uid live)
    members-granted =
        simp
          (members-incr_with_ttl, redis.members-expire, redis.members-zadd, eq_refl, members-swept)

    pub clock-swept : redis.clock swept ≡ redis.clock s
    clock-swept = redis.clock-zremrangebyscore hkey (pos 0) (pos now -ℤ pos window_ms) s

    -- A sweep leaves the deadline of the set, or removes the set.
    pub deadline-swept :
        (redis.deadline swept hkey ≡ none) ⊎ (redis.deadline swept hkey ≡ redis.deadline s hkey)
    deadline-swept =
        let e = redis.deadline-zremrangebyscore hkey (pos 0) (pos now -ℤ pos window_ms) s hkey in
        elim (Bool-cases (hkey == hkey && not (is_stored (members swept hkey) none))) [
          | inl emptied ↦ inl (e ∙ rw emptied refl)
          | inr kept ↦ inr (e ∙ rw kept refl)
        ]

    deadline-incr_with_ttl :
        (v : State)
        → (mkey == hkey) ≡ false
        → redis.deadline (incr_with_ttl redis mkey ttl v).1 hkey ≡ redis.deadline v hkey
    unfolding incr_with_ttl
    deadline-incr_with_ttl v apart = ground (
      arith,
      apart,
      redis.deadline-incr mkey v hkey,
      redis.deadline-expire mkey ttl (redis.incr mkey v).1 hkey,
    )

    is_stored-place : (e : Entry) (l : List Entry) (c : Option ℕ) → is_stored (place e l) c ≡ true
    is_stored-place e [] c = refl
    is_stored-place e (x ∷ l) c = elim (Bool-cases (precedes x e)) [
      | inl below ↦ rw below refl
      | inr above ↦ rw above refl
    ]

    -- A granted request sets the deadline of the set.
    pub deadline-granted :
        (mkey == hkey) ≡ false
        → redis.deadline granted_state hkey ≡ some (redis.clock s + expiry_seconds window_ms * 1000)
    deadline-granted apart =
        let added = redis.zadd hkey now uid swept in
        let there : is_stored (members added hkey) (counter added hkey) ≡ true =
          simp (redis.members-zadd, eq_refl)
            (is_stored-place (now, uid) (without_member uid (members swept hkey))
              (counter added hkey)) in
        let clocks : redis.clock added ≡ redis.clock s =
          redis.clock-zadd hkey now uid swept ∙ clock-swept in
        deadline-incr_with_ttl (redis.expire hkey (expiry_seconds window_ms) added) apart
        ∙ redis.deadline-expire hkey (expiry_seconds window_ms) added hkey
        ∙ rw (eq_refl hkey, there, clocks) refl
