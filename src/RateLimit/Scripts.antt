-- ===== src/RateLimit/Scripts.antt =====
-- The Lua scripts of internal/ratelimit/ratelimit.go. A script runs in Redis as one step; its reply
-- is a tuple of integers, `vals` on the side of Go.
use email_service_with_aws_s.Base.{
  ℕ, ◌+◌, ◌/◌, String, List, [], ◌∷◌, ℤ, pos, negsuc, ◌-ℤ◌, leb_ℤ, nat_eq, length, if◌then◌else◌,
}
use email_service_with_aws_s.Redis.Counters.{Counters, Entry, to_count}

-- `oldest[2]`, or 0 for an empty set
abbrev pub oldest_score : List Entry → ℤ
oldest_score [] = pos 0
oldest_score (e ∷ _) = pos e.0

-- math.ceil(window / 1000) + 1
abbrev pub expiry_seconds : ℕ → ℕ
expiry_seconds window = (window + 999) / 1000 + 1

module _ (redis : Counters) where
  open redis use {State, members, counter, zremrangebyscore, zadd, incr, expire}

  -- INCR, and EXPIRE if this made the counter.
  unfoldable pub incr_with_ttl : String → ℕ → State → ℕ × State
  incr_with_ttl key ttl s =
      let (new, s') = incr key s in (new, if nat_eq new 1 then expire key ttl s' else s')

  unfoldable pub hourly_script : String → ℕ → ℤ → ℕ → String → State → (ℤ × ℤ × ℤ) × State
  hourly_script key window limit now uid s0 =
      let s = zremrangebyscore key (pos 0) (pos now -ℤ pos window) s0 in
      let count = pos (length (members s key)) in
      if leb_ℤ limit count then ((pos 0, pos 0, oldest_score (members s key)), s) else (
        (pos 1, limit -ℤ count -ℤ pos 1, pos 0),
        expire key (expiry_seconds window) (zadd key now uid s),
      )

  unfoldable pub monthly_script : String → ℤ → ℕ → State → (ℤ × ℤ) × State
  monthly_script key limit ttl s =
      if leb_ℤ limit (pos (to_count (counter s key)))
      then ((pos 0, pos 0), s)
      else let (new, s') = incr_with_ttl key ttl s in ((pos 1, limit -ℤ pos new), s')

  unfoldable pub check_all_script :
      String → String → ℕ → ℤ → ℤ → ℕ → String → ℕ → State → (ℤ × ℤ × ℤ × ℤ) × State
  check_all_script hkey mkey hwindow hlimit mlimit now uid mttl s0 =
      let s = zremrangebyscore hkey (pos 0) (pos now -ℤ pos hwindow) s0 in
      let hcount = pos (length (members s hkey)) in
      let mcount = pos (to_count (counter s mkey)) in
      if leb_ℤ hlimit hcount
      then ((pos 0, pos 0, mlimit, oldest_score (members s hkey)), s)
      else if leb_ℤ mlimit mcount
      then ((negsuc 0, hlimit -ℤ hcount, pos 0, pos 0), s)
      else let s' = expire hkey (expiry_seconds hwindow) (zadd hkey now uid s) in
        let (new_m, s'') = incr_with_ttl mkey mttl s' in
        ((pos 1, hlimit -ℤ hcount -ℤ pos 1, mlimit -ℤ pos new_m, pos 0), s'')
