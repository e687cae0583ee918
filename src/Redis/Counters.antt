-- ===== src/Redis/Counters.antt =====
-- Sorted sets and counters, for internal/ratelimit.
use Prim.Native.String.{compare}
use text.Mathlib.Text.{is_le}
use email_service_with_aws_s.Base.{
  ltb, ◌||◌, ◌+◌, ◌*◌, true, false, ℕ, suc, String, ◌≡◌, Bool, not, ◌&&◌, Option, none, some, List,
  [], ◌∷◌, ◌==◌, ℤ, pos, leb_ℤ, leb, select, if◌then◌else◌,
}

-- An entry of a sorted set: its score and its member.
abbrev pub Entry : Type 0
Entry = ℕ × String

abbrev pub in_range : ℤ → ℤ → Entry → Bool
in_range low high e = leb_ℤ low (pos e.0) && leb_ℤ (pos e.0) high

abbrev pub outside : ℤ → ℤ → Entry → Bool
outside low high e = not (in_range low high e)

-- The order of a sorted set: by score, and by member where the scores are equal.
abbrev pub precedes : Entry → Entry → Bool
precedes x e = ltb x.0 e.0 || (leb x.0 e.0 && is_le (compare x.1 e.1))

-- Insertion in that order.
abbrev pub place : Entry → List Entry → List Entry
place e [] = e ∷ []
place e (x ∷ xs) = let rest = place e xs in if precedes x e then x ∷ rest else e ∷ x ∷ xs

abbrev pub without_member : String → List Entry → List Entry
without_member m = select (λ e. not (e.1 == m))

abbrev pub to_count : Option ℕ → ℕ
to_count none = 0
to_count (some n) = n

abbrev pub is_stored : List Entry → Option ℕ → Bool
is_stored [] none = false
is_stored _ _ = true

-- Its deadline has come.
abbrev pub is_due : ℕ → Option ℕ → Bool
is_due t none = false
is_due t (some d) = leb d t

-- What is stored: `members` is what ZRANGE key 0 -1 WITHSCORES lists, `counter` what GET key reads,
-- `clock` the server's time in milliseconds, `deadline` the time that PEXPIRETIME answers. `at` moves
-- the clock and removes the keys whose deadline has come, also those of an EXPIRE of no seconds.
pub record Counters : Type 1 where
  pub State : Type 0
  pub members : State → String → List Entry
  pub counter : State → String → Option ℕ
  pub clock : State → ℕ
  pub deadline : State → String → Option ℕ
  pub at : ℕ → State → State
  pub zremrangebyscore : String → ℤ → ℤ → State → State
  pub zadd : String → ℕ → String → State → State
  pub incr : String → State → ℕ × State
  pub expire : String → ℕ → State → State
  pub members-zremrangebyscore :
      (k : String) (low high : ℤ) (s : State) (j : String)
      → members (zremrangebyscore k low high s) j
        ≡ (if k == j then select (outside low high) (members s j) else members s j)
  pub counter-zremrangebyscore :
      (k : String) (low high : ℤ) (s : State) (j : String)
      → counter (zremrangebyscore k low high s) j ≡ counter s j
  pub members-zadd :
      (k : String) (score : ℕ) (m : String) (s : State) (j : String)
      → members (zadd k score m s) j
        ≡ (if k == j then place (score, m) (without_member m (members s j)) else members s j)
  pub counter-zadd :
      (k : String) (score : ℕ) (m : String) (s : State) (j : String)
      → counter (zadd k score m s) j ≡ counter s j
  pub incr_value : (k : String) (s : State) → (incr k s).0 ≡ suc (to_count (counter s k))
  pub members-incr : (k : String) (s : State) (j : String) → members (incr k s).1 j ≡ members s j
  pub counter-incr :
      (k : String) (s : State) (j : String)
      → counter (incr k s).1 j
        ≡ (if k == j then some (suc (to_count (counter s j))) else counter s j)
  -- a key that EXPIRE marks stays as it is until the clock is moved to its deadline
  pub members-expire :
      (k : String) (ttl : ℕ) (s : State) (j : String) → members (expire k ttl s) j ≡ members s j
  pub counter-expire :
      (k : String) (ttl : ℕ) (s : State) (j : String) → counter (expire k ttl s) j ≡ counter s j
  pub clock-at : (t : ℕ) (s : State) → clock (at t s) ≡ t
  pub members-at :
      (t : ℕ) (s : State) (j : String)
      → members (at t s) j ≡ (if is_due t (deadline s j) then [] else members s j)
  pub counter-at :
      (t : ℕ) (s : State) (j : String)
      → counter (at t s) j ≡ (if is_due t (deadline s j) then none else counter s j)
  pub deadline-at :
      (t : ℕ) (s : State) (j : String)
      → deadline (at t s) j ≡ (if is_due t (deadline s j) then none else deadline s j)
  -- a set that becomes empty is removed, and its deadline with it
  pub clock-zremrangebyscore :
      (k : String) (low high : ℤ) (s : State) → clock (zremrangebyscore k low high s) ≡ clock s
  pub deadline-zremrangebyscore :
      (k : String) (low high : ℤ) (s : State) (j : String)
      → deadline (zremrangebyscore k low high s) j ≡ (
          if k == j && not (is_stored (members (zremrangebyscore k low high s) j) none)
          then none
          else deadline s j)
  pub clock-zadd :
      (k : String) (score : ℕ) (m : String) (s : State) → clock (zadd k score m s) ≡ clock s
  pub deadline-zadd :
      (k : String) (score : ℕ) (m : String) (s : State) (j : String)
      → deadline (zadd k score m s) j ≡ deadline s j
  pub clock-incr : (k : String) (s : State) → clock (incr k s).1 ≡ clock s
  pub deadline-incr : (k : String) (s : State) (j : String) → deadline (incr k s).1 j ≡ deadline s j
  pub clock-expire : (k : String) (ttl : ℕ) (s : State) → clock (expire k ttl s) ≡ clock s
  pub deadline-expire :
      (k : String) (ttl : ℕ) (s : State) (j : String)
      → deadline (expire k ttl s) j ≡ (
          if k == j && is_stored (members s j) (counter s j)
          then some (clock s + ttl * 1000)
          else deadline s j)
