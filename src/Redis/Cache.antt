-- ===== src/Redis/Cache.antt =====
-- Keys with a time to live, for internal/auth.
use email_service_with_aws_s.Base.{
  ℕ, ◌+◌, ◌<◌, String, ◌≡◌, Bool, false, Option, some, List, ◌==◌, any, ◌⊎◌,
}

abbrev pub among : List String → String → Bool
among keys j = any (λ k. k == j) keys

-- `get at k` is GET k at the time `at`, in nanoseconds since the epoch. What is read was written by
-- the last SET of the key, less than its time to live ago; the server may lose an entry sooner.
pub record Cache (Text : Type 0) : Type 1 where
  pub State : Type 0
  pub get : ℕ → String → State → Option Text
  -- SET key value with a time to live, at a time
  pub set : ℕ → String → ℕ → Text → State → State
  -- DEL of some keys
  pub del : List String → State → State
  pub get-set :
      (at : ℕ) (k : String) (ttl : ℕ) (v : Text) (s : State) (t : ℕ) (j : String) (w : Text)
      → get t j (set at k ttl v s) ≡ some w
      → ((k ≡ j) × (v ≡ w) × (t < at + ttl)) ⊎ (((k == j) ≡ false) × (get t j s ≡ some w))
  pub get-del :
      (keys : List String) (s : State) (t : ℕ) (j : String) (w : Text)
      → get t j (del keys s) ≡ some w
      → (among keys j ≡ false) × (get t j s ≡ some w)
