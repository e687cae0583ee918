-- ===== src/Database/Pings.antt =====
-- How often NewDB tries, how long it waits, and what it answers.
use Prim.Native.String.{◌++◌}
use email_service_with_aws_s.Base.{
  wrap, ℕ, zero, suc, ◌+◌, ◌*◌, ◌≤◌, ◌<◌, ◌≡◌, refl, ap, String, Bool, true, false, List, [], ◌∷◌,
  inl, inr, arith, Error, Result, Result-cases, ok, err, is_ok, wrap,
}
use email_service_with_aws_s.Config.{DatabaseConfig, dsn, safe_dsn}
use email_service_with_aws_s.Database.Start.{ping_from, Startup, new_db}

-- The squares of `n` numbers from `k` on, in seconds.
unfoldable pub squares : ℕ → ℕ → List ℕ
squares k zero = []
squares k (suc n) = k * k * 1000000000 ∷ squares (k + 1) n

module _ (ping : ℕ → Result (Unit {0})) where
  -- The first ping that is answered is `n` after the attempt `k`; or none of `left` more is.
  pub data IsTried (k left : ℕ) : Result (Unit {0}) × List ℕ → Type 0 where
    up :
        (n : ℕ)
        → n ≤ left
        → is_ok (ping (k + n)) ≡ true
        → ((i : ℕ) → i < n → is_ok (ping (k + i)) ≡ false)
        → IsTried k left (ok tt, squares k n)
    down :
        (e : Error)
        → ((i : ℕ) → i ≤ left → is_ok (ping (k + i)) ≡ false)
        → IsTried k left (err e, squares k left)

  at_zero : (k : ℕ) (b : Bool) → is_ok (ping k) ≡ b → is_ok (ping (k + 0)) ≡ b
  at_zero k b h = let e : k + 0 ≡ k = omega arith in rw e h

  at_suc : (k i : ℕ) (b : Bool) → is_ok (ping (k + 1 + i)) ≡ b → is_ok (ping (k + suc i)) ≡ b
  at_suc k i b h = let e : k + suc i ≡ k + 1 + i = omega arith in rw e h

  -- No ping is answered before one that is among the next ones.
  before :
      (k n : ℕ)
      → is_ok (ping k) ≡ false
      → ((i : ℕ) → i < n → is_ok (ping (k + 1 + i)) ≡ false)
      → (i : ℕ) → i < suc n
      → is_ok (ping (k + i)) ≡ false
  before k n h f zero l = at_zero k false h
  before k n h f (suc i) l = at_suc k i false (f i (omega arith))

  later :
      (k left : ℕ) (o : Result (Unit {0}) × List ℕ)
      → is_ok (ping k) ≡ false
      → IsTried (k + 1) left o
      → IsTried k (suc left) (o.0, k * k * 1000000000 ∷ o.1)
  unfolding squares
  later k left _ h (up n l yes' no') =
      up (suc n) (omega arith) (at_suc k n true yes') (before k n h no')
  later k left _ h (down e no') =
      down e (λ i l. before k (suc left) h (λ j m. no' j (omega arith)) i (omega arith))

  ping_from-IsTried : (left k : ℕ) → IsTried k left (ping_from ping left k)
  unfolding ping_from squares
  ping_from-IsTried zero k = elim (Result-cases (ping k)) [
    | inl (u, m) ↦
        rw m (up 0 (omega arith) (at_zero k true (ap is_ok m)) (λ i l. absurd (omega arith)))
    | inr (e, m) ↦ rw m (down e (λ i l. let z : k + i ≡ k = omega arith in rw z (ap is_ok m)))
  ]
  ping_from-IsTried (suc left) k = elim (Result-cases (ping k)) [
    | inl (u, m) ↦
        rw (m, ping_from)
          (up 0 (omega arith) (at_zero k true (ap is_ok m)) (λ i l. absurd (omega arith)))
    | inr (e, m) ↦
        rw (m, ping_from)
          (later k left (ping_from ping left (k + 1)) (ap is_ok m) (ping_from-IsTried left (k + 1)))
  ]

  module _ {Db : Type 0} (open' : String → Result Db) (cfg : DatabaseConfig) (db : Db) where
    pub data IsStarted (s : Startup Db) : Type 0 where
      connected :
          (n : ℕ)
          → n < 5
          → is_ok (ping (1 + n)) ≡ true
          → ((i : ℕ) → i < n → is_ok (ping (1 + i)) ≡ false)
          → s ≡ record { db = ok db; waits = squares 1 n; closed = false }
          → IsStarted s
      gave_up :
          (e : Error)
          → ((i : ℕ) → i < 5 → is_ok (ping (1 + i)) ≡ false)
          → s ≡ record { db = err e; waits = squares 1 4; closed = true }
          → IsStarted s

    finished :
        (o : Result (Unit {0}) × List ℕ)
        → IsTried 1 4 o
        → (e : Error → Error)
        → IsStarted (elim o.0 [
          | ok done ↦ record { db = ok db; waits = o.1; closed = false }
          | err x ↦ record { db = err (e x); waits = o.1; closed = true }
        ])
    finished _ (up n l yes' no') e = connected n (omega arith) yes' no' refl
    finished _ (down x no') e = gave_up (e x) (λ i l. no' i (omega arith)) refl

    -- NewDB connects if and only if one of the first five pings is answered, at the first that is. It
    -- waits one second after the first failure, then four, nine and sixteen; when it gives up, the
    -- handle is closed.
    pub new_db-IsStarted : open' (dsn cfg) ≡ ok db → IsStarted (new_db open' ping cfg)
    unfolding new_db
    new_db-IsStarted m =
        rw (m, new_db)
          (finished (ping_from ping 4 1) (ping_from-IsTried 4 1)
            (wrap ("ping mysql after 5 attempts (" ++ (safe_dsn cfg ++ ")"))))
