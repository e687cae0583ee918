-- ===== src/Database/Start.antt =====
-- internal/repository/db.go.
use Prim.Native.String.{◌++◌}
use email_service_with_aws_s.Base.{
  ℕ, zero, suc, ◌+◌, ◌*◌, String, Bool, true, false, List, [], ◌∷◌, Result, ok, err, wrap,
}
use email_service_with_aws_s.Config.{DatabaseConfig, dsn, safe_dsn}

-- maxAttempts
abbrev pub max_attempts : ℕ
max_attempts = 5

-- `ping n` is what the n-th Ping answers. The loop from one attempt, with the number of those after it,
-- and the times that it sleeps, in nanoseconds.
unfoldable pub ping_from : (ℕ → Result (Unit {0})) → ℕ → ℕ → Result (Unit {0}) × List ℕ
ping_from ping zero attempt = (ping attempt, [])
ping_from ping (suc left) attempt =
    let (r, waits) = ping_from ping left (attempt + 1) in
    elim (ping attempt) [
      | ok done ↦ (ok done, [])
      | err e ↦ (r, attempt * attempt * 1000000000 ∷ waits)
    ]

-- What NewDB leaves: the handle, which is closed if no ping was answered.
pub record Startup (Db : Type 0) : Type 0 where
  pub db : Result Db
  pub waits : List ℕ
  pub closed : Bool

-- `open` is sqlx.Open, which sets up the pool and does not connect.
unfoldable pub new_db :
    {Db : Type 0} → (String → Result Db) → (ℕ → Result (Unit {0})) → DatabaseConfig → Startup Db
unfolding ping_from dsn safe_dsn
new_db open' ping cfg = elim (open' (dsn cfg)) [
  | err e ↦ record {
    db = err (wrap ("open mysql (" ++ (safe_dsn cfg ++ ")")) e);
    waits = [];
    closed = false;
  }
  | ok db ↦
      let (r, waits) = ping_from ping 4 1 in
      elim r [
        | ok done ↦ record { db = ok db; waits = waits; closed = false }
        | err e ↦ record {
          db = err (wrap ("ping mysql after 5 attempts (" ++ (safe_dsn cfg ++ ")")) e);
          waits = waits;
          closed = true;
        }
      ]
]
