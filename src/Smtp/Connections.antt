-- ===== src/Smtp/Connections.antt =====
-- NewSession and Logout of cmd/smtp/main.go as steps of concurrent connections. AddInt64 is atomic and
-- returns the new count, so the comparison belongs to that step; the count is taken back in another.
use email_service_with_aws_s.Base.{ℕ, suc, ◌+◌, ◌≤◌, ◌≡◌, ltb, true, false}

-- connCount, with the sessions that are open and the refused connections whose count is not yet
-- taken back.
pub record Server : Type 0 where
  pub count : ℕ
  pub sessions : ℕ
  pub refusing : ℕ

abbrev pub idle : Server
idle = record { count = 0; sessions = 0; refusing = 0 }

-- One step, with maxConns a positive number.
pub data Step (max_conns : ℕ) : Server → Server → Type 0 where
  admit :
      (s : Server)
      → ltb max_conns (s.count + 1) ≡ false
      → Step max_conns s (record s { count = s.count + 1; sessions = s.sessions + 1 })
  refuse :
      (s : Server)
      → ltb max_conns (s.count + 1) ≡ true
      → Step max_conns s (record s { count = s.count + 1; refusing = s.refusing + 1 })
  take_back :
      (c n r : ℕ)
      → Step max_conns
          (record { count = suc c; sessions = n; refusing = suc r })
          (record { count = c; sessions = n; refusing = r })
  log_out :
      (c n r : ℕ)
      → Step max_conns
          (record { count = suc c; sessions = suc n; refusing = r })
          (record { count = c; sessions = n; refusing = r })

pub data Reaches (max_conns : ℕ) : Server → Type 0 where
  begin : Reaches max_conns idle
  step : {s s' : Server} → Reaches max_conns s → Step max_conns s s' → Reaches max_conns s'

pub record IsCounted (max_conns : ℕ) (s : Server) : Type 0 where
  pub exact : s.count ≡ s.sessions + s.refusing
  pub bounded : s.sessions ≤ max_conns
