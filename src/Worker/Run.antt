-- ===== src/Worker/Run.antt =====
-- cmd/worker/main.go: run, the loop of one worker.
use email_service_with_aws_s.Base.{ℕ, zero, suc, ◌+◌, Option, none, some}
use email_service_with_aws_s.Worker.{Services, Conditions, World, work}

module _ (services : Services) where
  -- The turns until the context is done, from turn `i` on; none is a panic.
  unfoldable pub run : (ℕ → Conditions) → ℕ → ℕ → World services → Option (World services)
  run nets zero i w = some w
  run nets (suc turns) i w = elim (work services (nets i) w) [
    | none ↦ none
    | some w' ↦ run nets turns (i + 1) w'
  ]
