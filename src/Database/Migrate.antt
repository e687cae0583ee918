-- ===== src/Database/Migrate.antt =====
-- pkg/database/migrate.go: Migrator over github.com/golang-migrate/migrate/v4.
use Prim.Native.String.{◌++◌}
use email_service_with_aws_s.Base.{
  ℕ, String, Bool, false, Option, none, some, ℤ, pos, ◌⊎◌, inl, inr, if◌then◌else◌, Error, message,
  wrap, Result, ok, err,
}
use email_service_with_aws_s.Delivery.Errors.{error_text}

-- The errors of the library: ErrNoChange, ErrNilVersion and others.
pub data Failure : Type 0 where
  no_change nil_version : Failure
  failed : Error → Failure

-- *migrate.Migrate. A step answers none for nil.
pub record Migrate : Type 1 where
  pub State : Type 0
  pub up : State → Option Failure × State
  pub down : State → Option Failure × State
  pub steps : ℤ → State → Option Failure × State
  pub version : State → (ℕ × Bool) ⊎ Failure
  -- the errors of the source and of the database
  pub close : State → (Option Error × Option Error) × State

abbrev pub error_of : Failure → Error
error_of no_change = message "no change"
error_of nil_version = message "no migration"
error_of (failed e) = e

-- err != nil && !errors.Is(err, migrate.ErrNoChange)
unfoldable pub unless_no_change : String → Option Failure → Option Error
unless_no_change context none = none
unless_no_change context (some no_change) = none
unless_no_change context (some f) = some (wrap context (error_of f))

module _ (library : Migrate) (shown : ℤ → String) where
  open library use {State}

  unfoldable pub migrate_up : State → Option Error × State
  unfolding unless_no_change
  migrate_up s = (unless_no_change "Migrator.Up" (library.up s).0, (library.up s).1)

  unfoldable pub migrate_down : State → Option Error × State
  unfolding unless_no_change
  migrate_down s = (unless_no_change "Migrator.Down" (library.down s).0, (library.down s).1)

  -- `shown` prints a number.
  unfoldable pub migrate_steps : ℤ → State → Option Error × State
  unfolding unless_no_change
  migrate_steps n s = (
    unless_no_change ("Migrator.Steps(" ++ (shown n ++ ")")) (library.steps n s).0,
    (library.steps n s).1,
  )

  unfoldable pub migrate_version : State → Result (ℕ × Bool)
  migrate_version s = elim (library.version s) [
    | inl v ↦ ok v
    | inr nil_version ↦ ok (0, false)
    | inr f ↦ err (wrap "Migrator.Version" (error_of f))
  ]

  -- The two errors are printed into one where both calls fail.
  unfoldable pub close_error : Option Error → Option Error → Option Error
  close_error none none = none
  close_error (some e) none = some (wrap "Migrator.Close: source" e)
  close_error none (some e) = some (wrap "Migrator.Close: db" e)
  close_error (some e) (some e') =
      some (message ("Migrator.Close: source: " ++ (error_text e ++ ("; db: " ++ error_text e'))))

  unfoldable pub migrate_close : State → Option Error × State
  unfolding close_error
  migrate_close s = let (errors, s') = library.close s in (close_error errors.0 errors.1, s')

  dirty_error : Result (ℕ × Bool) → Option Error
  dirty_error (err e) = some e
  dirty_error (ok (version, dirty)) =
      if dirty
      then some (
          message (
            "database is in a dirty state at version "
            ++ (shown (pos version) ++ "; manual intervention required")))
      else none

  -- Up, then the check of the version.
  unfoldable pub up_and_check : State → Option Error × State
  unfolding migrate_up migrate_version dirty_error
  up_and_check s =
      let (r, s') = migrate_up s in
      elim r [ some e ↦ (some e, s') | none ↦ (dirty_error (migrate_version s'), s') ]

  -- An error of Close counts only if there is no other.
  unfoldable pub run_migrations : Result State → Option Error
  unfolding up_and_check migrate_close
  run_migrations (err e) = some e
  run_migrations (ok s) =
      let (r, s') = up_and_check s in
      let (r', s'') = migrate_close s' in elim r [ some e ↦ some e | none ↦ r' ]
