-- ===== src/Base/Errors.antt =====
-- Go's `error` values and `(value, error)` results, and the outcome of a call over the network.
use Prim.Native.String.{String}
use mathlib.Core.Path.{◌≡◌, refl}
use mathlib.Core.Logic.{◌⊎◌, inl, inr}
use mathlib.Core.Bool.{Bool, true, false}

-- `message m` is errors.New(m), or an error of a driver or service with that message; `wrap m e` is
-- fmt.Errorf(m + ": %w", e). The rest are the sentinels of internal/repository/models.go and the
-- error types of internal/delivery/types.go.
pub data Error : Type 0 where
  message : String → Error
  wrap : String → Error → Error
  not_found : Error
  duplicate : Error
  message_rejected : String → Error
  domain_not_verified : String → Error
  configuration_set_not_found : String → Error
  account_suspended : String → Error
  transient : Error → Error
  delivery_error : Error → Bool → Error

pub data Result {ℓ} (A : Type ℓ) : Type ℓ where
  ok : A → Result A
  err : Error → Result A

abbrev pub is_ok {ℓ} : {A : Type ℓ} → Result A → Bool
is_ok (ok a) = true
is_ok (err e) = false

-- What became of one call of a service: its reply arrived; the call was lost before it took effect;
-- or it took effect and the reply was lost.
pub data Outcome : Type 0 where
  arrived : Outcome
  lost : Error → Outcome
  late : Error → Outcome

abbrev pub has_arrived : Outcome → Bool
has_arrived arrived = true
has_arrived _ = false

-- A call that changes the state of a service.
abbrev pub attempt {ℓ} : {S A : Type ℓ} → Outcome → (S → A × S) → S → Result A × S
attempt arrived f s = (ok (f s).0, (f s).1)
attempt (lost e) f s = (err e, s)
attempt (late e) f s = (err e, (f s).1)

-- The same, for a call that returns nothing but its error.
abbrev pub attempt_ {ℓ} : {S : Type ℓ} → Outcome → (S → S) → S → Result (Unit {0}) × S
attempt_ arrived f s = (ok tt, f s)
attempt_ (lost e) f s = (err e, s)
attempt_ (late e) f s = (err e, f s)

-- A call that only reads.
abbrev pub query {ℓ} : {A : Type ℓ} → Outcome → A → Result A
query arrived a = ok a
query (lost e) a = err e
query (late e) a = err e

-- `fmt.Errorf(prefix + ": %w", err)` for a call that returned an error.
abbrev pub wrapped {ℓ} : {A : Type ℓ} → String → Result A → Result A
wrapped prefix (ok a) = ok a
wrapped prefix (err e) = err (wrap prefix e)

abbrev pub map_ok {ℓ κ} : {A : Type ℓ} {B : Type κ} → (A → B) → Result A → Result B
map_ok f (ok a) = ok (f a)
map_ok f (err e) = err e

pub Result-cases {ℓ} :
    {A : Type ℓ} (r : Result A) → ((a : A) × (r ≡ ok a)) ⊎ ((e : Error) × (r ≡ err e))
Result-cases (ok a) = inl (a, refl)
Result-cases (err e) = inr (e, refl)

pub ok-injective {ℓ} : {A : Type ℓ} (a b : A) → ok a ≡ ok b → a ≡ b
ok-injective a b e = cc
