-- ===== src/Redis/Lists.antt =====
-- Lists, for internal/queue: the head of `items` is the left end.
use email_service_with_aws_s.Base.{
  String, ◌≡◌, Option, none, some, List, [], ◌∷◌, ◌++◌, ◌==◌, if◌then◌else◌,
}

-- The right end, and what is left of it.
abbrev pub last_of {ℓ} : {A : Type ℓ} → List A → Option A
last_of [] = none
last_of (x ∷ []) = some x
last_of (x ∷ y ∷ l) = last_of (y ∷ l)

abbrev pub init_of {ℓ} : {A : Type ℓ} → List A → List A
init_of [] = []
init_of (x ∷ []) = []
init_of (x ∷ y ∷ l) = x ∷ init_of (y ∷ l)

-- `Text` is the type of what is pushed; BRPOP returns none at its timeout.
pub record Lists (Text : Type 0) : Type 1 where
  pub State : Type 0
  pub items : State → String → List Text
  pub lpush : String → Text → State → State
  pub rpush : String → Text → State → State
  pub brpop : String → State → Option Text × State
  pub items-lpush :
      (k : String) (x : Text) (s : State) (j : String)
      → items (lpush k x s) j ≡ (if k == j then x ∷ items s j else items s j)
  pub items-rpush :
      (k : String) (x : Text) (s : State) (j : String)
      → items (rpush k x s) j ≡ (if k == j then items s j ++ x ∷ [] else items s j)
  pub brpop_value : (k : String) (s : State) → (brpop k s).0 ≡ last_of (items s k)
  pub items-brpop :
      (k : String) (s : State) (j : String)
      → items (brpop k s).1 j ≡ (if k == j then init_of (items s j) else items s j)
