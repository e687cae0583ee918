-- ===== src/Sql.antt =====
-- One table of MySQL as internal/repository uses it (github.com/jmoiron/sqlx and the server behind
-- it). `Row` is the record that the columns are scanned into; a WHERE clause is a test on rows, a SET
-- clause a function on rows. `clash` says which two rows the table's unique keys forbid. A statement
-- that the server refuses (a foreign key, a lock, a closed connection) is an `Outcome` of the caller.
pub mod Rows
pub mod Sorted
use mathlib.Core.List.{Memᴰ, Perm}
use email_service_with_aws_s.Base.{
  take, drop, ℕ, ◌≡◌, Bool, true, false, not, ◌&&◌, String, ◌≤◌, Option, none, some, List, [], ◌∷◌,
  ◌++◌, map, length, select, any, All, if◌then◌else◌,
}

module _ {Row : Type 0} where
  -- UPDATE … SET change WHERE test
  abbrev pub update_where : (Row → Bool) → (Row → Row) → List Row → List Row
  update_where test change [] = []
  update_where test change (r ∷ l) = (if test r then change r else r) ∷ update_where test change l

  -- DELETE … WHERE test
  abbrev pub delete_where : (Row → Bool) → List Row → List Row
  delete_where test = select (λ r. not (test r))

  -- No key is above one before it.
  abbrev pub Falls : (Row → ℕ) → List Row → Type 0
  Falls key [] = Unit {0}
  Falls key (r ∷ l) = All (λ q. key q ≤ key r) l × Falls key l

-- How text columns are compared: utf8mb4_unicode_ci in the migrations.
pub record Collation : Type 0 where
  pub same : String → String → Bool
  pub same_refl : (a : String) → same a a ≡ true
  pub same_sym : (a b : String) → same a b ≡ true → same b a ≡ true
  pub same_trans : (a b c : String) → same a b ≡ true → same b c ≡ true → same a c ≡ true

-- What a statement that inserts answers: it is done, or a unique key has the row's values.
pub data Inserted : Type 0 where
  stored : Inserted
  duplicate_key : Inserted

pub record Table (Row : Type 0) (clash : Row → Row → Bool) : Type 1 where
  pub State : Type 0
  pub rows : State → List Row
  -- SELECT * … WHERE test LIMIT 1
  pub get : (Row → Bool) → State → Option Row
  pub count : (Row → Bool) → State → ℕ
  pub ordered : (Row → Bool) → (Row → ℕ) → State → List Row
  -- … ORDER BY key DESC LIMIT limit OFFSET offset: the test, the key, the limit and the offset
  pub page : (Row → Bool) → (Row → ℕ) → ℕ → ℕ → State → List Row
  -- INSERT
  pub insert : Row → State → Inserted × State
  -- INSERT IGNORE
  pub insert_ignore : Row → State → State
  -- INSERT … ON DUPLICATE KEY UPDATE change
  pub upsert : Row → (Row → Row) → State → State
  pub update : (Row → Bool) → (Row → Row) → State → State
  -- UPDATE of a column with a unique key
  pub update_key : (Row → Bool) → (Row → Row) → State → Inserted × State
  pub delete : (Row → Bool) → State → State
  -- without ORDER BY any row that passes the test may be the one
  pub get_some :
      (test : Row → Bool) (s : State) (r : Row)
      → get test s ≡ some r
      → Memᴰ r (rows s) × (test r ≡ true)
  pub get_none : (test : Row → Bool) (s : State) → get test s ≡ none → any test (rows s) ≡ false
  -- SELECT COUNT(1) … WHERE test
  pub count_value : (test : Row → Bool) (s : State) → count test s ≡ length (select test (rows s))
  -- … ORDER BY key DESC: the rows that pass the test, in an order that the key does not raise
  pub ordered_perm :
      (test : Row → Bool) (key : Row → ℕ) (s : State)
      → Perm (ordered test key s) (select test (rows s))
  pub ordered_falls :
      (test : Row → Bool) (key : Row → ℕ) (s : State) → Falls key (ordered test key s)
  -- rows with equal keys come in any order, for each limit and offset in one of its own
  pub page_value :
      (test : Row → Bool) (key : Row → ℕ) (limit offset : ℕ) (s : State)
      → (l : List Row) × Perm l (select test (rows s))
        × Falls key l
        × (page test key limit offset s ≡ take limit (drop offset l))
  pub insert_value :
      (r : Row) (s : State)
      → (insert r s).0 ≡ (if any (clash r) (rows s) then duplicate_key else stored)
  pub rows-insert :
      (r : Row) (s : State)
      → rows (insert r s).1 ≡ (if any (clash r) (rows s) then rows s else rows s ++ r ∷ [])
  -- for a row whose client exists and whose texts fit their columns; IGNORE drops or cuts others
  pub rows-insert_ignore :
      (r : Row) (s : State)
      → rows (insert_ignore r s) ≡ (if any (clash r) (rows s) then rows s else rows s ++ r ∷ [])
  pub rows-upsert :
      (r : Row) (change : Row → Row) (s : State)
      → rows (upsert r change s) ≡ (
          if any (clash r) (rows s)
          then update_where (clash r) change (rows s)
          else rows s ++ r ∷ [])
  pub rows-update :
      (test : Row → Bool) (change : Row → Row) (s : State)
      → rows (update test change s) ≡ update_where test change (rows s)
  pub update_key_value :
      (test : Row → Bool) (change : Row → Row) (s : State)
      → (update_key test change s).0 ≡ (
          if any (λ r. test r && any (λ q. not (test q) && clash (change r) q) (rows s)) (rows s)
          then duplicate_key
          else stored)
  pub rows-update_key :
      (test : Row → Bool) (change : Row → Row) (s : State)
      → rows (update_key test change s).1 ≡ (elim (update_key test change s).0 [
        | stored ↦ update_where test change (rows s)
        | duplicate_key ↦ rows s
      ])
  pub rows-delete :
      (test : Row → Bool) (s : State) → rows (delete test s) ≡ delete_where test (rows s)
