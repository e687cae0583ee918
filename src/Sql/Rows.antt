-- ===== src/Sql/Rows.antt =====
-- Rows that a test selects, before and after a statement.
use mathlib.Core.Path.{ap₂}
use mathlib.Core.List.{Memᴰ}
use email_service_with_aws_s.Base.{
  suc, ◌≤◌, ◌≡◌, refl, ap, sym, Bool, true, false, List, [], ◌∷◌, map, arith, length, select, any,
  first, Option-cases, Bool-cases, inl, inr,
}
use email_service_with_aws_s.Sql.{Table, update_where}

module _ {Row : Type 0} where
  -- Changed rows that the test selects are the selected rows, changed.
  pub select-update_where_self :
      (test : Row → Bool) (change : Row → Row) (l : List Row)
      → ((r : Row) → test (change r) ≡ test r)
      → select test (update_where test change l) ≡ map change (select test l)
  select-update_where_self test change [] keep = refl
  select-update_where_self test change (r ∷ l) keep =
      ground (arith, keep r, select-update_where_self test change l keep)

  -- A change that another test does not see.
  pub select-update_where_ne :
      (test other : Row → Bool) (change : Row → Row) (l : List Row)
      → ((r : Row) → test r ≡ true → (other r ≡ false) × (other (change r) ≡ false))
      → select other (update_where test change l) ≡ select other l
  select-update_where_ne test other change [] apart = refl
  select-update_where_ne test other change (r ∷ l) apart = elim (Bool-cases (test r)) [
    | inl yes' ↦ ground (arith, apart r yes', select-update_where_ne test other change l apart)
    | inr no' ↦ ground (arith, no', select-update_where_ne test other change l apart)
  ]

  pub length-select-update_where :
      (test other : Row → Bool) (change : Row → Row) (l : List Row)
      → ((r : Row) → other (change r) ≡ other r)
      → length (select other (update_where test change l)) ≡ length (select other l)
  length-select-update_where test other change [] keep = refl
  length-select-update_where test other change (r ∷ l) keep =
      ground (arith, keep r, length-select-update_where test other change l keep)

  -- No row that the test refuses is selected by a test that implies it.
  pub select-eq-nil_of_implies :
      (test other : Row → Bool) (l : List Row)
      → ((r : Row) → other r ≡ true → test r ≡ true)
      → any test l ≡ false
      → select other l ≡ []
  select-eq-nil_of_implies test other [] sub h = refl
  select-eq-nil_of_implies test other (r ∷ l) sub h =
      ground (arith, sub r, select-eq-nil_of_implies test other l sub)

  pub length-update_where :
      (test : Row → Bool) (change : Row → Row) (l : List Row)
      → length (update_where test change l) ≡ length l
  length-update_where test change [] = refl
  length-update_where test change (r ∷ l) = ground (arith, length-update_where test change l)

  pub length-map : (f : Row → Row) (l : List Row) → length (map f l) ≡ length l
  length-map f [] = refl
  length-map f (r ∷ l) = ap suc (length-map f l)

  pub any-eq-false : (test : Row → Bool) (l : List Row) → any test l ≡ false → select test l ≡ []
  any-eq-false test [] h = refl
  any-eq-false test (r ∷ l) h = ground (arith, any-eq-false test l)

  pub select-eq-nil : (test : Row → Bool) (l : List Row) → select test l ≡ [] → any test l ≡ false
  select-eq-nil test [] h = refl
  select-eq-nil test (r ∷ l) h = ground (arith, select-eq-nil test l)

  nil_of_length : (l : List Row) → length l ≤ 0 → l ≡ []
  nil_of_length [] h = refl
  nil_of_length (x ∷ l) h = absurd (omega arith)

  selected_of_Memᴰ :
      (test : Row → Bool) (r : Row) (l : List Row)
      → Memᴰ r l
      → test r ≡ true
      → length (select test l) ≤ 1
      → select test l ≡ r ∷ []
  selected_of_Memᴰ test r [] m t h = elim m [ ]
  selected_of_Memᴰ test r (x ∷ l) (Memᴰ.head e) t h =
      let found : test x ≡ true = rw (← e) t in
      rw found (ap₂ ◌∷◌ (sym e) (nil_of_length (select test l) (ground (arith, found))))
  selected_of_Memᴰ test r (x ∷ l) (Memᴰ.tail m) t h = ground (arith, selected_of_Memᴰ test r l m t)

module _ {Row : Type 0} {clash : Row → Row → Bool} (table : Table Row clash) where
  open table use {State, rows, get}

  -- SELECT … LIMIT 1 where one row at most passes the test.
  pub get-eq-first :
      (test : Row → Bool) (s : State)
      → length (select test (rows s)) ≤ 1
      → get test s ≡ first (select test (rows s))
  get-eq-first test s h = elim (Option-cases (get test s)) [
    | inl e ↦ rw e (rw (any-eq-false test (rows s) (table.get_none test s e)))
    | inr (r, e) ↦
        let (m, t) = table.get_some test s r e in rw e (rw (selected_of_Memᴰ test r (rows s) m t h))
  ]
