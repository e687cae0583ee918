-- ===== src/Fakes/Sql.antt =====
-- A table in memory: a list of rows.
use mathlib.Core.List.{Memᴰ, Perm}
use text.Mathlib.TextEquality.{eq_iff}
use mathlib.Core.List.Perm
use email_service_with_aws_s.Base.{
  take, drop, ℕ, ◌≤◌, String, ◌≡◌, refl, sym, ◌∙◌, Bool, true, false, not, ◌&&◌, Option, none, some,
  List, [], ◌∷◌, ◌++◌, ◌==◌, eq_refl, arith, leb, length, select, any, All, if◌then◌else◌,
  Bool-cases, inl, inr,
}
use email_service_with_aws_s.Sql.{
  Table, Collation, stored, duplicate_key, update_where, delete_where, Falls,
}

pub eq_sym : (a b : String) → (a == b) ≡ true → (b == a) ≡ true
eq_sym a b e = (eq_iff b a).1 (sym ((eq_iff a b).0 e))

pub eq_trans : (a b c : String) → (a == b) ≡ true → (b == c) ≡ true → (a == c) ≡ true
eq_trans a b c e f = (eq_iff a c).1 ((eq_iff a b).0 e ∙ (eq_iff b c).0 f)

abbrev pub exact : Collation
exact = record {
  same = λ a b. a == b;
  same_refl = λ a. eq_refl a;
  same_sym = eq_sym;
  same_trans = eq_trans;
}

module _ {Row : Type 0} where
  abbrev pub find : (Row → Bool) → List Row → Option Row
  find test [] = none
  find test (r ∷ l) = let rest = find test l in if test r then some r else rest

  pub find-some :
      (test : Row → Bool) (l : List Row) (r : Row)
      → find test l ≡ some r
      → Memᴰ r l × (test r ≡ true)
  find-some test [] r e = cc
  find-some test (q ∷ l) r e = elim (Bool-cases (test q)) [
    | inl here ↦ (Memᴰ.head (ground (arith, here, e)), ground (arith, here, e))
    | inr beyond ↦ let (m, t) = find-some test l r (ground (arith, beyond, e)) in (Memᴰ.tail m, t)
  ]

  pub find-none : (test : Row → Bool) (l : List Row) → find test l ≡ none → any test l ≡ false
  find-none test [] e = refl
  find-none test (q ∷ l) e = ground (arith, find-none test l)

  module _ (key : Row → ℕ) where
    -- before the first row whose key is not above
    abbrev pub insert_row : Row → List Row → List Row
    insert_row r [] = r ∷ []
    insert_row r (q ∷ l) =
        let rest = insert_row r l in if leb (key q) (key r) then r ∷ q ∷ l else q ∷ rest

    abbrev pub sort_rows : List Row → List Row
    sort_rows [] = []
    sort_rows (r ∷ l) = insert_row r (sort_rows l)

    insert_row-Perm : (r : Row) (l : List Row) → Perm (insert_row r l) (r ∷ l)
    insert_row-Perm r [] = Perm.rfl
    insert_row-Perm r (q ∷ l) = elim (Bool-cases (leb (key q) (key r))) [
      | inl first ↦ rw first Perm.rfl
      | inr later ↦ rw later (Perm.trans (Perm.cons q (insert_row-Perm r l)) (Perm.swap r q l))
    ]

    pub sort_rows-Perm : (l : List Row) → Perm (sort_rows l) l
    sort_rows-Perm [] = Perm.rfl
    sort_rows-Perm (r ∷ l) =
        Perm.trans (insert_row-Perm r (sort_rows l)) (Perm.cons r (sort_rows-Perm l))

    All-insert_row :
        (n : ℕ) (r : Row) (l : List Row)
        → key r ≤ n
        → All (λ q. key q ≤ n) l
        → All (λ q. key q ≤ n) (insert_row r l)
    All-insert_row n r [] h a = (h, tt)
    All-insert_row n r (q ∷ l) h (b, a) = elim (Bool-cases (leb (key q) (key r))) [
      | inl first ↦ rw first (h, (b, a))
      | inr later ↦ rw later (b, All-insert_row n r l h a)
    ]

    All-le : (n m : ℕ) (l : List Row) → n ≤ m → All (λ q. key q ≤ n) l → All (λ q. key q ≤ m) l
    All-le n m [] h a = tt
    All-le n m (q ∷ l) h (b, a) = (omega arith, All-le n m l h a)

    insert_row-Falls : (r : Row) (l : List Row) → Falls key l → Falls key (insert_row r l)
    insert_row-Falls r [] f = (tt, tt)
    insert_row-Falls r (q ∷ l) (a, f) = elim (Bool-cases (leb (key q) (key r))) [
      | inl first ↦
          rw first
            ((ground (arith, first), All-le (key q) (key r) l (ground (arith, first)) a), (a, f))
      | inr later ↦
          rw later (All-insert_row (key q) r l (ground (arith, later)) a, insert_row-Falls r l f)
    ]

    pub sort_rows-Falls : (l : List Row) → Falls key (sort_rows l)
    sort_rows-Falls [] = tt
    sort_rows-Falls (r ∷ l) = insert_row-Falls r (sort_rows l) (sort_rows-Falls l)

  abbrev pub memory_table : (clash : Row → Row → Bool) → Table Row clash
  memory_table clash = record {
    State = List Row;
    rows = λ s. s;
    get = find;
    count = λ test s. length (select test s);
    ordered = λ test key s. sort_rows key (select test s);
    page = λ test key limit offset s. take limit (drop offset (sort_rows key (select test s)));
    insert = λ r s. (
      if any (clash r) s then duplicate_key else stored,
      if any (clash r) s then s else s ++ r ∷ [],
    );
    insert_ignore = λ r s. if any (clash r) s then s else s ++ r ∷ [];
    upsert = λ r change s. if any (clash r) s then update_where (clash r) change s else s ++ r ∷ [];
    update = update_where;
    update_key = λ test change s.
        let answer =
          if any (λ r. test r && any (λ q. not (test q) && clash (change r) q) s) s
          then duplicate_key
          else stored in
        (answer, elim answer [ stored ↦ update_where test change s | duplicate_key ↦ s ]);
    delete = delete_where;
    get_some = find-some;
    get_none = find-none;
    count_value = λ test s. refl;
    ordered_perm = λ test key s. sort_rows-Perm key (select test s);
    ordered_falls = λ test key s. sort_rows-Falls key (select test s);
    page_value = λ test key limit offset s. (
      sort_rows key (select test s),
      sort_rows-Perm key (select test s),
      sort_rows-Falls key (select test s),
      refl,
    );
    insert_value = λ r s. refl;
    rows-insert = λ r s. refl;
    rows-insert_ignore = λ r s. refl;
    rows-upsert = λ r change s. refl;
    rows-update = λ test change s. refl;
    update_key_value = λ test change s. refl;
    rows-update_key = λ test change s. refl;
    rows-delete = λ test s. refl;
  }
