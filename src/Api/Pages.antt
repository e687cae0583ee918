-- ===== src/Api/Pages.antt =====
-- The pages of GET /v1/emails, together.
use Prim.Native.Nat.{◌-◌}
use email_service_with_aws_s.Base.{
  ℕ, zero, suc, ◌+◌, ◌*◌, ◌≤◌, ◌≡◌, refl, sym, ap, List, [], ◌∷◌, ◌++◌, take, drop, length, arith,
}

-- LIMIT limit OFFSET (page - 1) * limit, and the rows of `n` pages from `page` on.
abbrev pub rows_of {ℓ} : {A : Type ℓ} → ℕ → ℕ → List A → List A
rows_of page limit l = take limit (drop ((page - 1) * limit) l)

unfoldable pub pages_from {ℓ} : {A : Type ℓ} → ℕ → ℕ → ℕ → List A → List A
pages_from page zero limit l = []
pages_from page (suc n) limit l = rows_of page limit l ++ pages_from (page + 1) n limit l

-- The offset of the page after this one.
next_offset : (page limit : ℕ) → 1 ≤ page → (page - 1) * limit + limit ≡ (page + 1 - 1) * limit
next_offset zero limit p = absurd (omega arith)
next_offset (suc k) limit p =
    let e : suc k - 1 ≡ k = omega arith in
    let e' : suc k + 1 - 1 ≡ k + 1 = omega arith in rw (e, e') (omega arith)

room_of : (page n : ℕ) → 1 ≤ page → page - 1 + suc n ≡ page + 1 - 1 + n
room_of page n p = omega arith

module _ {ℓ} {A : Type ℓ} where
  drop-drop : (n m k : ℕ) (l : List A) → m + n ≡ k → drop n (drop m l) ≡ drop k l
  drop-drop n zero k l e = let e' : n ≡ k = omega arith in rw e' refl
  drop-drop zero (suc m) (suc k) [] e = refl
  drop-drop (suc n) (suc m) (suc k) [] e = refl
  drop-drop n (suc m) zero l e = absurd (omega arith)
  drop-drop n (suc m) (suc k) (x ∷ l) e = drop-drop n m k l (omega arith)

  take-drop : (n : ℕ) (l : List A) → take n l ++ drop n l ≡ l
  take-drop zero l = refl
  take-drop (suc n) [] = refl
  take-drop (suc n) (x ∷ l) = ap (◌∷◌ x) (take-drop n l)

  drop_all : (n : ℕ) (l : List A) → length l ≤ n → drop n l ≡ []
  drop_all zero [] h = refl
  drop_all (suc n) [] h = refl
  drop_all zero (x ∷ l) h = absurd (omega arith)
  drop_all (suc n) (x ∷ l) h = drop_all n l (omega arith)

  pub pages_from_lem :
      (page n limit : ℕ) (l : List A)
      → 1 ≤ page
      → length l ≤ (page - 1 + n) * limit
      → pages_from page n limit l ≡ drop ((page - 1) * limit) l
  unfolding pages_from
  pages_from_lem page zero limit l p h =
      let h' : length l ≤ (page - 1) * limit = grind arith in
      sym (drop_all ((page - 1) * limit) l h')
  pages_from_lem page (suc n) limit l p h =
      let rest = pages_from_lem (page + 1) n limit l (omega arith) (rw (room_of page n p) at h) in
      let beyond =
        drop-drop limit ((page - 1) * limit) ((page + 1 - 1) * limit) l
          (next_offset page limit p) in
      rw rest (rw (← beyond) (take-drop limit (drop ((page - 1) * limit) l)))
