-- ===== src/Tracking/Rewrite.antt =====
-- Click tracking rewrites each link of a document and copies every other byte.
use email_service_with_aws_s.Base.{
  drop, ℕ, zero, suc, ◌+◌, ◌≤◌, Option, none, some, [], ◌∷◌, ◌++◌, ◌≡◌, refl, ap, sym, ◌∙◌, arith,
  nat_eq, length, Bytes, bytes, Option-cases, Bool-cases, inl, inr,
}
use email_service_with_aws_s.Tracking.Inject.{
  ◌>>=◌, Injector, link_at, strip_fold, until_quote, not_empty, skip_s, replace_links,
  redirect_attribute, inject_click_tracking,
}

-- `out` is `html` with the value of each link replaced.
pub data Rewrites (f : Bytes → Bytes) : Bytes → Bytes → Type 0 where
  done : Rewrites f [] []
  copy :
      {s out : Bytes} (c : ℕ)
      → link_at (c ∷ s) ≡ none
      → Rewrites f s out
      → Rewrites f (c ∷ s) (c ∷ out)
  swap :
      {html s out : Bytes} (url : Bytes)
      → link_at html ≡ some url
      → strip_fold (bytes "href=\"") html ≡ some (url ++ b'"' ∷ s)
      → Rewrites f s out
      → Rewrites f html (f url ++ out)

until_quote_split :
    (s url : Bytes) → until_quote s ≡ some url → (rest : Bytes) × (s ≡ url ++ b'"' ∷ rest)
until_quote_split [] url e = cc
until_quote_split (c ∷ s) url e = elim (Bool-cases (nat_eq c b'"')) [
  | inl quote ↦ (s, ground arith)
  | inr other ↦ elim (Option-cases (until_quote s)) [
    | inl missed ↦ ground (arith, missed, other)
    | inr (u, found) ↦
        let (rest, split) = until_quote_split s u found in
        (rest, ground (arith, found, split, other))
  ]
]

drop-length : (url rest : Bytes) → drop (suc (length url)) (url ++ b'"' ∷ rest) ≡ rest
drop-length [] rest = refl
drop-length (c ∷ url) rest = drop-length url rest

replace_links-skip :
    (f : Bytes → Bytes) (n : ℕ) (s : Bytes) → replace_links f n s ≡ replace_links f zero (drop n s)
unfolding replace_links
replace_links-skip f zero s = refl
replace_links-skip f (suc n) [] = refl
replace_links-skip f (suc n) (c ∷ s) = replace_links-skip f n s

>>=-some :
    {A B : Type 0} (x : Option A) (k : A → Option B) {b : B}
    → x >>= k ≡ some b
    → (a : A) × (x ≡ some a) × (k a ≡ some b)
>>=-some none k e = cc
>>=-some (some a) k e = (a, refl, e)

-- The value of a link stands between the quotes of its attribute.
link_at_split :
    (html url : Bytes)
    → link_at html ≡ some url
    → (value : Bytes) × (strip_fold (bytes "href=\"") html ≡ some value)
      × (until_quote value ≡ some url)
unfolding link_at
link_at_split html url e =
    let (value, found, e1) = >>=-some (strip_fold (bytes "href=\"") html) _ e in
    let (scheme, _, e2) = >>=-some (strip_fold (bytes "http") value) _ e1 in
    let (address, _, e3) = >>=-some (strip_fold (bytes "://") (skip_s scheme)) _ e2 in
    let (shown, _, e4) = >>=-some (until_quote address) _ e3 in
    let (proper, _, e5) = >>=-some (not_empty shown) _ e4 in (value, found, e5)

strip_fold-drop : (p s rest : Bytes) → strip_fold p s ≡ some rest → drop (length p) s ≡ rest
strip_fold-drop [] s rest e = ground arith
strip_fold-drop (p ∷ ps) [] rest e = cc
strip_fold-drop (p ∷ ps) (c ∷ s) rest e = ground (arith, strip_fold-drop ps s rest)

suc_add : (n m : ℕ) → suc (n + m) ≡ suc n + m
suc_add n m = omega arith

drop-nil : (n : ℕ) → drop {A = ℕ} n [] ≡ []
drop-nil zero = refl
drop-nil (suc n) = refl

drop-drop : (n m : ℕ) (s : Bytes) → drop m (drop n s) ≡ drop (n + m) s
drop-drop zero m s = ground arith
drop-drop (suc n) zero [] = sym (drop-nil (suc n + 0))
drop-drop (suc n) (suc m) [] = sym (drop-nil (suc n + suc m))
drop-drop (suc n) m (c ∷ s) = drop-drop n m s ∙ ap (λ k. drop k (c ∷ s)) (suc_add n m)

past_quotes : (n : ℕ) → n + 6 ≡ 5 + suc n
past_quotes n = omega arith

-- The document after a link that begins it.
after_link :
    (c : ℕ) (s url : Bytes)
    → link_at (c ∷ s) ≡ some url
    → (rest : Bytes) × (strip_fold (bytes "href=\"") (c ∷ s) ≡ some (url ++ b'"' ∷ rest))
      × (drop (length url + 6) s ≡ rest)
after_link c s url e =
    let (value, found, quoted) = link_at_split (c ∷ s) url e in
    let (rest, split) = until_quote_split value url quoted in
    let whole = found ∙ ap some split in
    let begins = strip_fold-drop (bytes "href=\"") (c ∷ s) (url ++ b'"' ∷ rest) whole in
    (
      rest,
      whole,
      ap (λ n. drop n s) (past_quotes (length url))
          ∙ (sym (drop-drop 5 (suc (length url)) s)
              ∙ (ap (drop (suc (length url))) begins ∙ drop-length url rest)),
    )

drop-le : (n : ℕ) (s : Bytes) → length (drop n s) ≤ length s
drop-le zero s = omega arith
drop-le (suc n) [] = omega arith
drop-le (suc n) (c ∷ s) = ground (arith, drop-le n s)

shorter :
    (n : ℕ) (s rest : Bytes) → drop n s ≡ rest → (fuel : ℕ) → length s ≤ fuel → length rest ≤ fuel
shorter n s rest e fuel h = ground (arith, drop-le n s)

continue :
    (f : Bytes → Bytes) (n : ℕ) (s rest : Bytes)
    → drop n s ≡ rest
    → Rewrites f rest (replace_links f zero rest)
    → Rewrites f rest (replace_links f n s)
continue f n s rest after h = rw (replace_links-skip f n s, after) h

replace_links-Rewrites :
    (f : Bytes → Bytes) (fuel : ℕ) (s : Bytes)
    → length s ≤ fuel
    → Rewrites f s (replace_links f zero s)
unfolding replace_links
replace_links-Rewrites f fuel [] h = done
replace_links-Rewrites f zero (c ∷ s) h = absurd (omega arith)
replace_links-Rewrites f (suc fuel) (c ∷ s) h = elim (Option-cases (link_at (c ∷ s))) [
  | inl missed ↦
      rw (missed, replace_links) (copy c missed (replace_links-Rewrites f fuel s (omega arith)))
  | inr (url, found) ↦
      let (rest, split, after) = after_link c s url found in
      rw (found, replace_links)
        (swap url found split (
          continue f (length url + 6) s rest after (
            replace_links-Rewrites f fuel rest
              (shorter (length url + 6) s rest after fuel (omega arith)))))
]

-- The document that goes out is the one that came in, with every byte outside its links copied in
-- place and every link replaced by the attribute that redirect_attribute makes of its address.
pub inject_click_tracking_lem :
    (inj : Injector) (html log_id : Bytes)
    → Rewrites (redirect_attribute inj log_id) html (inject_click_tracking inj html log_id)
unfolding inject_click_tracking
inject_click_tracking_lem inj html log_id =
    replace_links-Rewrites (redirect_attribute inj log_id) (length html) html (omega arith)
