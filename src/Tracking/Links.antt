-- ===== src/Tracking/Links.antt =====
-- What the injector does to a document: its links and nothing else, and one pixel.
use mathlib.Core.List.{append-nil}
use email_service_with_aws_s.Base.{
  ℕ, zero, suc, ◌≤◌, none, some, [], ◌∷◌, ◌++◌, ◌≡◌, refl, arith, length, Bytes, bytes, to_lower,
  map, drop, some-injective, Bool, true, false, Bool-cases, Option-cases, inl, inr,
}
use email_service_with_aws_s.Tracking.Escape.{query_escape}
use email_service_with_aws_s.Tracking.Inject.{
  Injector, inject_click_tracking, last_index, starts_with_bytes, split_at, pixel,
  inject_open_pixel,
}

abbrev inj : Injector
inj = record { base_url = bytes "http://t.co" }

abbrev page : Bytes
page = bytes "<a HREF=\"https://x.y/?a=b\">1</a><a href=\"ftp://z\">2</a></body>"

tests :
    (inject_click_tracking inj page (bytes "L1")
      ≡ bytes
          "<a href=\"http://t.co/c/L1?u=https%3A%2F%2Fx.y%2F%3Fa%3Db\">1</a><a href=\"ftp://z\">2</a></body>")
    × (inject_open_pixel (map to_lower) inj (bytes "a</BODY>b") (bytes "L1")
        ≡ some (
            bytes
              "a<img src=\"http://t.co/o/L1\" width=\"1\" height=\"1\" style=\"display:none\" alt=\"\"></BODY>b"))
unfolding inject_click_tracking inject_open_pixel query_escape
tests = (refl, refl)

split_at-append :
    (i : ℕ) (s a b : Bytes) → split_at i s ≡ some (a, b) → (a ++ b ≡ s) × (length a ≡ i)
unfolding split_at
split_at-append zero s a b e = (ground arith, ground arith)
split_at-append (suc i) [] a b e = cc
split_at-append (suc i) (c ∷ s) a b e = elim (Option-cases (split_at i s)) [
  | inl missed ↦ ground (arith, missed)
  | inr ((a', b'), found) ↦ ground (arith, found, split_at-append i s a' b' found)
]

split_at-some :
    (i : ℕ) (s : Bytes) → i ≤ length s → (a : Bytes) × (b : Bytes) × (split_at i s ≡ some (a, b))
unfolding split_at
split_at-some zero s h = ([], s, refl)
split_at-some (suc i) [] h = absurd (omega arith)
split_at-some (suc i) (c ∷ s) h =
    let (a, b, e) = split_at-some i s (omega arith) in (c ∷ a, b, rw e)

last_index-le : (s sub : Bytes) (i : ℕ) → last_index s sub ≡ some i → i ≤ length s
unfolding last_index
last_index-le [] sub i e = ground arith
last_index-le (c ∷ s) sub i e = elim (Option-cases (last_index s sub)) [
  | inl missed ↦ ground (arith, missed)
  | inr (n, found) ↦ ground (arith, found, last_index-le s sub n found)
]

abbrev tag : Bytes
tag = bytes "</body>"

-- A closing body tag begins at the i-th byte.
abbrev pub tag_at : ℕ → Bytes → Bool
tag_at i s = starts_with_bytes (bytes "</body>") (drop i s)

drop-nil : (i : ℕ) → drop {A = ℕ} i [] ≡ []
drop-nil zero = refl
drop-nil (suc i) = refl

last_index-none : (s : Bytes) → last_index s tag ≡ none → (i : ℕ) → tag_at i s ≡ false
unfolding last_index
last_index-none [] e i = rw (drop-nil i) refl
last_index-none (c ∷ s) e zero = elim (Option-cases (last_index s tag)) [
  | inl missed ↦ ground (arith, missed, e)
  | inr (n, found) ↦ cc (rw found at e)
]
last_index-none (c ∷ s) e (suc i) = elim (Option-cases (last_index s tag)) [
  | inl missed ↦ last_index-none s missed i
  | inr (n, found) ↦ cc (rw found at e)
]

-- The tag begins at the index, and nowhere in what follows.
abbrev IsLast : ℕ → Bytes → Type 0
IsLast n s = (tag_at n s ≡ true) × ((k : ℕ) → tag_at k (drop (suc n) s) ≡ false)

last_index-some : (s : Bytes) (n : ℕ) → last_index s tag ≡ some n → IsLast n s
unfolding last_index
last_index-some [] n e = cc
last_index-some (c ∷ s) n e = elim (Option-cases (last_index s tag)) [
  | inr (m, found) ↦
      let same : suc m ≡ n = some-injective (suc m) n (rw found at e) in
      rw (← same) (last_index-some s m found)
  | inl missed ↦ elim (Bool-cases (starts_with_bytes tag (c ∷ s))) [
    | inr other ↦ cc (rw (missed, other) at e)
    | inl here ↦
        let same : 0 ≡ n = some-injective 0 n (rw (missed, here) at e) in
        rw (← same) (here, last_index-none s missed)
  ]
]

-- Where the pixel belongs between the parts of a document, as its lower case has them.
pub data Splits (low : Bytes) (before : Bytes) : Bytes → Type 0 where
  no_tag : ((i : ℕ) → tag_at i low ≡ false) → Splits low before []
  last_tag :
      {after : Bytes}
      → tag_at (length before) low ≡ true
      → ((k : ℕ) → tag_at k (drop (suc (length before)) low) ≡ false)
      → Splits low before after

module _ (lower : Bytes → Bytes) (inj : Injector) (html log_id : Bytes) where
  -- One pixel is put into the document, and every byte of it stays where it was around the pixel:
  -- directly before the last closing body tag of the document in lower case, or at the end if there
  -- is none. Lower case must not change the number of its bytes.
  pub inject_open_pixel_lem :
      length (lower html) ≡ length html
      → (before : Bytes) × (after : Bytes) × (inject_open_pixel lower inj html log_id
          ≡ some (before ++ (pixel inj log_id ++ after)))
        × (before ++ after ≡ html)
        × Splits (lower html) before after
  unfolding inject_open_pixel
  inject_open_pixel_lem same = elim (Option-cases (last_index (lower html) (bytes "</body>"))) [
    | inl missed ↦ (
      html,
      [],
      rw (missed, inject_open_pixel, append-nil (pixel inj log_id)) refl,
      append-nil html,
      no_tag (last_index-none (lower html) missed),
    )
    | inr (i, found) ↦
        let (before, after, split) =
          split_at-some i html
            (rw (← same) (last_index-le (lower html) (bytes "</body>") i found)) in
        let (whole, size) = split_at-append i html before after split in
        let (here, last) = last_index-some (lower html) i found in
        (
          before,
          after,
          rw (found, split, inject_open_pixel) refl,
          whole,
          last_tag (rw size here) (rw size last),
        )
  ]
