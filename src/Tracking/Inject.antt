-- ===== src/Tracking/Inject.antt =====
-- internal/tracking/inject.go. `lower` is strings.ToLower, which may change the number of bytes of a
-- text that is not ASCII; a slice out of range, which panics, is `none`.
use email_service_with_aws_s.Base.{
  ℕ, zero, suc, ◌+◌, Bool, true, false, ◌&&◌, Option, none, some, [], ◌∷◌, ◌++◌, nat_eq, length,
  if◌then◌else◌, Bytes, bytes, to_lower,
}
use email_service_with_aws_s.Tracking.Escape.{query_escape}

-- What follows a prefix, letters compared without case; the prefix is in lower case.
abbrev pub strip_fold : Bytes → Bytes → Option Bytes
strip_fold [] s = some s
strip_fold (p ∷ ps) [] = none
strip_fold (p ∷ ps) (c ∷ s) =
    let rest = strip_fold ps s in if nat_eq p (to_lower c) then rest else none

-- The bytes before the next quote, if there is one.
abbrev pub until_quote : Bytes → Option Bytes
until_quote [] = none
until_quote (c ∷ s) =
    let rest = until_quote s in
    if nat_eq c b'"' then some [] else elim rest [ none ↦ none | some u ↦ some (c ∷ u) ]

-- `s?` without case: U+017F, the bytes 197 and 191, folds to s.
abbrev pub skip_s : Bytes → Bytes
skip_s [] = []
skip_s (c ∷ []) = if nat_eq (to_lower c) b's' then [] else c ∷ []
skip_s (c ∷ d ∷ s) =
    if nat_eq (to_lower c) b's'
    then d ∷ s
    else if nat_eq c 197 && nat_eq d 191
    then s
    else c ∷ d ∷ s

infixl 5 ◌>>=◌
abbrev pub ◌>>=◌ : {A B : Type 0} → Option A → (A → Option B) → Option B
none >>= f = none
some a >>= f = f a

abbrev pub not_empty : Bytes → Option Bytes
not_empty [] = none
not_empty (c ∷ s) = some (c ∷ s)

-- The URL of a match of hrefRe, (?i)href="(https?://[^"]+)", that begins here.
unfoldable pub link_at : Bytes → Option Bytes
link_at s = do
  value ← strip_fold (bytes "href=\"") s
  scheme ← strip_fold (bytes "http") value
  address ← strip_fold (bytes "://") (skip_s scheme)
  shown ← until_quote address
  proper ← not_empty shown
  until_quote value

-- Injector.baseURL; NewInjector cuts slashes off its end.
abbrev pub trim_slashes : Bytes → Bytes
trim_slashes [] = []
trim_slashes (c ∷ s) =
    let rest = trim_slashes s in
    elim rest [ [] ↦ (if nat_eq c b'/' then [] else c ∷ []) | d ∷ t ↦ c ∷ d ∷ t ]

pub record Injector : Type 0 where
  pub base_url : Bytes

unfoldable pub new_injector : Bytes → Injector
new_injector base_url = record { base_url = trim_slashes base_url }

-- href="{base}/c/{logID}?u={escaped}"
unfoldable pub redirect_attribute : Injector → Bytes → Bytes → Bytes
redirect_attribute inj log_id url =
    bytes "href=\""
    ++ (inj.base_url
        ++ (bytes "/c/" ++ (log_id ++ (bytes "?u=" ++ (query_escape url ++ bytes "\"")))))

-- ReplaceAllStringFunc: from the left, without overlap. The counter is what is left of a match.
unfoldable pub replace_links : (Bytes → Bytes) → ℕ → Bytes → Bytes
unfolding link_at
replace_links f skip [] = []
replace_links f (suc skip) (c ∷ s) = replace_links f skip s
replace_links f zero (c ∷ s) =
    let next = replace_links f zero s in
    elim (link_at (c ∷ s)) [
      | none ↦ c ∷ next
      | some url ↦ f url ++ replace_links f (length url + 6) s
    ]

unfoldable pub inject_click_tracking : Injector → Bytes → Bytes → Bytes
unfolding replace_links redirect_attribute
inject_click_tracking inj html_body log_id =
    replace_links (redirect_attribute inj log_id) zero html_body

abbrev pub starts_with_bytes : Bytes → Bytes → Bool
starts_with_bytes [] s = true
starts_with_bytes (p ∷ ps) [] = false
starts_with_bytes (p ∷ ps) (c ∷ s) = nat_eq p c && starts_with_bytes ps s

-- strings.LastIndex
unfoldable pub last_index : Bytes → Bytes → Option ℕ
last_index [] sub = if starts_with_bytes sub [] then some 0 else none
last_index (c ∷ s) sub =
    let rest = last_index s sub in
    elim rest [
      | none ↦ (if starts_with_bytes sub (c ∷ s) then some 0 else none)
      | some n ↦ some (suc n)
    ]

-- s[:i] and s[i:]
unfoldable pub split_at : ℕ → Bytes → Option (Bytes × Bytes)
split_at zero s = some ([], s)
split_at (suc i) [] = none
split_at (suc i) (c ∷ s) = elim (split_at i s) [ none ↦ none | some (a, b) ↦ some (c ∷ a, b) ]

unfoldable pub pixel : Injector → Bytes → Bytes
pixel inj log_id =
    bytes "<img src=\""
    ++ (inj.base_url
        ++ (bytes "/o/"
            ++ (log_id ++ bytes "\" width=\"1\" height=\"1\" style=\"display:none\" alt=\"\">")))

unfoldable pub inject_open_pixel : (Bytes → Bytes) → Injector → Bytes → Bytes → Option Bytes
unfolding pixel last_index split_at
inject_open_pixel lower inj html_body log_id =
    elim (last_index (lower html_body) (bytes "</body>")) [
      | none ↦ some (html_body ++ pixel inj log_id)
      | some i ↦ elim (split_at i html_body) [
        | none ↦ none
        | some (before, after) ↦ some (before ++ (pixel inj log_id ++ after))
      ]
    ]
