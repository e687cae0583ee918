-- ===== src/Tracking/Clicks.antt =====
-- Where a click on a rewritten link leads.
use email_service_with_aws_s.Base.{
  some-injective, ℕ, String, ◌<◌, ◌≡◌, refl, sym, ◌∙◌, Bool, true, not, ◌||◌, some, [], ◌∷◌, nat_eq,
  arith, All, Bytes,
}
use email_service_with_aws_s.Sql.{Table, Collation}
use email_service_with_aws_s.Repository.Models.{EmailLog, log_clash, EmailDailyStat, stat_clash}
use email_service_with_aws_s.Tracking.Escape.{query_escape, query_unescape}
use email_service_with_aws_s.Tracking.RoundTrip.{unescape-plain, query_unescape-query_escape}
use email_service_with_aws_s.Tracking.Handlers.{Conditions, redirect, handle_click}

-- A byte that QueryUnescape copies.
abbrev pub is_plain : ℕ → Bool
is_plain c = not (nat_eq c b'%' || nat_eq c b'+')

unescape-of_plain : (s : Bytes) → All (λ c. is_plain c ≡ true) s → query_unescape s ≡ some s
unfolding query_unescape
unescape-of_plain [] h = refl
unescape-of_plain (c ∷ s) (p, h) = ground (arith, unescape-plain c s, unescape-of_plain s h, p)

module _ (text : Collation) (logs : Table EmailLog (log_clash text))
    (stats : Table EmailDailyStat (stat_clash text)) (param : String → String) (net : Conditions)
    (l : logs.State) (s : stats.State) where
  leads :
      (b : ℕ) (url : Bytes)
      → query_unescape (b ∷ url) ≡ some (b ∷ url)
      → (handle_click text logs stats param net (b ∷ url) l s).0 ≡ redirect (b ∷ url)
  unfolding handle_click
  leads b url e = rw (e, handle_click) refl

  -- If an address is not empty and has no percent sign and no plus, then a click on the link that
  -- carries it escaped, which gin unescapes once before the handler does, leads to that address.
  pub handle_click-query_escape :
      (b : ℕ) (url raw : Bytes)
      → All (λ c. c < 256) (b ∷ url)
      → All (λ c. is_plain c ≡ true) (b ∷ url)
      → query_unescape (query_escape (b ∷ url)) ≡ some raw
      → (handle_click text logs stats param net raw l s).0 ≡ redirect (b ∷ url)
  handle_click-query_escape b url raw small plain gin =
      rw (some-injective raw (b ∷ url) (sym gin ∙ query_unescape-query_escape (b ∷ url) small))
        (leads b url (unescape-of_plain (b ∷ url) plain))
