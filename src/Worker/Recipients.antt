-- ===== src/Worker/Recipients.antt =====
-- Whom a job is delivered to.
use email_service_with_aws_s.Base.{
  ok-injective, ℕ, zero, suc, String, ◌≡◌, refl, sym, ap, ◌∙◌, Bool, true, false, not, List, [],
  ◌∷◌, select, any, inl, inr, Outcome, arrived, lost, late, Result, Result-cases, ok, err, arith,
  map_ok,
}
use email_service_with_aws_s.Repository.Blacklist.{is_entry, is_blacklisted}
use email_service_with_aws_s.Repository.BlacklistLaws.{blacklisted-eq-any}
use email_service_with_aws_s.Worker.{Services, valid_recipients}

map_ok-some :
    (a : String) (l : List String) (r : Result (List String))
    → map_ok (λ k. a ∷ k) r ≡ ok l
    → (k : List String) × (r ≡ ok k) × (l ≡ a ∷ k)
map_ok-some a l (ok k) h = (k, refl, cc)
map_ok-some a l (err e) h = cc

module _ (services : Services) where
  open services use {text, blacklist}

  -- The addresses that the blacklist of the client does not have, in the job's order.
  abbrev pub not_blacklisted : blacklist.State → String → List String → List String
  not_blacklisted s client_id =
      select (λ addr. not (any (is_entry text client_id addr) (blacklist.rows s)))

  verdict :
      (net : Outcome) (c e : String) (s : blacklist.State) (b : Bool)
      → is_blacklisted text blacklist net c e s ≡ ok b
      → any (is_entry text c e) (blacklist.rows s) ≡ b
  unfolding is_blacklisted
  verdict arrived c e s b h = ok-injective _ _ (sym (blacklisted-eq-any text blacklist c e s) ∙ h)
  verdict (lost x) c e s b h = cc
  verdict (late x) c e s b h = cc

  module _ (checks : ℕ → Outcome) (client_id addr : String) (to : List String)
      (s : blacklist.State) where
    skipped :
        is_blacklisted text blacklist (checks zero) client_id addr s ≡ ok true
        → valid_recipients services checks client_id (addr ∷ to) s
          ≡ valid_recipients services (λ i. checks (suc i)) client_id to s
    unfolding valid_recipients
    skipped m = rw (m, valid_recipients) refl

    kept :
        is_blacklisted text blacklist (checks zero) client_id addr s ≡ ok false
        → valid_recipients services checks client_id (addr ∷ to) s
          ≡ map_ok (λ l. addr ∷ l) (valid_recipients services (λ i. checks (suc i)) client_id to s)
    unfolding valid_recipients
    kept m = rw (m, valid_recipients) refl

  -- The filter either fails or keeps exactly the addresses that are not blacklisted.
  pub valid_recipients_lem :
      (checks : ℕ → Outcome) (client_id : String) (to : List String) (s : blacklist.State)
      (l : List String)
      → valid_recipients services checks client_id to s ≡ ok l
      → l ≡ not_blacklisted s client_id to
  unfolding valid_recipients
  valid_recipients_lem checks client_id [] s l h = cc
  valid_recipients_lem checks client_id (addr ∷ to) s l h =
      elim (Result-cases (is_blacklisted text blacklist (checks zero) client_id addr s)) [
        | inr (e, m) ↦ ground (arith, m, h)
        | inl (true, m) ↦ rw (verdict (checks zero) client_id addr s true m) (
            valid_recipients_lem (λ i. checks (suc i)) client_id to s l
              (sym (skipped checks client_id addr to s m) ∙ h))
        | inl (false, m) ↦
            let (l', found, same) =
              map_ok-some addr l _ (sym (kept checks client_id addr to s m) ∙ h) in
            rw (verdict (checks zero) client_id addr s false m, same)
              (ap (λ k. addr ∷ k)
                (valid_recipients_lem (λ i. checks (suc i)) client_id to s l' found))
      ]
