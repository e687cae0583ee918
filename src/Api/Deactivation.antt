-- ===== src/Api/Deactivation.antt =====
-- What PUT /admin/clients/:id/status does to the logins of a client.
use mathlib.Core.List.{Memᴰ}
use email_service_with_aws_s.Base.{
  ℕ, String, ◌≡◌, refl, sym, ap, ◌∙◌, false, arith, inl, inr, Codec, Error, Result, Result-cases,
  ok, err, is_ok, Outcome, arrived,
}
use email_service_with_aws_s.Redis.Cache.{Cache}
use email_service_with_aws_s.Sql.{Table, Collation}
use email_service_with_aws_s.Repository.Models.{Client, client_clash}
use email_service_with_aws_s.Repository.Clients.{has_id, get_by_id, update_client}
use email_service_with_aws_s.Auth.Snapshot.{ClientSnapshot}
use email_service_with_aws_s.Auth.{
  Bcrypt, Calls, validate_api_key, validate_smtp_credentials, invalidate_cache,
}
use email_service_with_aws_s.Auth.Writes.{one_found}
use email_service_with_aws_s.Api.{answers, is_answer, data_or}
use email_service_with_aws_s.Api.Admin.{set_client_status}
use email_service_with_aws_s.Api.Evicted.{
  IsKeyed, refused_key, refused_login, rows-update_client, is_ok-eq-false,
}

module _ (text : Collation) (clients : Table Client (client_clash text))
    (json : Codec ClientSnapshot) (cache : Cache json.Text) where
  module _ (read updated : Outcome) (at : ℕ) (id : String) (db : clients.State)
      (s : cache.State) where
    abbrev looked : Result Client
    looked = get_by_id text clients read id db

    abbrev written : Client → Result (Unit {0}) × clients.State
    written row = update_client text clients updated at (record row { is_active = false }) db

    unknown :
        (x : Error)
        → looked ≡ err x
        → is_answer
            (set_client_status text clients json cache read updated at arrived id (ok false) db s).0
          ≡ false
    unfolding set_client_status is_answer
    unknown x m = rw (m, set_client_status) (ground arith)

    unwritten :
        (row : Client) (x : Error)
        → looked ≡ ok row
        → (written row).0 ≡ err x
        → is_answer
            (set_client_status text clients json cache read updated at arrived id (ok false) db s).0
          ≡ false
    unfolding set_client_status is_answer
    unwritten row x m m' = rw (m, m', set_client_status) refl

    done :
        (row : Client) (u : Unit {0})
        → looked ≡ ok row
        → (written row).0 ≡ ok u
        → set_client_status text clients json cache read updated at arrived id (ok false) db s ≡ (
          answers 200 (record row { is_active = false }),
          (written row).1,
          (invalidate_cache text clients json cache arrived (record row { is_active = false }) s).1,
        )
    unfolding set_client_status
    done row u m m' = rw (m, m', set_client_status) refl

    looked_inside : (row : Client) → looked ≡ ok row → Memᴰ row (clients.rows db)
    unfolding get_by_id
    looked_inside row m =
        (one_found text clients json cache (has_id text id) read "ClientRepository.GetByID" db row
          m).0

    -- When the status of a client was set to inactive with the answer 200 and the DEL of its cached
    -- logins arrived, the next login with its API key or its SMTP user name is refused, whatever was
    -- cached, whatever the password and whatever becomes of the login's calls, if the keys of the
    -- table are unique.
    pub set_client_status-IsRefused :
        (client : Client) (db' : clients.State) (s' : cache.State)
        → IsKeyed text clients json cache db
        → set_client_status text clients json cache read updated at arrived id (ok false) db s
          ≡ (answers 200 client, db', s')
        → (net : Calls) (bcrypt : Bcrypt) (password : String)
        → (is_ok (validate_api_key text clients json cache net client.api_key db' s').0 ≡ false)
          × (is_ok
                (validate_smtp_credentials text clients json cache bcrypt net client.smtp_username
                  password db' s').0
              ≡ false)
    unfolding is_answer data_or
    set_client_status-IsRefused client db' s' keyed e net bcrypt password =
        elim (Result-cases looked) [
          | inr (x, m) ↦ cc (unknown x m, ap (λ o. is_answer o.0) e)
          | inl (row, m) ↦ elim (Result-cases (written row).0) [
            | inr (x, m') ↦ cc (unwritten row x m m', ap (λ o. is_answer o.0) e)
            | inl (u, m') ↦
                let whole = sym (done row u m m') ∙ e in
                let same : record row { is_active = false } ≡ client =
                  ap (λ o. data_or (record row { is_active = false }) o.0) whole in
                let renamed =
                  rows-update_client text clients json cache updated at
                    (record row { is_active = false }) db u m' in
                rw (← same, ← ap (λ o. o.1) whole, ← ap (λ o. o.2) whole)
                  (
                    is_ok-eq-false text clients json cache _ (
                        refused_key text clients json cache db keyed row (looked_inside row m) at
                          (written row).1 renamed s net),
                    is_ok-eq-false text clients json cache _ (
                        refused_login text clients json cache db keyed row (looked_inside row m) at
                          (written row).1 renamed s net bcrypt password),
                  )
          ]
        ]
