-- ===== src/Api/Admin.antt =====
-- cmd/api/main.go: the handlers under /admin that change clients, and the list of clients.
use email_service_with_aws_s.Base.{
  ℕ, String, Bool, true, List, ℤ, pos, leb_ℤ, if◌then◌else◌, Bytes, Codec, Result, ok, err, Outcome,
}
use email_service_with_aws_s.Redis.Cache.{Cache}
use email_service_with_aws_s.Sql.{Table, Collation}
use email_service_with_aws_s.Repository.Models.{Client, client_clash, is_not_found, is_duplicate}
use email_service_with_aws_s.Repository.Clients.{get_by_id, list, create, update_client}
use email_service_with_aws_s.Auth.Snapshot.{ClientSnapshot}
use email_service_with_aws_s.Auth.{Bcrypt, generate_api_key, hash_password, invalidate_cache}
use email_service_with_aws_s.Api.{Answer, answers, fails}

abbrev internal {ℓ} : {A : Type ℓ} → Answer A
internal = fails 500 "INTERNAL_ERROR"

-- The bodies; ShouldBindJSON is the caller's.
pub record NewClient : Type 0 where
  pub name : String
  pub smtp_username : String
  pub hourly_limit : ℤ
  pub monthly_limit : ℤ

-- What crypto/rand and the calls give.
pub record Conditions : Type 0 where
  pub key_bytes : Result Bytes
  pub password_bytes : Result Bytes
  pub id : String
  pub at : ℕ
  pub created : Outcome

module _ (text : Collation) (clients : Table Client (client_clash text)) (bcrypt : Bcrypt)
    (encode : Bytes → String) (cost : ℤ) where
  -- if limit <= 0
  unfoldable pub limit_or : ℤ → ℤ → ℤ
  limit_or default_limit limit = if leb_ℤ limit (pos 0) then default_limit else limit

  unfoldable pub client_of : String → NewClient → String → String → Client
  unfolding limit_or
  client_of id r api_key password_hash = record {
    id = id;
    name = r.name;
    smtp_username = r.smtp_username;
    smtp_password_hash = password_hash;
    api_key = api_key;
    hourly_limit = limit_or (pos 100) r.hourly_limit;
    monthly_limit = limit_or (pos 10000) r.monthly_limit;
    is_active = true;
    created_at = 0;
    updated_at = 0;
  }

  created_answer : Client → String → Result (Unit {0}) → Answer (Client × String)
  created_answer client password (ok done) = answers 201 (client, password)
  created_answer client password (err e) =
      if is_duplicate e then fails 409 "DUPLICATE_CLIENT" else internal

  -- POST /admin/clients: the client and its password in plain text
  unfoldable pub create_client :
      Conditions → Result NewClient → clients.State → Answer (Client × String) × clients.State
  unfolding client_of created_answer
  create_client net (err e) s = (fails 400 "INVALID_REQUEST", s)
  create_client net (ok r) s = elim (generate_api_key encode net.key_bytes) [
    | err e ↦ (internal, s)
    | ok api_key ↦ elim net.password_bytes [
      | err e ↦ (internal, s)
      | ok b ↦ elim (hash_password bcrypt (encode b) cost) [
        | err e ↦ (internal, s)
        | ok hash ↦
            let client = client_of net.id r api_key hash in
            let (m, s') = create text clients net.created net.at client s in
            (created_answer client (encode b) m, s')
      ]
    ]
  ]

-- GET /admin/clients
unfoldable pub list_clients :
    (text : Collation) (clients : Table Client (client_clash text))
    → Outcome
    → clients.State
    → Answer (List Client)
list_clients text clients net s = elim (list text clients net s) [
  | err e ↦ internal
  | ok l ↦ answers 200 l
]

module _ (text : Collation) (clients : Table Client (client_clash text))
    (json : Codec ClientSnapshot) (cache : Cache json.Text) where
  -- PUT /admin/clients/:id/status, with what becomes of GetByID, Update and InvalidateCache
  unfoldable pub set_client_status :
      Outcome
      → Outcome
      → ℕ
      → Outcome
      → String
      → Result Bool
      → clients.State
      → cache.State
      → Answer Client × clients.State × cache.State
  set_client_status found updated at evicted id (err e) db s = (fails 400 "INVALID_REQUEST", db, s)
  set_client_status found updated at evicted id (ok is_active) db s =
      elim (get_by_id text clients found id db) [
        | err e ↦ (if is_not_found e then fails 404 "NOT_FOUND" else internal, db, s)
        | ok row ↦
            let client = record row { is_active = is_active } in
            let (m, db') = update_client text clients updated at client db in
            elim m [
              | err e ↦ (internal, db', s)
              | ok done ↦ (
                answers 200 client,
                db',
                (invalidate_cache text clients json cache evicted client s).1,
              )
            ]
      ]
