-- ===== src/Auth/Recent.antt =====
-- How old the client can be that an authenticator answers with.
use email_service_with_aws_s.Base.{ℕ, ◌≤◌, String, ◌≡◌, true, inl, inr, arith, Codec, ok}
use email_service_with_aws_s.Redis.Cache.{Cache}
use email_service_with_aws_s.Sql.{Table, Collation}
use email_service_with_aws_s.Repository.Models.{Client, client_clash}
use email_service_with_aws_s.Auth.Snapshot.{ClientSnapshot}
use email_service_with_aws_s.Auth.{
  Bcrypt, Calls, get_from_cache, validate_api_key, validate_smtp_credentials,
}
use email_service_with_aws_s.Auth.Fresh.{WasActive, Reaches, Reaches-IsFresh}
use email_service_with_aws_s.Auth.Writes.{Route, look, key_of, found}
use email_service_with_aws_s.Auth.Source.{
  get_from_cache-Hit, validate_api_key-source, validate_smtp_credentials-source,
}
use email_service_with_aws_s.Auth.Writes.Route.{by_api_key, by_smtp_username}

module _ (text : Collation) (clients : Table Client (client_clash text))
    (json : Codec ClientSnapshot) (cache : Cache json.Text) where
  module _ (db : ℕ → clients.State) (patience now : ℕ) (s : cache.State)
      (r : Reaches text clients json cache db patience now s) (net : Calls) (l : now ≤ net.at) where
    hit_active :
        (route : Route) (name : String) (client : Client)
        → get_from_cache text clients json cache net.looked_up net.at (key_of route name) s
          ≡ ok client
        → WasActive text clients json cache db patience route name client net.at
    hit_active route name client e =
        let hit =
          get_from_cache-Hit text clients json cache net.looked_up net.at (key_of route name) client
            s e in
        rw (← hit.same) (
          Reaches-IsFresh text clients json cache db patience now s r net.at route name hit.w
            hit.snap l hit.held hit.read)

    row_active :
        (route : Route) (name : String) (client : Client)
        → look text clients json cache route net.found name (db net.at) ≡ ok client
        → WasActive text clients json cache db patience route name client net.at
    row_active route name client e =
        let (inside, test) =
          found text clients json cache route net.found name (db net.at) client e in
        record {
          then' = net.at;
          past = omega arith;
          recent = omega arith;
          in_table = inside;
          active = test;
        }

    -- The client that an API key names was in the table with this key, and active, less than the five
    -- minutes of the cache and one request before.
    pub validate_api_key-WasActive :
        (key : String) (client : Client)
        → (validate_api_key text clients json cache net key (db net.at) s).0 ≡ ok client
        → WasActive text clients json cache db patience by_api_key key client net.at
    validate_api_key-WasActive key client e =
        elim (validate_api_key-source text clients json cache (db net.at) s net key client e) [
          | inl h ↦ hit_active by_api_key key client h
          | inr h ↦ row_active by_api_key key client h
        ]

    -- The client of an SMTP login was in the table with this user name, and active, less than the
    -- five minutes of the cache and one request before; and the password is that of its hash, whether
    -- or not the client was in the cache.
    pub validate_smtp_credentials-WasActive :
        (bcrypt : Bcrypt) (username password : String) (client : Client)
        → (validate_smtp_credentials text clients json cache bcrypt net username password
            (db net.at)
            s).0
          ≡ ok client
        → WasActive text clients json cache db patience by_smtp_username username client net.at
          × (bcrypt.matches client.smtp_password_hash password ≡ true)
    validate_smtp_credentials-WasActive bcrypt username password client e =
        let (source, right) =
          validate_smtp_credentials-source text clients json cache (db net.at) s net username bcrypt
            password client e in
        elim source [
          | inl h ↦ (hit_active by_smtp_username username client h, right)
          | inr h ↦ (row_active by_smtp_username username client h, right)
        ]
