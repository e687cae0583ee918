-- ===== src/Auth.antt =====
-- internal/auth: the clients that an API key or an SMTP login names, with the cache of
-- clients in Redis.
pub mod Snapshot
pub mod Source
pub mod Writes
pub mod Fresh
pub mod Recent
pub mod Direct
use Prim.Native.String.{◌++◌}
use email_service_with_aws_s.Base.{
  ℕ, String, ◌≡◌, true, Bool, Option, none, some, [], ◌∷◌, is_empty, ◌||◌, ℤ, pos, leb_ℤ, not,
  Bytes, if◌then◌else◌, Codec, Error, message, wrap, Result, ok, err, Outcome, attempt_, query,
  wrapped, map_ok,
}
use email_service_with_aws_s.Redis.Cache.{Cache}
use email_service_with_aws_s.Sql.{Table, Collation}
use email_service_with_aws_s.Repository.Models.{Client, client_clash, is_not_found}
use email_service_with_aws_s.Repository.Clients.{get_by_api_key, get_by_smtp_username}
use email_service_with_aws_s.Auth.Snapshot.{ClientSnapshot, to_snapshot, from_snapshot}

abbrev pub api_key_cache_prefix : String
api_key_cache_prefix = "auth:client:apikey:"

abbrev pub smtp_cache_prefix : String
smtp_cache_prefix = "auth:client:smtp:"

-- five minutes, in nanoseconds
abbrev pub cache_ttl : ℕ
cache_ttl = 300000000000

abbrev pub api_key_prefix : String
api_key_prefix = "em_live_"

-- golang.org/x/crypto/bcrypt
pub record Bcrypt : Type 0 where
  -- CompareHashAndPassword(hash, password) == nil
  pub matches : String → String → Bool
  -- GenerateFromPassword at a cost
  pub generate : String → ℤ → Result String
  pub matches-generate :
      (password : String) (cost : ℤ) (hash : String)
      → generate password cost ≡ ok hash
      → matches hash password ≡ true

-- cost < bcrypt.MinCost || cost > bcrypt.MaxCost gives bcrypt.DefaultCost
unfoldable pub hash_password : Bcrypt → String → ℤ → Result String
hash_password bcrypt password cost =
    let used = if not (leb_ℤ (pos 4) cost) || not (leb_ℤ cost (pos 31)) then pos 10 else cost in
    wrapped "HashPassword" (bcrypt.generate password used)

-- `random` is what rand.Read gives for 24 bytes, `encode` base64.RawURLEncoding.
unfoldable pub generate_api_key : (Bytes → String) → Result Bytes → Result String
generate_api_key encode random =
    wrapped "GenerateAPIKey" (map_ok (λ b. api_key_prefix ++ encode b) random)

-- helpers.go: `encode` is hex.EncodeToString.
unfoldable pub generate_random_hex : (Bytes → String) → Result Bytes → Result String
generate_random_hex encode random = wrapped "generateRandomHex" (map_ok encode random)

-- apikey.go: what APIKeyMiddleware stored in the context of the request.
unfoldable pub client_from_context : Option Client → Result Client
client_from_context none =
    err (message "client not found in context: middleware may not be applied")
client_from_context (some client) = ok client

-- What the clock shows, and what becomes of the calls of GET, SELECT and SET.
pub record Calls : Type 0 where
  pub at : ℕ
  pub looked_up : Outcome
  pub found : Outcome
  pub cached : Outcome

module _ (text : Collation) (clients : Table Client (client_clash text))
    (json : Codec ClientSnapshot) (cache : Cache json.Text) where
  open json use {Text, marshal, unmarshal}

  unfoldable pub decode_cached : Option Text → Result Client
  decode_cached none = err (message "redis: nil")
  decode_cached (some t) = wrapped "unmarshal cached client" (map_ok from_snapshot (unmarshal t))

  unfoldable pub get_from_cache : Outcome → ℕ → String → cache.State → Result Client
  unfolding decode_cached
  get_from_cache net at key s = elim (query net (cache.get at key s)) [
    | err e ↦ err e
    | ok found ↦ decode_cached found
  ]

  unfoldable pub write_to_cache : Outcome → ℕ → String → Client → cache.State → cache.State
  write_to_cache net at key client s = elim (marshal (to_snapshot client)) [
    | err e ↦ s
    | ok data' ↦ (attempt_ net (cache.set at key cache_ttl data') s).1
  ]

  -- errors.Is(err, repository.ErrNotFound) has its own message.
  abbrev pub refusal : String → String → Error → Error
  refusal context unknown e = if is_not_found e then message unknown else wrap context e

  unfoldable pub validate_api_key :
      Calls → String → clients.State → cache.State → Result Client × cache.State
  validate_api_key net api_key db s =
      let key = api_key_cache_prefix ++ api_key in
      if is_empty api_key
      then (err (message "api key is empty"), s)
      else elim (get_from_cache net.looked_up net.at key s) [
        | ok client ↦ (ok client, s)
        | err e ↦ elim (get_by_api_key text clients net.found api_key db) [
          | err e' ↦ (err (refusal "ValidateAPIKey" "invalid api key" e'), s)
          | ok client ↦ (ok client, write_to_cache net.cached net.at key client s)
        ]
      ]

  -- The client that the cache or the database has for a user name.
  unfoldable pub find_smtp_client :
      Calls → String → clients.State → cache.State → Result Client × cache.State
  find_smtp_client net username db s =
      let key = smtp_cache_prefix ++ username in
      elim (get_from_cache net.looked_up net.at key s) [
        | ok client ↦ (ok client, s)
        | err e ↦ elim (get_by_smtp_username text clients net.found username db) [
          | err e' ↦ (err (refusal "ValidateSmtpCredentials" "invalid smtp credentials" e'), s)
          | ok client ↦ (ok client, write_to_cache net.cached net.at key client s)
        ]
      ]

  unfoldable pub check_password : Bcrypt → String → Result Client → Result Client
  check_password bcrypt password (err e) = err e
  check_password bcrypt password (ok client) =
      if bcrypt.matches client.smtp_password_hash password
      then ok client
      else err (message "invalid smtp credentials")

  unfoldable pub validate_smtp_credentials :
      Bcrypt → Calls → String → String → clients.State → cache.State → Result Client × cache.State
  unfolding find_smtp_client check_password
  validate_smtp_credentials bcrypt net username password db s =
      if is_empty username || is_empty password
      then (err (message "username and password are required"), s)
      else (
        check_password bcrypt password (find_smtp_client net username db s).0,
        (find_smtp_client net username db s).1,
      )

  unfoldable pub invalidate_cache : Outcome → Client → cache.State → Result (Unit {0}) × cache.State
  invalidate_cache net client s =
      let keys =
        (api_key_cache_prefix ++ client.api_key)
        ∷ (smtp_cache_prefix ++ client.smtp_username)
        ∷ [] in
      (
        wrapped "InvalidateCache" (attempt_ net (cache.del keys) s).0,
        (attempt_ net (cache.del keys) s).1,
      )
