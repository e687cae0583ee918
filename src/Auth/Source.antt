-- ===== src/Auth/Source.antt =====
-- Where the client of an accepted key or login comes from.
use Prim.Native.String.{◌++◌}
use email_service_with_aws_s.Base.{
  ℕ, is_empty, String, ◌≡◌, refl, sym, ap, ◌∙◌, true, false, none, some, Option, Bool-cases, ◌||◌,
  inl, inr, ◌⊎◌, Codec, Error, Result, Result-cases, ok, err, message, ok-injective, Outcome,
  arrived, lost, late,
}
use email_service_with_aws_s.Redis.Cache.{Cache}
use email_service_with_aws_s.Sql.{Table, Collation}
use email_service_with_aws_s.Repository.Models.{Client, client_clash}
use email_service_with_aws_s.Repository.Clients.{get_by_api_key, get_by_smtp_username}
use email_service_with_aws_s.Auth.Snapshot.{ClientSnapshot, from_snapshot}
use email_service_with_aws_s.Auth.{
  api_key_cache_prefix, smtp_cache_prefix, Bcrypt, Calls, decode_cached, get_from_cache,
  validate_api_key, find_smtp_client, check_password, refusal, validate_smtp_credentials,
}

module _ (text : Collation) (clients : Table Client (client_clash text))
    (json : Codec ClientSnapshot) (cache : Cache json.Text) where
  -- What is in the cache, when it answers.
  pub record Hit (at : ℕ) (key : String) (client : Client) (s : cache.State) : Type 0 where
    pub w : json.Text
    pub snap : ClientSnapshot
    pub held : cache.get at key s ≡ some w
    pub read : json.unmarshal w ≡ ok snap
    pub same : from_snapshot snap ≡ client

  decoded :
      (at : ℕ) (key : String) (client : Client) (s : cache.State) (o : Option json.Text)
      → cache.get at key s ≡ o
      → decode_cached text clients json cache o ≡ ok client
      → Hit at key client s
  unfolding decode_cached
  decoded at key client s none g e = cc
  decoded at key client s (some w) g e = elim (Result-cases (json.unmarshal w)) [
    | inr (x, m) ↦ cc (m, e)
    | inl (snap, m) ↦ record {
      w = w;
      snap = snap;
      held = g;
      read = m;
      same = ok-injective (from_snapshot snap) client (rw m at e);
    }
  ]

  pub get_from_cache-Hit :
      (net : Outcome) (at : ℕ) (key : String) (client : Client) (s : cache.State)
      → get_from_cache text clients json cache net at key s ≡ ok client
      → Hit at key client s
  unfolding get_from_cache
  get_from_cache-Hit arrived at key client s e = decoded at key client s (cache.get at key s) refl e
  get_from_cache-Hit (lost x) at key client s e = cc
  get_from_cache-Hit (late x) at key client s e = cc

  module _ (db : clients.State) (s : cache.State) (net : Calls) where
    module _ (key : String) where
      abbrev pub cached : Result Client
      cached =
          get_from_cache text clients json cache net.looked_up net.at (api_key_cache_prefix ++ key)
            s

      abbrev pub row : Result Client
      row = get_by_api_key text clients net.found key db

      no_key :
          (is_empty key) ≡ true
          → (validate_api_key text clients json cache net key db s).0
            ≡ err (message "api key is empty")
      unfolding validate_api_key
      no_key m = rw (m, validate_api_key) refl

      from_cache :
          (c : Client)
          → (is_empty key) ≡ false
          → cached ≡ ok c
          → (validate_api_key text clients json cache net key db s).0 ≡ ok c
      unfolding validate_api_key
      from_cache c m h = rw (m, h, validate_api_key) refl

      from_row :
          (x : Error) (c : Client)
          → (is_empty key) ≡ false
          → cached ≡ err x
          → row ≡ ok c
          → (validate_api_key text clients json cache net key db s).0 ≡ ok c
      unfolding validate_api_key
      from_row x c m h h' = rw (m, h, h', validate_api_key) refl

      no_row :
          (x y : Error)
          → is_empty key ≡ false
          → cached ≡ err x
          → row ≡ err y
          → (validate_api_key text clients json cache net key db s).0
            ≡ err (refusal text clients json cache "ValidateAPIKey" "invalid api key" y)
      unfolding validate_api_key
      no_row x y m h h' = rw (m, h, h', validate_api_key) refl

      -- An accepted client comes from the cache or from the database.
      pub validate_api_key-source :
          (client : Client)
          → (validate_api_key text clients json cache net key db s).0 ≡ ok client
          → (cached ≡ ok client) ⊎ (row ≡ ok client)
      validate_api_key-source client e = elim (Bool-cases (is_empty key)) [
        | inl m ↦ cc (no_key m, e)
        | inr m ↦ elim (Result-cases cached) [
          | inl (c, h) ↦ inl (h ∙ sym (from_cache c m h) ∙ e)
          | inr (x, h) ↦ elim (Result-cases row) [
            | inl (c, h') ↦ inr (h' ∙ sym (from_row x c m h h') ∙ e)
            | inr (y, h') ↦ cc (no_row x y m h h', e)
          ]
        ]
      ]

    module _ (username : String) where
      abbrev pub cached_user : Result Client
      cached_user =
          get_from_cache text clients json cache net.looked_up net.at
            (smtp_cache_prefix ++ username) s

      abbrev pub user_row : Result Client
      user_row = get_by_smtp_username text clients net.found username db

      user_from_cache :
          (c : Client)
          → cached_user ≡ ok c
          → (find_smtp_client text clients json cache net username db s).0 ≡ ok c
      unfolding find_smtp_client
      user_from_cache c h = rw (h, find_smtp_client) refl

      user_from_row :
          (x : Error) (c : Client)
          → cached_user ≡ err x
          → user_row ≡ ok c
          → (find_smtp_client text clients json cache net username db s).0 ≡ ok c
      unfolding find_smtp_client
      user_from_row x c h h' = rw (h, h', find_smtp_client) refl

      no_user :
          (x y : Error)
          → cached_user ≡ err x
          → user_row ≡ err y
          → (find_smtp_client text clients json cache net username db s).0
            ≡ err (
                refusal text clients json cache "ValidateSmtpCredentials" "invalid smtp credentials"
                  y)
      unfolding find_smtp_client
      no_user x y h h' = rw (h, h', find_smtp_client) refl

      user_source :
          (client : Client)
          → (find_smtp_client text clients json cache net username db s).0 ≡ ok client
          → (cached_user ≡ ok client) ⊎ (user_row ≡ ok client)
      user_source client e = elim (Result-cases cached_user) [
        | inl (c, h) ↦ inl (h ∙ sym (user_from_cache c h) ∙ e)
        | inr (x, h) ↦ elim (Result-cases user_row) [
          | inl (c, h') ↦ inr (h' ∙ sym (user_from_row x c h h') ∙ e)
          | inr (y, h') ↦ cc (no_user x y h h', e)
        ]
      ]

      module _ (bcrypt : Bcrypt) (password : String) where
        checked :
            (r : Result Client) (client : Client)
            → check_password text clients json cache bcrypt password r ≡ ok client
            → (r ≡ ok client) × (bcrypt.matches client.smtp_password_hash password ≡ true)
        unfolding check_password
        checked (err x) client e = cc
        checked (ok c) client e = elim (Bool-cases (bcrypt.matches c.smtp_password_hash password)) [
          | inr m ↦ cc (rw m at e)
          | inl m ↦
              let same : c ≡ client = ok-injective c client (rw m at e) in
              (ap ok same, ap (λ k. bcrypt.matches k.smtp_password_hash password) (sym same) ∙ m)
        ]

        blank :
            (is_empty username || is_empty password) ≡ true
            → (validate_smtp_credentials text clients json cache bcrypt net username password db
                s).0
              ≡ err (message "username and password are required")
        unfolding validate_smtp_credentials
        blank m = rw (m, validate_smtp_credentials) refl

        given :
            (is_empty username || is_empty password) ≡ false
            → (validate_smtp_credentials text clients json cache bcrypt net username password db
                s).0
              ≡ check_password text clients json cache bcrypt password
                  (find_smtp_client text clients json cache net username db s).0
        unfolding validate_smtp_credentials
        given m = rw (m, validate_smtp_credentials) refl

        pub validate_smtp_credentials-source :
            (client : Client)
            → (validate_smtp_credentials text clients json cache bcrypt net username password db
                s).0
              ≡ ok client
            → ((cached_user ≡ ok client) ⊎ (user_row ≡ ok client))
              × (bcrypt.matches client.smtp_password_hash password ≡ true)
        validate_smtp_credentials-source client e =
            elim (Bool-cases (is_empty username || is_empty password)) [
              | inl m ↦ cc (blank m, e)
              | inr m ↦
                  let (same, right) =
                    checked (find_smtp_client text clients json cache net username db s).0 client
                      (sym (given m) ∙ e) in
                  (user_source client same, right)
            ]
