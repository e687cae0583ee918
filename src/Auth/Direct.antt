-- ===== src/Auth/Direct.antt =====
-- The cache as an optimisation: with it an API key is answered as without it.
use Prim.Native.String.{◌++◌}
use email_service_with_aws_s.Base.{
  ℕ, String, ◌≡◌, refl, sym, ap, ◌∙◌, true, false, some, Option-cases, Bool-cases, inl, inr,
  is_empty, if◌then◌else◌, Codec, Error, message, Result, Result-cases, ok, err, ok-injective,
  arrived,
}
use email_service_with_aws_s.Redis.Cache.{Cache}
use email_service_with_aws_s.Sql.{Table, Collation}
use email_service_with_aws_s.Repository.Models.{Client, client_clash}
use email_service_with_aws_s.Repository.Clients.{has_api_key, get_by_api_key}
use email_service_with_aws_s.Auth.Snapshot.{
  ClientSnapshot, to_snapshot, from_snapshot, from_snapshot-to_snapshot,
}
use email_service_with_aws_s.Auth.{
  api_key_cache_prefix, cache_ttl, Calls, get_from_cache, write_to_cache, validate_api_key, refusal,
}
use email_service_with_aws_s.Auth.Source.{get_from_cache-Hit}
use email_service_with_aws_s.Auth.Writes.{
  Route, key_of, test_of, same_test, Written, unwritten, set_to, write_to_cache-Written,
}
use email_service_with_aws_s.Auth.Writes.Route.{by_api_key}

module _ (text : Collation) (clients : Table Client (client_clash text))
    (json : Codec ClientSnapshot) (cache : Cache json.Text) where
  -- ValidateAPIKey without its cache.
  pub direct : String → clients.State → Result Client
  direct key db =
      if is_empty key
      then err (message "api key is empty")
      else elim (get_by_api_key text clients arrived key db) [
        | ok client ↦ ok client
        | err e ↦ err (refusal text clients json cache "ValidateAPIKey" "invalid api key" e)
      ]

  -- The cache holds nothing but what the database would answer.
  abbrev pub IsCoherent : clients.State → cache.State → Type 0
  IsCoherent db s =
      (t : ℕ) (route : Route) (name : String) (w : json.Text) (snap : ClientSnapshot)
      → cache.get t (key_of route name) s ≡ some w
      → json.unmarshal w ≡ ok snap
      → clients.get (test_of text route name) db ≡ some (from_snapshot snap)

  module _ (db : clients.State) (s : cache.State) (h : IsCoherent db s) (net : Calls)
      (reached : net.found ≡ arrived) (key : String) where
    abbrev cached : Result Client
    cached =
        get_from_cache text clients json cache net.looked_up net.at (api_key_cache_prefix ++ key) s

    abbrev row : Result Client
    row = get_by_api_key text clients arrived key db

    row_of_get :
        (client : Client) → clients.get (has_api_key text key) db ≡ some client → row ≡ ok client
    unfolding get_by_api_key
    row_of_get client m = rw m refl

    get_of_row :
        (client : Client) → row ≡ ok client → clients.get (has_api_key text key) db ≡ some client
    unfolding get_by_api_key
    get_of_row client e = elim (Option-cases (clients.get (has_api_key text key) db)) [
      | inl m ↦ cc (rw m at e)
      | inr (c, m) ↦ m ∙ ap some (ok-injective c client (rw m at e))
    ]

    row_of_hit : (client : Client) → cached ≡ ok client → row ≡ ok client
    row_of_hit client e =
        let hit =
          get_from_cache-Hit text clients json cache net.looked_up net.at
            (api_key_cache_prefix ++ key) client s e in
        row_of_get client
          (h net.at by_api_key key hit.w hit.snap hit.held hit.read ∙ ap some hit.same)

    answer_empty :
        is_empty key ≡ true
        → (validate_api_key text clients json cache net key db s).0 ≡ direct key db
    unfolding validate_api_key direct
    answer_empty m = rw (m, validate_api_key, direct) refl

    answer_hit :
        (c : Client)
        → is_empty key ≡ false
        → cached ≡ ok c
        → (validate_api_key text clients json cache net key db s).0 ≡ direct key db
    unfolding validate_api_key direct
    answer_hit c m e = let e' = row_of_hit c e in rw (m, e, e', validate_api_key, direct) refl

    answer_row :
        (x : Error) (c : Client)
        → is_empty key ≡ false
        → cached ≡ err x
        → row ≡ ok c
        → (validate_api_key text clients json cache net key db s).0 ≡ direct key db
    unfolding validate_api_key direct
    answer_row x c m e e' = rw (m, e, reached, e', validate_api_key, direct) refl

    answer_none :
        (x y : Error)
        → is_empty key ≡ false
        → cached ≡ err x
        → row ≡ err y
        → (validate_api_key text clients json cache net key db s).0 ≡ direct key db
    unfolding validate_api_key direct
    answer_none x y m e e' = rw (m, e, reached, e', validate_api_key, direct) refl

    answer-eq-direct : (validate_api_key text clients json cache net key db s).0 ≡ direct key db
    answer-eq-direct = elim (Bool-cases (is_empty key)) [
      | inl m ↦ answer_empty m
      | inr m ↦ elim (Result-cases cached) [
        | inl (c, e) ↦ answer_hit c m e
        | inr (x, e) ↦ elim (Result-cases row) [
          | inl (c, e') ↦ answer_row x c m e e'
          | inr (y, e') ↦ answer_none x y m e e'
        ]
      ]
    ]

    filled :
        (client : Client) (v : cache.State)
        → row ≡ ok client
        → Written text clients json cache net.at (api_key_cache_prefix ++ key) client s v
        → IsCoherent db v
    filled client v e (unwritten m) = rw m h
    filled client v e (set_to w m m') = λ t θ n w' snap g u.
        elim (cache.get-set net.at (api_key_cache_prefix ++ key) cache_ttl w s t (key_of θ n) w'
          (rw m' at g)) [
            | inr (other, kept) ↦ h t θ n w' snap kept u
            | inl (same_key, same, young) ↦
                let snapshot : snap ≡ to_snapshot client = ok-injective snap (to_snapshot client) (
                  sym u
                  ∙ ap json.unmarshal (sym same)
                  ∙ json.unmarshal-marshal (to_snapshot client) w m) in
                let client' : client ≡ from_snapshot snap =
                  sym (ap from_snapshot snapshot ∙ from_snapshot-to_snapshot client) in
                ap (λ f. clients.get f db) (sym (same_test text by_api_key θ key n same_key))
                ∙ get_of_row client e
                ∙ ap some client'
          ]

    after_empty :
        is_empty key ≡ true → (validate_api_key text clients json cache net key db s).1 ≡ s
    unfolding validate_api_key
    after_empty m = rw (m, validate_api_key) refl

    after_hit :
        (c : Client)
        → is_empty key ≡ false
        → cached ≡ ok c
        → (validate_api_key text clients json cache net key db s).1 ≡ s
    unfolding validate_api_key
    after_hit c m e = rw (m, e, validate_api_key) refl

    after_row :
        (x : Error) (c : Client)
        → is_empty key ≡ false
        → cached ≡ err x
        → row ≡ ok c
        → (validate_api_key text clients json cache net key db s).1
          ≡ write_to_cache text clients json cache net.cached net.at
              (api_key_cache_prefix ++ key)
              c
              s
    unfolding validate_api_key
    after_row x c m e e' = rw (m, e, reached, e', validate_api_key) refl

    after_none :
        (x y : Error)
        → is_empty key ≡ false
        → cached ≡ err x
        → row ≡ err y
        → (validate_api_key text clients json cache net key db s).1 ≡ s
    unfolding validate_api_key
    after_none x y m e e' = rw (m, e, reached, e', validate_api_key) refl

    after-IsCoherent : IsCoherent db (validate_api_key text clients json cache net key db s).1
    after-IsCoherent = elim (Bool-cases (is_empty key)) [
      | inl m ↦ rw (after_empty m) h
      | inr m ↦ elim (Result-cases cached) [
        | inl (c, e) ↦ rw (after_hit c m e) h
        | inr (x, e) ↦ elim (Result-cases row) [
          | inl (c, e') ↦ rw (after_row x c m e e') (
              filled c _ e' (
                write_to_cache-Written text clients json cache net.cached net.at
                  (api_key_cache_prefix ++ key) c s))
          | inr (y, e') ↦ rw (after_none x y m e e') h
        ]
      ]
    ]

    -- While the cache holds nothing but what the database would answer, an API key is answered as the
    -- database alone answers it, if the database is reached; and the cache stays so.
    pub validate_api_key-eq-direct :
        ((validate_api_key text clients json cache net key db s).0 ≡ direct key db)
        × IsCoherent db (validate_api_key text clients json cache net key db s).1
    validate_api_key-eq-direct = (answer-eq-direct, after-IsCoherent)
