-- ===== src/Api/Created.antt =====
-- What POST /admin/clients provides.
use email_service_with_aws_s.Base.{
  wrapped, ℕ, String, ◌≡◌, refl, sym, ap, ◌∙◌, true, false, ℤ, pos, ◌≤ℤ◌, arith, inl, inr, Bytes,
  Error, Result, Result-cases, ok, err, arrived,
}
use email_service_with_aws_s.Sql.{Table, Collation}
use email_service_with_aws_s.Repository.Models.{Client, client_clash}
use email_service_with_aws_s.Repository.Clients.{get_by_api_key, get_by_smtp_username, create}
use email_service_with_aws_s.Auth.{Bcrypt, generate_api_key, hash_password}
use email_service_with_aws_s.Api.{answers, is_answer, data_or}
use email_service_with_aws_s.Api.Admin.{NewClient, Conditions, limit_or, client_of, create_client}
use email_service_with_aws_s.Repository.ClientLaws.{stamped, create-Finds}

wrapped_ok :
    (context : String) (r : Result String) (a : String) → wrapped context r ≡ ok a → r ≡ ok a
wrapped_ok context (ok b) a e = e
wrapped_ok context (err x) a e = cc

module _ (text : Collation) (clients : Table Client (client_clash text)) where
  module _ (bcrypt : Bcrypt) (encode : Bytes → String) (cost : ℤ) (net : Conditions) where
    -- Both logins find the client, the password is that of its hash, and its limits are positive.
    pub record IsReady (client : Client) (password : String) (v : clients.State) : Type 0 where
      pub by_key :
          get_by_api_key text clients arrived client.api_key v
          ≡ ok (stamped text clients net.at client)
      pub by_name :
          get_by_smtp_username text clients arrived client.smtp_username v
          ≡ ok (stamped text clients net.at client)
      pub matches : bcrypt.matches client.smtp_password_hash password ≡ true
      pub hourly : pos 1 ≤ℤ client.hourly_limit
      pub monthly : pos 1 ≤ℤ client.monthly_limit

    limit_pos : (d l : ℤ) → pos 1 ≤ℤ d → pos 1 ≤ℤ limit_or text clients bcrypt encode cost d l
    unfolding limit_or
    limit_pos d l h = ground arith

    hashed :
        (password hash : String)
        → hash_password bcrypt password cost ≡ ok hash
        → bcrypt.matches hash password ≡ true
    unfolding hash_password
    hashed password hash e =
        bcrypt.matches-generate password _ hash (wrapped_ok "HashPassword" _ hash e)

    module _ (r : NewClient) (s : clients.State) where
      abbrev made : String → String → Client
      made api_key hash = client_of text clients bcrypt encode cost net.id r api_key hash

      no_key :
          (x : Error)
          → generate_api_key encode net.key_bytes ≡ err x
          → is_answer (create_client text clients bcrypt encode cost net (ok r) s).0 ≡ false
      unfolding create_client is_answer
      no_key x m = rw (m, create_client) refl

      no_password :
          (k : String) (x : Error)
          → generate_api_key encode net.key_bytes ≡ ok k
          → net.password_bytes ≡ err x
          → is_answer (create_client text clients bcrypt encode cost net (ok r) s).0 ≡ false
      unfolding create_client is_answer
      no_password k x m m' = rw (m, m', create_client) refl

      no_hash :
          (k : String) (b : Bytes) (x : Error)
          → generate_api_key encode net.key_bytes ≡ ok k
          → net.password_bytes ≡ ok b
          → hash_password bcrypt (encode b) cost ≡ err x
          → is_answer (create_client text clients bcrypt encode cost net (ok r) s).0 ≡ false
      unfolding create_client is_answer
      no_hash k b x m m' m'' = rw (m, m', m'', create_client) refl

      not_created :
          (k : String) (b : Bytes) (h : String) (x : Error)
          → generate_api_key encode net.key_bytes ≡ ok k
          → net.password_bytes ≡ ok b
          → hash_password bcrypt (encode b) cost ≡ ok h
          → (create text clients net.created net.at (made k h) s).0 ≡ err x
          → is_answer (create_client text clients bcrypt encode cost net (ok r) s).0 ≡ false
      unfolding create_client is_answer
      not_created k b h x m m' m'' m''' = rw (m, m', m'', m''', create_client) (ground arith)

      created :
          (k : String) (b : Bytes) (h : String) (u : Unit {0})
          → generate_api_key encode net.key_bytes ≡ ok k
          → net.password_bytes ≡ ok b
          → hash_password bcrypt (encode b) cost ≡ ok h
          → (create text clients net.created net.at (made k h) s).0 ≡ ok u
          → create_client text clients bcrypt encode cost net (ok r) s ≡ (
            answers 201 (made k h, encode b),
            (create text clients net.created net.at (made k h) s).1,
          )
      unfolding create_client
      created k b h u m m' m'' m''' = rw (m, m', m'', m''', create_client) refl

      ready :
          (k : String) (b : Bytes) (h : String) (u : Unit {0})
          → hash_password bcrypt (encode b) cost ≡ ok h
          → (create text clients net.created net.at (made k h) s).0 ≡ ok u
          → IsReady (made k h) (encode b) (create text clients net.created net.at (made k h) s).1
      unfolding client_of
      ready k b h u m m' =
          let (by_key, by_name) =
            create-Finds text clients net.created net.at (made k h) s u refl m' in
          record {
            by_key = by_key;
            by_name = by_name;
            matches = hashed (encode b) h m;
            hourly = limit_pos (pos 100) r.hourly_limit (omega arith);
            monthly = limit_pos (pos 10000) r.monthly_limit (omega arith);
          }

    -- When POST /admin/clients answers with a client and a password, the database finds the client by
    -- its API key and by its SMTP user name, the password is that of its hash, and its limits are
    -- positive.
    pub create_client-IsReady :
        (body : Result NewClient) (s v : clients.State) (code : ℕ) (client : Client)
        (password : String)
        → create_client text clients bcrypt encode cost net body s
          ≡ (answers code (client, password), v)
        → IsReady client password v
    unfolding is_answer data_or create_client
    create_client-IsReady (err x) s v code client password e = cc
    create_client-IsReady (ok r) s v code client password e =
        elim (Result-cases (generate_api_key encode net.key_bytes)) [
          | inr (x, m) ↦ cc (no_key r s x m, ap (λ o. is_answer o.0) e)
          | inl (k, m) ↦ elim (Result-cases net.password_bytes) [
            | inr (x, m') ↦ cc (no_password r s k x m m', ap (λ o. is_answer o.0) e)
            | inl (b, m') ↦ elim (Result-cases (hash_password bcrypt (encode b) cost)) [
              | inr (x, m'') ↦ cc (no_hash r s k b x m m' m'', ap (λ o. is_answer o.0) e)
              | inl (h, m'') ↦
                  elim (Result-cases (create text clients net.created net.at (made r s k h) s).0) [
                    | inr (x, m''') ↦
                        cc (not_created r s k b h x m m' m'' m''', ap (λ o. is_answer o.0) e)
                    | inl (u, m''') ↦
                        let whole = sym (created r s k b h u m m' m'' m''') ∙ e in
                        let pair = ap (λ o. data_or (made r s k h, encode b) o.0) whole in
                        rw (← ap (λ p. p.0) pair, ← ap (λ p. p.1) pair, ← ap (λ o. o.1) whole)
                          (ready r s k b h u m'' m''')
                  ]
            ]
          ]
        ]
