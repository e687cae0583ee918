-- ===== src/Webhook/Certificates.antt =====
-- When the signature of a message of SNS is accepted.
use email_service_with_aws_s.Base.{
  ℕ, String, ◌≡◌, ap, ◌∙◌, true, some, Option-cases, Bool-cases, some-injective, [], ◌∷◌, ◌==◌,
  eq_iff, inl, inr, arith, is_empty, has_prefix, has_suffix, All, Bytes, Result, Result-cases, ok,
  ok-injective,
}
use email_service_with_aws_s.Webhook.{SnsEnvelope}
use email_service_with_aws_s.Webhook.Signature.{
  Crypto, Certs, build_signable_message, is_sns_host, validate_cert_url, load_cert, read_cert,
  fetch_cert, check_signature, verify_sns_signature,
}

-- `served t url` is what a GET of an address answers at the time `t`.
module _ (crypto : Crypto) (served : ℕ → String → Result Bytes) where
  open crypto use {Cert, Key, parse_url, rsa_key, decode_base64, verify_sha1, verify_sha256}

  -- The address is one of https, on a host that begins with sns. and ends with .amazonaws.com.
  pub record IsTrusted (url : String) : Type 0 where
    pub host : String
    pub parsed : parse_url url ≡ ok ("https", host)
    pub begins : has_prefix "sns." host ≡ true
    pub ends : has_suffix ".amazonaws.com" host ≡ true

  -- The address has served the certificate.
  pub record IsIssued (url : String) (cert : Cert) : Type 0 where
    pub at : ℕ
    pub pem : Bytes
    pub answer : served at url ≡ ok pem
    pub parsed : read_cert crypto pem ≡ ok cert

  -- The key of the certificate verifies the signature of the message's fields.
  pub data IsSigned (env : SnsEnvelope) (cert : Cert) : Type 0 where
    by_sha1 :
        (key : Key) (sig : Bytes) (u : Unit {0})
        → rsa_key cert ≡ some key
        → decode_base64 env.signature ≡ ok sig
        → verify_sha1 key (build_signable_message env) sig ≡ ok u
        → IsSigned env cert
    by_sha256 :
        (key : Key) (sig : Bytes) (u : Unit {0})
        → rsa_key cert ≡ some key
        → decode_base64 env.signature ≡ ok sig
        → verify_sha256 key (build_signable_message env) sig ≡ ok u
        → IsSigned env cert

  pub record IsGenuine (env : SnsEnvelope) : Type 0 where
    pub cert : Cert
    pub trusted : IsTrusted env.signing_cert_url
    pub issued : IsIssued env.signing_cert_url cert
    pub signed : IsSigned env cert

  -- Every certificate in the cache was served by the address that it is kept under.
  abbrev pub AreIssued : Certs crypto → Type 0
  AreIssued = All (λ e. IsIssued e.0 e.1)

  host-IsTrusted :
      (url scheme host : String)
      → parse_url url ≡ ok (scheme, host)
      → (scheme == "https") ≡ true
      → is_sns_host crypto host ≡ true
      → IsTrusted url
  unfolding is_sns_host
  host-IsTrusted url scheme host p s h = record {
    host = host;
    parsed = p ∙ ap (λ x. ok (x, host)) ((eq_iff scheme "https").0 s);
    begins = ground (arith, h);
    ends = ground (arith, h);
  }

  validated : (url : String) (u : Unit {0}) → validate_cert_url crypto url ≡ ok u → IsTrusted url
  unfolding validate_cert_url
  validated url u e = elim (Bool-cases (is_empty url)) [
    | inl m ↦ cc (rw (m, validate_cert_url) at e)
    | inr m ↦ elim (Result-cases (parse_url url)) [
      | inr (x, m') ↦ cc (rw (m, m', validate_cert_url) at e)
      | inl (p, m') ↦ elim (Bool-cases (p.0 == "https")) [
        | inr m'' ↦ cc (rw (m, m', m'', validate_cert_url) at e)
        | inl m'' ↦ elim (Bool-cases (is_sns_host crypto p.1)) [
          | inr h ↦ cc (rw (m, m', m'', h, validate_cert_url) at e)
          | inl h ↦ host-IsTrusted url p.0 p.1 m' m'' h
        ]
      ]
    ]
  ]

  loaded :
      (url : String) (c : Cert) (certs : Certs crypto)
      → AreIssued certs
      → load_cert crypto url certs ≡ some c
      → IsIssued url c
  unfolding load_cert
  loaded url c [] a e = cc
  loaded url c ((u, d) ∷ l) (i, a) e = elim (Bool-cases (u == url)) [
    | inl m ↦
        let same : u ≡ url = (eq_iff u url).0 m in
        let cert : d ≡ c = some-injective d c (rw m at e) in rw (← same, ← cert) i
    | inr m ↦ loaded url c l a (rw m at e)
  ]

  module _ (now : ℕ) (url : String) (certs : Certs crypto) (a : AreIssued certs) where
    fetched : (c : Cert) → (fetch_cert crypto (served now) url certs).0 ≡ ok c → IsIssued url c
    unfolding fetch_cert
    fetched c e = elim (Option-cases (load_cert crypto url certs)) [
      | inr (d, m) ↦ loaded url c certs a (m ∙ ap some (ok-injective d c (rw (m, fetch_cert) at e)))
      | inl m ↦ elim (Result-cases (served now url)) [
        | inr (x, m') ↦ cc (rw (m, m', fetch_cert) at e)
        | inl (pem, m') ↦ elim (Result-cases (read_cert crypto pem)) [
          | inr (x, m'') ↦ cc (rw (m, m', m'', fetch_cert) at e)
          | inl (d, m'') ↦ record {
            at = now;
            pem = pem;
            answer = m';
            parsed = m'' ∙ ap ok (ok-injective d c (rw (m, m', m'', fetch_cert) at e));
          }
        ]
      ]
    ]

    fetch_cert-AreIssued : AreIssued (fetch_cert crypto (served now) url certs).1
    unfolding fetch_cert
    fetch_cert-AreIssued = elim (Option-cases (load_cert crypto url certs)) [
      | inr (d, m) ↦ rw (m, fetch_cert) a
      | inl m ↦ elim (Result-cases (served now url)) [
        | inr (x, m') ↦ rw (m, m', fetch_cert) a
        | inl (pem, m') ↦ elim (Result-cases (read_cert crypto pem)) [
          | inr (x, m'') ↦ rw (m, m', m'', fetch_cert) a
          | inl (d, m'') ↦
              rw (m, m', m'', fetch_cert)
                (record { at = now; pem = pem; answer = m'; parsed = m'' }, a)
        ]
      ]
    ]

  checked :
      (env : SnsEnvelope) (cert : Cert) (u : Unit {0})
      → check_signature crypto env cert ≡ ok u
      → IsSigned env cert
  unfolding check_signature
  checked env cert u e = elim (Option-cases (rsa_key cert)) [
    | inl m ↦ cc (rw (m, check_signature) at e)
    | inr (key, m) ↦ elim (Result-cases (decode_base64 env.signature)) [
      | inr (x, m') ↦ cc (rw (m, m', check_signature) at e)
      | inl (sig, m') ↦ elim (Bool-cases (env.signature_version == "1")) [
        | inl one ↦ by_sha1 key sig u m m' (rw (m, m', one, check_signature) at e)
        | inr other ↦ elim (Bool-cases (env.signature_version == "2")) [
          | inl two ↦ by_sha256 key sig u m m' (rw (m, m', other, two, check_signature) at e)
          | inr unknown ↦ cc (rw (m, m', other, unknown, check_signature) at e)
        ]
      ]
    ]
  ]

  module _ (now : ℕ) (env : SnsEnvelope) (certs : Certs crypto) (a : AreIssued certs) where
    pub verified :
        (u : Unit {0})
        → (verify_sns_signature crypto (served now) env certs).0 ≡ ok u
        → IsGenuine env
    unfolding verify_sns_signature
    verified u e = elim (Result-cases (validate_cert_url crypto env.signing_cert_url)) [
      | inr (x, m) ↦ cc (rw (m, verify_sns_signature) at e)
      | inl (t, m) ↦
          elim (Result-cases (fetch_cert crypto (served now) env.signing_cert_url certs).0) [
            | inr (x, m') ↦ cc (rw (m, m', verify_sns_signature) at e)
            | inl (c, m') ↦ record {
              cert = c;
              trusted = validated env.signing_cert_url t m;
              issued = fetched now env.signing_cert_url certs a c m';
              signed = checked env c u (rw (m, m', verify_sns_signature) at e);
            }
          ]
    ]

    pub verify-AreIssued : AreIssued (verify_sns_signature crypto (served now) env certs).1
    unfolding verify_sns_signature
    verify-AreIssued = elim (Result-cases (validate_cert_url crypto env.signing_cert_url)) [
      | inr (x, m) ↦ rw (m, verify_sns_signature) a
      | inl (t, m) ↦
          let kept = fetch_cert-AreIssued now env.signing_cert_url certs a in
          elim (Result-cases (fetch_cert crypto (served now) env.signing_cert_url certs).0) [
            | inr (x, m') ↦ rw (m, m', verify_sns_signature) kept
            | inl (c, m') ↦ rw (m, m', verify_sns_signature) kept
          ]
    ]
