-- ===== src/Webhook/Signature.antt =====
-- internal/webhook/middleware.go: the check of the signature before Handle.
use email_service_with_aws_s.Base.{
  ℕ, String, Bool, ◌&&◌, ◌||◌, Option, none, some, List, [], ◌∷◌, ◌++◌, ◌==◌, is_empty, has_prefix,
  has_suffix, if◌then◌else◌, Bytes, bytes, message, Result, ok, err, wrap, wrapped,
}
use email_service_with_aws_s.Webhook.{SnsEnvelope, read_limited}

-- net/url, encoding/pem, crypto/x509, encoding/base64 and crypto/rsa
pub record Crypto : Type 1 where
  pub Cert : Type 0
  pub Key : Type 0
  -- the scheme and the host name
  pub parse_url : String → Result (String × String)
  pub pem_decode : Bytes → Option Bytes
  pub parse_certificate : Bytes → Result Cert
  -- none for a key that is not one of RSA
  pub rsa_key : Cert → Option Key
  pub decode_base64 : String → Result Bytes
  -- rsa.VerifyPKCS1v15 of the digest of a message, with SHA-1 or SHA-256, and a signature
  pub verify_sha1 : Key → Bytes → Bytes → Result (Unit {0})
  pub verify_sha256 : Key → Bytes → Bytes → Result (Unit {0})

-- kv
abbrev pub field : String → String → Bytes
field k v = bytes k ++ 10 ∷ bytes v ++ 10 ∷ []

unfoldable pub build_signable_message : SnsEnvelope → Bytes
build_signable_message env =
    if env.message_type == "Notification"
    then field "Message" env.message
      ++ field "MessageId" env.message_id
      ++ (if is_empty env.subject then [] else field "Subject" env.subject)
      ++ field "Timestamp" env.timestamp
      ++ field "TopicArn" env.topic_arn
      ++ field "Type" env.message_type
    else if env.message_type == "SubscriptionConfirmation"
        || env.message_type == "UnsubscribeConfirmation"
    then field "Message" env.message
      ++ field "MessageId" env.message_id
      ++ field "SubscribeURL" env.subscribe_url
      ++ field "Timestamp" env.timestamp
      ++ field "Token" env.token
      ++ field "TopicArn" env.topic_arn
      ++ field "Type" env.message_type
    else []

module _ (crypto : Crypto) where
  open crypto use {
    Cert, Key, parse_url, pem_decode, parse_certificate, rsa_key, decode_base64, verify_sha1,
    verify_sha256,
  }

  unfoldable pub is_sns_host : String → Bool
  is_sns_host host = has_prefix "sns." host && has_suffix ".amazonaws.com" host

  unfoldable pub validate_cert_url : String → Result (Unit {0})
  validate_cert_url raw_url =
      if is_empty raw_url
      then err (message "sns: empty SigningCertURL")
      else elim (parse_url raw_url) [
        | err e ↦ err (wrap "sns: invalid SigningCertURL" e)
        | ok (scheme, host) ↦
            if scheme == "https"
            then (if is_sns_host host
                then ok tt
                else err (message "sns: untrusted SigningCertURL host"))
            else err (message "sns: SigningCertURL must use HTTPS")
      ]

  -- certCache
  abbrev pub Certs : Type 0
  Certs = List (String × Cert)

  unfoldable pub load_cert : String → Certs → Option Cert
  load_cert url [] = none
  load_cert url ((u, c) ∷ l) = let rest = load_cert url l in if u == url then some c else rest

  unfoldable pub read_cert : Bytes → Result Cert
  read_cert pem = elim (pem_decode pem) [
    | none ↦ err (message "sns: no PEM block in cert response")
    | some block ↦ wrapped "sns: parse cert" (parse_certificate block)
  ]

  -- `served` is the body that http.Get reads from an address.
  unfoldable pub fetch_cert : (String → Result Bytes) → String → Certs → Result Cert × Certs
  fetch_cert served url certs = elim (load_cert url certs) [
    | some c ↦ (ok c, certs)
    | none ↦ elim (served url) [
      | err e ↦ (err (wrap "sns: download cert" e), certs)
      | ok pem ↦ elim (read_cert pem) [ err e ↦ (err e, certs) | ok c ↦ (ok c, (url, c) ∷ certs) ]
    ]
  ]

  unfoldable pub check_signature : SnsEnvelope → Cert → Result (Unit {0})
  check_signature env cert = elim (rsa_key cert) [
    | none ↦ err (message "sns: signing cert has no RSA public key")
    | some key ↦ elim (decode_base64 env.signature) [
      | err e ↦ err (wrap "sns: decode signature" e)
      | ok sig ↦
          if env.signature_version == "1"
          then verify_sha1 key (build_signable_message env) sig
          else if env.signature_version == "2"
          then verify_sha256 key (build_signable_message env) sig
          else err (message "sns: unsupported SignatureVersion")
    ]
  ]

  unfoldable pub verify_sns_signature :
      (String → Result Bytes) → SnsEnvelope → Certs → Result (Unit {0}) × Certs
  verify_sns_signature served env certs = elim (validate_cert_url env.signing_cert_url) [
    | err e ↦ (err e, certs)
    | ok trusted ↦
        let (r, certs') = fetch_cert served env.signing_cert_url certs in
        elim r [ err e ↦ (err e, certs') | ok cert ↦ (check_signature env cert, certs') ]
  ]

  -- The status that ends the request, none if it goes on; `envelope` is json.Unmarshal.
  unfoldable pub sns_verify :
      (Bytes → Result SnsEnvelope)
      → (String → Result Bytes)
      → Result Bytes
      → Certs
      → Option ℕ × Certs
  sns_verify envelope served (err e) certs = (some 400, certs)
  sns_verify envelope served (ok body) certs = elim (envelope (read_limited body)) [
    | err e ↦ (some 400, certs)
    | ok env ↦
        let (r, certs') = verify_sns_signature served env certs in
        elim r [ err e ↦ (some 403, certs') | ok done ↦ (none, certs') ]
  ]
