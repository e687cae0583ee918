-- ===== src/Tracking/Tokens.antt =====
-- internal/tracking/tracker.go: signed tokens, as texts.
use Prim.Native.Char.{code}
use Prim.Native.String.{◌++◌}
use email_service_with_aws_s.Base.{
  String, ◌≡◌, ◌||◌, Bool, false, Option, none, some, nat_eq, if◌then◌else◌, Bytes, bytes_eq,
  message, Result, ok, err, wrap, wrapped,
}
use email_service_with_aws_s.Config.Env.{trim_slashes}

pub record Token : Type 0 where
  pub log_id : String
  pub client_id : String
  pub url : String

abbrev pub has_dot : String → Bool
has_dot String.[] = false
has_dot (String.◌∷◌ c s) = nat_eq (code c) b'.' || has_dot s

-- encoding/json on Token, base64.RawURLEncoding and HMAC with SHA-256
pub record Signer : Type 0 where
  pub marshal : Token → Result Bytes
  pub unmarshal : Bytes → Result Token
  pub unmarshal-marshal : (t : Token) (b : Bytes) → marshal t ≡ ok b → unmarshal b ≡ ok t
  pub encode : Bytes → String
  pub decode : String → Result Bytes
  pub encoded_no_dot : (b : Bytes) → has_dot (encode b) ≡ false
  pub decode-encode : (b : Bytes) → decode (encode b) ≡ ok b
  -- the digest of a text under a secret
  pub hmac : Bytes → String → Bytes

-- strings.SplitN(s, ".", 2) with two parts
unfoldable pub split_at_dot : String → Option (String × String)
split_at_dot String.[] = none
split_at_dot (String.◌∷◌ c s) =
    let rest = split_at_dot s in
    if nat_eq (code c) b'.'
    then some ("", s)
    else elim rest [ none ↦ none | some (a, b) ↦ some (String.◌∷◌ c a, b) ]

pub record Tracker : Type 0 where
  pub secret : Bytes
  pub base_url : String
  pub open_path : String
  pub click_path : String

unfoldable pub new_tracker : Bytes → String → String → String → Tracker
new_tracker secret base_url open_path click_path = record {
  secret = secret;
  base_url = trim_slashes base_url;
  open_path = open_path;
  click_path = click_path;
}

module _ (signer : Signer) (tracker : Tracker) where
  open signer use {marshal, unmarshal, encode, decode, hmac}

  unfoldable pub sign : Token → Result String
  sign t = elim (marshal t) [
    | err e ↦ err (wrap "marshal token" e)
    | ok payload ↦
        let encoded = encode payload in
        ok (encoded ++ ("." ++ encode (hmac tracker.secret encoded)))
  ]

  unfoldable pub open_pixel_url : String → String → Result String
  unfolding sign
  open_pixel_url log_id client_id =
      elim (sign (record { log_id = log_id; client_id = client_id; url = "" })) [
        | err e ↦ err e
        | ok signed ↦ ok (tracker.base_url ++ (tracker.open_path ++ ("?t=" ++ signed)))
      ]

  unfoldable pub click_url : String → String → String → Result String
  unfolding sign
  click_url log_id client_id original_url =
      elim (sign (record { log_id = log_id; client_id = client_id; url = original_url })) [
        | err e ↦ err e
        | ok signed ↦ ok (tracker.base_url ++ (tracker.click_path ++ ("?t=" ++ signed)))
      ]

  -- The two parts: the payload and the signature.
  unfoldable pub verify_parts : String → String → Result Token
  verify_parts encoded signature = elim (decode signature) [
    | err e ↦ err (wrap "decode signature" e)
    | ok sig ↦
        if bytes_eq sig (hmac tracker.secret encoded)
        then (elim (decode encoded) [
          | err e ↦ err (wrap "decode payload" e)
          | ok payload ↦ wrapped "unmarshal token" (unmarshal payload)
        ])
        else err (message "invalid token signature")
  ]

  unfoldable pub verify : String → Result Token
  unfolding split_at_dot verify_parts
  verify token = elim (split_at_dot token) [
    | none ↦ err (message "invalid token format")
    | some (encoded, signature) ↦ verify_parts encoded signature
  ]
