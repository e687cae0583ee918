-- ===== src/Examples/Startup.antt =====
-- The start of a service, a message of SNS, and a token.
use Prim.Native.Char.{code}
use mathlib.Core.Path.{ap₂}
use email_service_with_aws_s.Base.{
  zero, suc, ltb, nat_eq, ◌+◌, ◌&&◌, ap, ◌∙◌, eq_iff, Bool-cases, inl, inr, ℕ, String, ◌≡◌, refl,
  ◌↔◌, Bool, true, false, Option, none, [], ◌∷◌, ◌==◌, ℤ, pos, Bytes, message, Result, ok, err,
  if◌then◌else◌, arith,
}
use email_service_with_aws_s.Config.{DatabaseConfig, dsn}
use email_service_with_aws_s.Config.Load.{populate, load}
use email_service_with_aws_s.Config.Valid.{IsValid, load_lem}
use email_service_with_aws_s.Database.Start.{new_db}
use email_service_with_aws_s.Database.Pings.{IsStarted, new_db-IsStarted}
use email_service_with_aws_s.Tracking.Tokens.{Token, Signer, Tracker, has_dot, sign, verify}
use email_service_with_aws_s.Tracking.Signed.{verify-sign}

-- The variables that have no default.
abbrev variables : String → String
variables key =
    if key == "MYSQL_HOST"
    then "db"
    else if key == "MYSQL_USER"
    then "mail"
    else if key == "MYSQL_PASSWORD"
    then "pw"
    else if key == "MYSQL_DATABASE"
    then "mail"
    else if key == "AWS_REGION"
    then "eu-west-1"
    else if key == "TRACKING_BASE_URL"
    then "https://t.x/"
    else if key == "TRACKING_HMAC_SECRET"
    then "00112233445566778899aabbccddeeff"
    else if key == "ADMIN_API_KEY"
    then "0123456789abcdef"
    else ""

abbrev no_duration : String → Option ℤ
no_duration s = none

load_example : (load variables no_duration ≡ ok (populate variables no_duration)) ↔ (
    (populate variables no_duration ≡ populate variables no_duration)
    × IsValid (populate variables no_duration))
load_example = load_lem variables no_duration (populate variables no_duration)

abbrev mysql : DatabaseConfig
mysql = record {
  host = "db";
  port = "3306";
  user = "mail";
  password = "pw";
  database = "mail";
  max_open_conns = pos 25;
  max_idle_conns = pos 10;
  conn_max_lifetime = pos 300;
}

-- MySQL answers from the third ping on.
abbrev third : ℕ → Result (Unit {0})
third n = if ltb n 3 then err (message "refused") else ok tt

new_db-IsStarted_example :
    IsStarted third (λ s. ok s) mysql (dsn mysql) (new_db (λ s. ok s) third mysql)
new_db-IsStarted_example = new_db-IsStarted third (λ s. ok s) mysql (dsn mysql) refl

abbrev token : Token
token = record { log_id = "L1"; client_id = "c"; url = "" }

-- A byte in unary, and its end.
abbrev put : ℕ → String → String
put zero s = String.◌∷◌ "b" s
put (suc n) s = String.◌∷◌ "a" (put n s)

abbrev encoded : Bytes → String
encoded [] = ""
encoded (n ∷ b) = put n (encoded b)

abbrev decoded : ℕ → String → Bytes
decoded n String.[] = []
decoded n (String.◌∷◌ c s) =
    let more = decoded (n + 1) s in
    let rest = decoded 0 s in if nat_eq (code c) b'a' then more else n ∷ rest

decoded-put : (m n : ℕ) (s : String) → decoded m (put n s) ≡ (m + n) ∷ decoded 0 s
decoded-put m zero s = let e : m + 0 ≡ m = omega arith in rw e refl
decoded-put m (suc n) s =
    let e : m + suc n ≡ m + 1 + n = omega arith in rw e (decoded-put (m + 1) n s)

decoded-encoded : (b : Bytes) → decoded 0 (encoded b) ≡ b
decoded-encoded [] = refl
decoded-encoded (n ∷ b) =
    let e : 0 + n ≡ n = omega arith in decoded-put 0 n (encoded b) ∙ ap₂ ◌∷◌ e (decoded-encoded b)

put_no_dot : (n : ℕ) (s : String) → has_dot s ≡ false → has_dot (put n s) ≡ false
put_no_dot zero s h = h
put_no_dot (suc n) s h = put_no_dot n s h

encoded_no_dot : (b : Bytes) → has_dot (encoded b) ≡ false
encoded_no_dot [] = refl
encoded_no_dot (n ∷ b) = put_no_dot n (encoded b) (encoded_no_dot b)

-- The only token that is written.
abbrev is_token : Token → Bool
is_token t = t.log_id == "L1" && (t.client_id == "c" && t.url == "")

abbrev written : Token → Result Bytes
written t = if is_token t then ok (1 ∷ []) else err (message "no such token")

token_of_test : (t : Token) → is_token t ≡ true → token ≡ t
token_of_test t h =
    let log : t.log_id ≡ "L1" = (eq_iff t.log_id "L1").0 (ground (arith, h)) in
    let client : t.client_id ≡ "c" = (eq_iff t.client_id "c").0 (ground (arith, h)) in
    let url : t.url ≡ "" = (eq_iff t.url "").0 (ground (arith, h)) in cc

token_of_written : (t : Token) (b : Bytes) → written t ≡ ok b → ok token ≡ ok t
token_of_written t b e = elim (Bool-cases (is_token t)) [
  | inl m ↦ ap ok (token_of_test t m)
  | inr m ↦ cc (rw m at e)
]

abbrev plain_signer : Signer
plain_signer = record {
  marshal = written;
  unmarshal = λ b. ok token;
  unmarshal-marshal = token_of_written;
  encode = encoded;
  decode = λ s. ok (decoded 0 s);
  encoded_no_dot = encoded_no_dot;
  decode-encode = λ b. ap ok (decoded-encoded b);
  hmac = λ secret s. secret;
}

abbrev tracker : Tracker
tracker = record { secret = 2 ∷ []; base_url = "https://t.x"; open_path = "/o"; click_path = "/c" }

verify-sign_example : verify plain_signer tracker "ab.aab" ≡ ok token
unfolding sign
verify-sign_example = verify-sign plain_signer tracker token "ab.aab" refl
