-- ===== src/Examples/Signed.antt =====
-- A message of SNS that is signed.
use email_service_with_aws_s.Base.{
  ℕ, ◌≡◌, refl, some, [], ◌∷◌, Bytes, message, ok, err, arrived, is_empty, has_prefix, has_suffix,
}
use email_service_with_aws_s.Webhook.{Services, Conditions, World, SnsEnvelope, handle, dispatch}
use email_service_with_aws_s.Webhook.Signature.{
  Crypto, Certs, sns_verify, verify_sns_signature, validate_cert_url, is_sns_host, fetch_cert,
  load_cert, read_cert, check_signature,
}
use email_service_with_aws_s.Webhook.Endpoint.{post_webhook}
use email_service_with_aws_s.Webhook.Certificates.{AreIssued}
use email_service_with_aws_s.Webhook.Genuine.{IsAnswered, post_webhook-IsAnswered}
use email_service_with_aws_s.Repository.Models.{log_clash, stat_clash, blacklist_clash}
use email_service_with_aws_s.Fakes.Sql.{exact, memory_table}

abbrev hook : Services
hook = record {
  text = exact;
  logs = memory_table (log_clash exact);
  stats = memory_table (stat_clash exact);
  blacklist = memory_table (blacklist_clash exact);
}

abbrev plain_crypto : Crypto
plain_crypto = record {
  Cert = Bytes;
  Key = Bytes;
  parse_url = λ url. ok ("https", "sns.eu-west-1.amazonaws.com");
  pem_decode = λ b. some b;
  parse_certificate = λ b. ok b;
  rsa_key = λ c. some c;
  decode_base64 = λ s. ok [];
  verify_sha1 = λ key msg sig. err (message "crypto/rsa: verification error");
  verify_sha256 = λ key msg sig. ok tt;
}

abbrev parting : SnsEnvelope
parting = record {
  message_type = "UnsubscribeConfirmation";
  message_id = "m";
  topic_arn = "t";
  subject = "";
  message = "bye";
  timestamp = "now";
  signature_version = "2";
  signature = "s";
  signing_cert_url = "https://sns.eu-west-1.amazonaws.com/c.pem";
  subscribe_url = "https://x";
  token = "k";
  unsubscribe_url = "";
}

abbrev still : Conditions
still = record {
  found = arrived;
  updated = arrived;
  counted = arrived;
  added = λ i. arrived;
  now = 5;
  today = 1;
  at = 5;
}

abbrev blank : World hook
blank = record { log_rows = []; stat_rows = []; blacklist_rows = [] }

abbrev reply : ℕ × World hook × Certs plain_crypto
reply =
    post_webhook hook plain_crypto (λ b. ok parting) (λ s. err (message "no")) (λ u. ok tt)
      (λ u. ok tt) (λ url. ok (7 ∷ [])) still (ok []) [] blank

-- It goes on to Handle, and its certificate is kept.
handled : (reply.0 ≡ 200) × (reply.2 ≡ ("https://sns.eu-west-1.amazonaws.com/c.pem", 7 ∷ []) ∷ [])
unfolding post_webhook sns_verify verify_sns_signature validate_cert_url is_empty is_sns_host
    has_prefix has_suffix fetch_cert load_cert read_cert check_signature handle dispatch
handled = (refl, refl)

post_webhook-IsAnswered_example :
    AreIssued plain_crypto (λ t url. ok (7 ∷ [])) reply.2
    × IsAnswered hook plain_crypto
        (λ b. ok parting)
        (λ s. err (message "no"))
        (λ u. ok tt)
        (λ u. ok tt)
        (λ t url. ok (7 ∷ []))
        3
        still
        blank
        reply.0
        reply.1
post_webhook-IsAnswered_example =
    post_webhook-IsAnswered hook plain_crypto (λ b. ok parting) (λ s. err (message "no"))
      (λ u. ok tt) (λ u. ok tt) (λ t url. ok (7 ∷ [])) 3 still blank [] tt (ok [])
