-- ===== src/Webhook/Endpoint.antt =====
-- cmd/api/main.go: POST /webhooks/ses, the check of the signature and then Handle.
use email_service_with_aws_s.Base.{ℕ, String, Option, none, some, Bytes, Result, map_ok}
use email_service_with_aws_s.Webhook.{
  Services, Conditions, World, SnsEnvelope, SesNotification, handle, read_limited,
}
use email_service_with_aws_s.Webhook.Signature.{Crypto, Certs, sns_verify}

module _ (services : Services) (crypto : Crypto) (envelope : Bytes → Result SnsEnvelope)
    (notification : String → Result SesNotification) (new_request : String → Result (Unit {0}))
    (get : String → Result (Unit {0})) where
  -- The body that was read is put back for the handler.
  unfoldable pub after_check :
      Conditions
      → Result Bytes
      → World services
      → Option ℕ × Certs crypto
      → ℕ × World services × Certs crypto
  after_check net body w (some code, certs) = (code, w, certs)
  after_check net body w (none, certs) =
      let (code, w') =
        handle services envelope notification new_request get net (map_ok read_limited body) w in
      (code, w', certs)

  unfoldable pub post_webhook :
      (String → Result Bytes)
      → Conditions
      → Result Bytes
      → Certs crypto
      → World services
      → ℕ × World services × Certs crypto
  unfolding after_check
  post_webhook served net body certs w =
      after_check net body w (sns_verify crypto envelope served body certs)
