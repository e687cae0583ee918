-- ===== src/Webhook/Genuine.antt =====
-- A message of SNS is handled only if it is signed.
use email_service_with_aws_s.Base.{
  take, zero, suc, ℕ, String, ◌≡◌, refl, ap, ◌∙◌, none, some, List, [], ◌∷◌, inl, inr, Bytes, Error,
  Result, Result-cases, ok, err,
}
use email_service_with_aws_s.Webhook.{
  Services, Conditions, World, SnsEnvelope, SesNotification, handle, dispatch, read_limited,
}
use email_service_with_aws_s.Webhook.Signature.{Crypto, Certs, verify_sns_signature, sns_verify}
use email_service_with_aws_s.Webhook.Endpoint.{post_webhook, after_check}
use email_service_with_aws_s.Webhook.Certificates.{IsGenuine, AreIssued, verified, verify-AreIssued}

take-take : {A : Type 0} (n : ℕ) (l : List A) → take n (take n l) ≡ take n l
take-take zero l = refl
take-take (suc n) [] = refl
take-take (suc n) (x ∷ l) = ap (◌∷◌ x) (take-take n l)

read_limited_twice : (body : Bytes) → read_limited (read_limited body) ≡ read_limited body
unfolding read_limited
read_limited_twice body = take-take 1048576 body

module _ (services : Services) (crypto : Crypto) (envelope : Bytes → Result SnsEnvelope)
    (notification : String → Result SesNotification) (new_request : String → Result (Unit {0}))
    (get : String → Result (Unit {0})) (served : ℕ → String → Result Bytes) (now : ℕ)
    (net : Conditions) (w : World services) where
  -- The request is turned away with nothing written, or what is done is the work of Handle for a
  -- genuine message.
  pub data IsAnswered (code : ℕ) (v : World services) : Type 0 where
    malformed : code ≡ 400 → v ≡ w → IsAnswered code v
    forged : code ≡ 403 → v ≡ w → IsAnswered code v
    worked :
        (env : SnsEnvelope)
        → IsGenuine crypto served env
        → (code, v) ≡ dispatch services envelope notification new_request get net env w
        → IsAnswered code v

  module _ (certs : Certs crypto) (a : AreIssued crypto served certs) where
    handled :
        (body : Bytes) (env : SnsEnvelope)
        → envelope (read_limited body) ≡ ok env
        → handle services envelope notification new_request get net (ok (read_limited body)) w
          ≡ dispatch services envelope notification new_request get net env w
    unfolding handle
    handled body env m = rw (ap envelope (read_limited_twice body) ∙ m, handle) refl

    unread :
        (body : Bytes) (x : Error)
        → envelope (read_limited body) ≡ err x
        → sns_verify crypto envelope (served now) (ok body) certs ≡ (some 400, certs)
    unfolding sns_verify
    unread body x m = rw (m, sns_verify) refl

    unverified :
        (body : Bytes) (env : SnsEnvelope) (x : Error)
        → envelope (read_limited body) ≡ ok env
        → (verify_sns_signature crypto (served now) env certs).0 ≡ err x
        → sns_verify crypto envelope (served now) (ok body) certs
          ≡ (some 403, (verify_sns_signature crypto (served now) env certs).1)
    unfolding sns_verify
    unverified body env x m m' = rw (m, m', sns_verify) refl

    passed :
        (body : Bytes) (env : SnsEnvelope) (u : Unit {0})
        → envelope (read_limited body) ≡ ok env
        → (verify_sns_signature crypto (served now) env certs).0 ≡ ok u
        → sns_verify crypto envelope (served now) (ok body) certs
          ≡ (none, (verify_sns_signature crypto (served now) env certs).1)
    unfolding sns_verify
    passed body env u m m' = rw (m, m', sns_verify) refl

    endpoint :
        (body : Bytes)
        → AreIssued crypto served
            (post_webhook services crypto envelope notification new_request get
              (served now)
              net
              (ok body)
              certs
              w).2
          × IsAnswered
              (post_webhook services crypto envelope notification new_request get
                (served now)
                net
                (ok body)
                certs
                w).0
              (post_webhook services crypto envelope notification new_request get
                (served now)
                net
                (ok body)
                certs
                w).1
    unfolding post_webhook after_check
    endpoint body = elim (Result-cases (envelope (read_limited body))) [
      | inr (x, m) ↦ rw (unread body x m, post_webhook) (a, malformed refl refl)
      | inl (env, m) ↦
          let kept = verify-AreIssued crypto served now env certs a in
          elim (Result-cases (verify_sns_signature crypto (served now) env certs).0) [
            | inr (x, m') ↦ rw (unverified body env x m m', post_webhook) (kept, forged refl refl)
            | inl (u, m') ↦
                rw (passed body env u m m', post_webhook)
                  (
                    kept,
                    worked env (verified crypto served now env certs a u m') (handled body env m),
                  )
          ]
    ]

    -- A request is turned away with 400 or 403 and nothing is written; or it is handled as a message
    -- whose signature is that of the key of a certificate that an https address of a host
    -- sns.….amazonaws.com has served. The cache of certificates keeps to such certificates.
    pub post_webhook-IsAnswered :
        (body : Result Bytes)
        → AreIssued crypto served
            (post_webhook services crypto envelope notification new_request get
              (served now)
              net
              body
              certs
              w).2
          × IsAnswered
              (post_webhook services crypto envelope notification new_request get
                (served now)
                net
                body
                certs
                w).0
              (post_webhook services crypto envelope notification new_request get
                (served now)
                net
                body
                certs
                w).1
    unfolding post_webhook sns_verify after_check
    post_webhook-IsAnswered (err x) = (a, malformed refl refl)
    post_webhook-IsAnswered (ok body) = endpoint body
