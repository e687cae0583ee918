-- ===== src/Delivery/Send.antt =====
-- internal/delivery/ses.go and ses_setup.go: Send, send, classifyError and EnsureConfigurationSet.
use Prim.Native.Char.{code}
use Prim.Native.String.{◌++◌}
use email_service_with_aws_s.Base.{
  ℕ, String, Bool, true, false, ◌&&◌, ◌||◌, Option, none, some, [], ◌∷◌, ◌==◌, leb, nat_eq,
  if◌then◌else◌, map, ◌⊎◌, inl, inr, Bytes, bytes, to_lower, Result, ok, err, Error, message, wrap,
  message_rejected, domain_not_verified, configuration_set_not_found, account_suspended, transient,
  delivery_error,
}
use email_service_with_aws_s.Delivery.Errors.{is_configuration_set_not_found}
use email_service_with_aws_s.Delivery.Mime.{Mime, Message, build_raw_message}
use email_service_with_aws_s.Delivery.Ses.{Ses, RawEmail, Failure, Exception, EventDestination}
use email_service_with_aws_s.Delivery.Ses.Exception.{
  rejected, mail_from_domain_not_verified, no_configuration_set, sending_paused,
  configuration_set_exists, event_destination_exists,
}
use email_service_with_aws_s.Delivery.Ses.EventType.{
  send_event, delivery_event, open_event, click_event, bounce_event, complaint_event,
}

unfoldable pub config_set_name : String → String
config_set_name client_id = "client-" ++ client_id

abbrev allowed_in_tag : ℕ → Bool
allowed_in_tag c =
    (leb b'a' c && leb c b'z')
    || ((leb b'A' c && leb c b'Z')
        || ((leb b'0' c && leb c b'9') || (nat_eq c b'_' || nat_eq c b'-')))

unfoldable pub sanitize_tag : String → String
sanitize_tag String.[] = String.[]
sanitize_tag (String.◌∷◌ c s) =
    let rest = sanitize_tag s in if allowed_in_tag (code c) then String.◌∷◌ c rest else "_" ++ rest

abbrev begins : Bytes → Bytes → Bool
begins [] s = true
begins (p ∷ ps) [] = false
begins (p ∷ ps) (c ∷ s) = nat_eq p c && begins ps s

-- strings.Contains
abbrev contains : Bytes → Bytes → Bool
contains [] sub = begins sub []
contains (c ∷ s) sub = begins sub (c ∷ s) || contains s sub

-- The error code of a service that asks for fewer requests.
unfoldable pub is_throttling : String → Bool
is_throttling code =
    code == "Throttling"
    || (code == "RequestLimitExceeded" || contains (map to_lower (bytes code)) (bytes "throttl"))

unfoldable pub by_code : Failure → Option String → Error
by_code f none = delivery_error (message f.text) true
by_code f (some code) =
    if is_throttling code then transient (message f.text) else delivery_error (message f.text) true

unfoldable pub by_exception : Failure → String → Exception → Error
unfolding by_code
by_exception f client_id rejected = message_rejected f.text
by_exception f client_id mail_from_domain_not_verified = domain_not_verified f.text
by_exception f client_id no_configuration_set =
    configuration_set_not_found (config_set_name client_id)
by_exception f client_id sending_paused = account_suspended f.text
by_exception f client_id _ = by_code f f.code

unfoldable pub classify_error : Failure → String → Error
unfolding by_exception by_code
classify_error f client_id = by_exception f client_id f.exception

-- Unless the failure is of the kind that is ignored.
abbrev pub unless_exists : (Exception → Bool) → String → Option Failure → Result (Unit {0})
unless_exists ignored context none = ok tt
unless_exists ignored context (some f) =
    if ignored f.exception then ok tt else err (wrap context (message f.text))

abbrev pub is_set_exists : Exception → Bool
is_set_exists configuration_set_exists = true
is_set_exists _ = false

abbrev pub is_destination_exists : Exception → Bool
is_destination_exists event_destination_exists = true
is_destination_exists _ = false

-- SendResult without Status, which is always "sent", is the message id.
module _ (mime : Mime) (ses : Ses) (sns_topic_arn : String) where
  open ses use {State, send_raw_email, create_configuration_set, create_event_destination}

  unfoldable pub request : Message → Bytes → RawEmail
  request job raw = record {
    source = job.from;
    destinations = job.to;
    raw_message = raw;
    configuration_set_name = config_set_name job.client_id;
    client_id_tag = sanitize_tag job.client_id;
    log_id_tag = sanitize_tag job.log_id;
  }

  unfoldable pub answer : String → String ⊎ Failure → Result String
  answer client_id (inl message_id) = ok message_id
  answer client_id (inr f) = err (classify_error f client_id)

  -- the `send` with a small s
  unfoldable pub send_once : Bytes → Message → State → Result String × State
  unfolding request answer
  send_once date job s = elim (build_raw_message mime date job) [
    | err e ↦ (err (delivery_error (wrap "build MIME message" e) false), s)
    | ok raw ↦ let (r, s') = send_raw_email (request job raw) s in (answer job.client_id r, s')
  ]

  unfoldable pub destination : String → EventDestination
  destination client_id = record {
    configuration_set_name = config_set_name client_id;
    name = "sns-all-events";
    matching_event_types =
        send_event ∷ delivery_event ∷ open_event ∷ click_event ∷ bounce_event ∷ complaint_event
        ∷ [];
    topic_arn = sns_topic_arn;
  }

  unfoldable pub ensure_configuration_set : String → State → Result (Unit {0}) × State
  unfolding destination
  ensure_configuration_set client_id s =
      let (r, s1) = create_configuration_set (config_set_name client_id) s in
      elim (unless_exists is_set_exists "EnsureConfigurationSet create set" r) [
        | err e ↦ (err e, s1)
        | ok done ↦
            let (q, s2) = create_event_destination (destination client_id) s1 in
            (unless_exists is_destination_exists "EnsureConfigurationSet event destination" q, s2)
      ]

  -- Send, after the first attempt failed with `e`.
  unfoldable pub after_failure : Bytes → Message → Error → State → Result String × State
  after_failure date job e s =
      if is_configuration_set_not_found e
      then (let (setup, s') = ensure_configuration_set job.client_id s in
          elim setup [ ok done ↦ send_once date job s' | err e' ↦ (err e', s') ])
      else (err e, s)

  unfoldable pub send : Bytes → Message → State → Result String × State
  unfolding after_failure
  send date job s =
      let (r, s') = send_once date job s in
      elim r [ ok message_id ↦ (ok message_id, s') | err e ↦ after_failure date job e s' ]
