-- ===== src/Delivery/SendLaws.antt =====
-- What Send hands to SES.
use mathlib.Core.Path.{subst}
use mathlib.Core.List.{append-nil}
use email_service_with_aws_s.Base.{
  ℕ, zero, suc, ◌≤◌, repeat, String, Bool, true, false, ◌≡◌, refl, sym, ap, ◌∙◌, List, [], ◌++◌,
  ◌⊎◌, inl, inr, Bytes, Bool-cases, is_ok, Result, ok, err, Result-cases, Error, Option, none, some,
}
use email_service_with_aws_s.Delivery.Errors.{is_configuration_set_not_found}
use email_service_with_aws_s.Delivery.Mime.{Mime, Message, build_raw_message}
use email_service_with_aws_s.Delivery.Ses.{Ses, RawEmail, Failure, Exception}
use email_service_with_aws_s.Delivery.Ses.Exception.{
  rejected, mail_from_domain_not_verified, no_configuration_set, sending_paused,
  configuration_set_exists, event_destination_exists, other_exception,
}
use email_service_with_aws_s.Delivery.Send.{
  by_exception, by_code, classify_error, is_throttling, request, answer, send_once,
  ensure_configuration_set, unless_exists, is_set_exists, after_failure, send, config_set_name,
}

by_code_other :
    (f : Failure) (c : Option String) → is_configuration_set_not_found (by_code f c) ≡ false
unfolding by_code is_configuration_set_not_found
by_code_other f none = refl
by_code_other f (some c) = elim (Bool-cases (is_throttling c)) [
  | inl asks ↦ rw (asks, by_code) refl
  | inr calm ↦ rw (calm, by_code) refl
]

-- Only the exception for a missing configuration set is taken for one.
missing_set :
    (f : Failure) (client_id : String) (x : Exception)
    → is_configuration_set_not_found (by_exception f client_id x) ≡ true
    → x ≡ no_configuration_set
unfolding by_exception is_configuration_set_not_found
missing_set f client_id rejected h = cc
missing_set f client_id mail_from_domain_not_verified h = cc
missing_set f client_id no_configuration_set h = refl
missing_set f client_id sending_paused h = cc
missing_set f client_id configuration_set_exists h = cc (by_code_other f f.code)
missing_set f client_id event_destination_exists h = cc (by_code_other f f.code)
missing_set f client_id other_exception h = cc (by_code_other f f.code)

shown :
    (f : Failure) (client_id : String) (e : Error)
    → ◌≡◌ {A = Result String} (err (classify_error f client_id)) (err e)
    → is_configuration_set_not_found e ≡ true
    → is_configuration_set_not_found (by_exception f client_id f.exception) ≡ true
unfolding classify_error
shown f client_id e same missing = cc

module _ (mime : Mime) (ses : Ses) (sns_topic_arn : String) (date : Bytes) (job : Message) where
  open ses use {State, sent}

  -- What Send handed to SES: copies of the message itself, no more than the SDK tries one call;
  -- none only if it failed.
  pub data Handed : Bool → List RawEmail → Type 0 where
    nothing : Handed false []
    copies :
        (succeeded : Bool) (n : ℕ) (raw : Bytes)
        → suc n ≤ ses.max_attempts
        → build_raw_message mime date job ≡ ok raw
        → Handed succeeded (repeat (suc n) (request mime ses sns_topic_arn job raw))

  pub record Sends (s : State) (out : Result String × State) : Type 0 where
    pub handed : List RawEmail
    pub sent-handed : sent out.1 ≡ sent s ++ handed
    pub proper : Handed (is_ok out.0) handed

  nothing_sent : (s s' : State) (e : Error) → sent s' ≡ sent s → Sends s (err e, s')
  nothing_sent s s' e h = record {
    handed = [];
    sent-handed = h ∙ sym (append-nil (sent s));
    proper = nothing;
  }

  module _ (s : State) where
    attempts :
        (raw : Bytes)
        → build_raw_message mime date job ≡ ok raw
        → (f : Failure)
        → ((n : ℕ) × (n ≤ ses.max_attempts)
            × (sent (ses.send_raw_email (request mime ses sns_topic_arn job raw) s).1
                ≡ sent s ++ repeat n (request mime ses sns_topic_arn job raw)))
        → Sends s (
          err (classify_error f job.client_id),
          (ses.send_raw_email (request mime ses sns_topic_arn job raw) s).1,
        )
    attempts raw m f (zero, few, taken) = record {
      handed = [];
      sent-handed = taken;
      proper = nothing;
    }
    attempts raw m f (suc n, few, taken) = record {
      handed = repeat (suc n) (request mime ses sns_topic_arn job raw);
      sent-handed = taken;
      proper = copies false n raw few m;
    }

    answered :
        (raw : Bytes)
        → build_raw_message mime date job ≡ ok raw
        → (r : String ⊎ Failure)
        → (ses.send_raw_email (request mime ses sns_topic_arn job raw) s).0 ≡ r
        → Sends s (
          answer mime ses sns_topic_arn job.client_id r,
          (ses.send_raw_email (request mime ses sns_topic_arn job raw) s).1,
        )
    unfolding answer
    answered raw m (inl id) e =
        let (n, few, taken) = ses.sent-accepted (request mime ses sns_topic_arn job raw) s id e in
        record {
          handed = repeat (suc n) (request mime ses sns_topic_arn job raw);
          sent-handed = taken;
          proper = copies true n raw few m;
        }
    answered raw m (inr f) e =
        attempts raw m f (ses.sent_times (request mime ses sns_topic_arn job raw) s)

    send_once-Sends : Sends s (send_once mime ses sns_topic_arn date job s)
    unfolding send_once
    send_once-Sends = elim (Result-cases (build_raw_message mime date job)) [
      | inl (raw, m) ↦ rw (m, send_once) (answered raw m _ refl)
      | inr (e, m) ↦ rw (m, send_once) (nothing_sent s s _ refl)
    ]

    missing_answer :
        (raw : Bytes) (e : Error) (r : String ⊎ Failure)
        → (ses.send_raw_email (request mime ses sns_topic_arn job raw) s).0 ≡ r
        → answer mime ses sns_topic_arn job.client_id r ≡ err e
        → is_configuration_set_not_found e ≡ true
        → sent (ses.send_raw_email (request mime ses sns_topic_arn job raw) s).1 ≡ sent s
    unfolding answer classify_error
    missing_answer raw e (inl id) eq failed missing = cc
    missing_answer raw e (inr f) eq failed missing =
        ses.sent-no_configuration_set (request mime ses sns_topic_arn job raw) s f eq
          (missing_set f job.client_id f.exception (shown f job.client_id e failed missing))

    attempted :
        (raw : Bytes)
        → build_raw_message mime date job ≡ ok raw
        → answer mime ses sns_topic_arn job.client_id
            (ses.send_raw_email (request mime ses sns_topic_arn job raw) s).0
          ≡ (send_once mime ses sns_topic_arn date job s).0
    unfolding send_once
    attempted raw m = rw (m, send_once) refl

    send_once-missing :
        (e : Error)
        → (send_once mime ses sns_topic_arn date job s).0 ≡ err e
        → is_configuration_set_not_found e ≡ true
        → sent (send_once mime ses sns_topic_arn date job s).1 ≡ sent s
    unfolding send_once
    send_once-missing e failed missing = elim (Result-cases (build_raw_message mime date job)) [
      | inl (raw, m) ↦
          rw (m, send_once) (missing_answer raw e _ refl (attempted raw m ∙ failed) missing)
      | inr (e', m) ↦ rw (m, send_once) refl
    ]

  sent-ensure :
      (s : State)
      → sent (ensure_configuration_set mime ses sns_topic_arn job.client_id s).1 ≡ sent s
  unfolding ensure_configuration_set
  sent-ensure s =
      let made = ses.create_configuration_set (config_set_name job.client_id) s in
      elim (Result-cases (unless_exists is_set_exists "EnsureConfigurationSet create set" made.0)) [
        | inl (done, m) ↦
            rw (m, ensure_configuration_set)
              (ses.sent-create_event_destination _ made.1 ∙ ses.sent-create_configuration_set _ s)
        | inr (e, m) ↦ rw (m, ensure_configuration_set) (ses.sent-create_configuration_set _ s)
      ]

  Sends-after :
      (s s' : State) (out : Result String × State) → sent s' ≡ sent s → Sends s' out → Sends s out
  Sends-after s s' out same h = record {
    handed = h.handed;
    sent-handed = h.sent-handed ∙ ap (λ l. l ++ h.handed) same;
    proper = h.proper;
  }

  after_missing :
      (s : State) (e : Error)
      → is_configuration_set_not_found e ≡ true
      → Sends s (after_failure mime ses sns_topic_arn date job e s)
  unfolding after_failure
  after_missing s e missing =
      let setup = ensure_configuration_set mime ses sns_topic_arn job.client_id s in
      elim (Result-cases setup.0) [
        | inl (done, m) ↦
            rw (missing, m, after_failure)
              (Sends-after s setup.1 _ (sent-ensure s) (send_once-Sends setup.1))
        | inr (e', m) ↦ rw (missing, m, after_failure) (nothing_sent s setup.1 e' (sent-ensure s))
      ]

  -- What Send hands SES is the message itself, no more often than the SDK tries one call, the second
  -- call of Send included, and at least once if Send succeeds.
  pub send-Sends : (s : State) → Sends s (send mime ses sns_topic_arn date job s)
  unfolding send
  send-Sends s =
      let first = send_once mime ses sns_topic_arn date job s in
      elim (Result-cases first.0) [
        | inl (id, m) ↦ rw (m, send) (subst (λ r. Sends s (r, first.1)) m (send_once-Sends s))
        | inr (e, m) ↦ elim (Bool-cases (is_configuration_set_not_found e)) [
          | inl missing ↦
              rw (m, send)
                (Sends-after s first.1 _ (send_once-missing s e m missing)
                  (after_missing first.1 e missing))
          | inr other ↦
              rw (m, other, send, after_failure)
                (subst (λ r. Sends s (r, first.1)) m (send_once-Sends s))
        ]
      ]
