-- ===== src/Worker/Sends.antt =====
-- What delivering a job hands to SES.
use mathlib.Core.Path.{subst}
use mathlib.Core.List.{append-nil}
use email_service_with_aws_s.Base.{
  ℕ, suc, ◌≤◌, repeat, some-injective, String, ◌≡◌, refl, sym, ap, ◌∙◌, Bool, true, false, List, [],
  ◌∷◌, ◌++◌, some, Option-cases, inl, inr, Result, Result-cases, ok, is_ok, Bytes,
}
use email_service_with_aws_s.Queue.{EmailJob}
use email_service_with_aws_s.Repository.Models.Status.{sent as status_sent}
use email_service_with_aws_s.Repository.Logs.{update_status, set_aws_message_id}
use email_service_with_aws_s.Delivery.Mime.{Message, build_raw_message}
use email_service_with_aws_s.Delivery.Ses.{RawEmail}
use email_service_with_aws_s.Delivery.Send.{request, send}
use email_service_with_aws_s.Delivery.SendLaws.{Handed, nothing, copies, send-Sends}
use email_service_with_aws_s.Worker.{
  Services, Conditions, World, valid_recipients, tracked_body, message_of, persist, deliver,
  deliver_to, mark_failed, process_job,
}
use email_service_with_aws_s.Worker.Steps.{no_delivery, one_delivery, checked, unchecked}
use email_service_with_aws_s.Worker.Recipients.{not_blacklisted, valid_recipients_lem}

module _ (services : Services) (net : Conditions) (job : EmailJob) (w : World services) where
  open services use {text, logs, ses, mime, sns_topic_arn}

  -- The recipients of the job that its client's blacklist does not have.
  abbrev pub allowed : List String
  allowed = not_blacklisted services w.blacklist_rows job.client_id job.to

  -- What SES was handed, and whether the job was reported as done.
  pub data Mailed : Bool → List RawEmail → Type 0 where
    nobody : (done : Bool) → allowed ≡ [] → Mailed done []
    unsent : Mailed false []
    mailed :
        (done : Bool) (n : ℕ) (a : String) (to : List String) (html raw : Bytes)
        → suc n ≤ ses.max_attempts
        → allowed ≡ a ∷ to
        → tracked_body services job ≡ some html
        → build_raw_message mime net.date (message_of services job (a ∷ to) html) ≡ ok raw
        → Mailed done (
            repeat
              (suc n)
              (request mime ses sns_topic_arn (message_of services job (a ∷ to) html) raw))

  pub record Mails (out : Result (Unit {0}) × World services) : Type 0 where
    pub handed : List RawEmail
    pub sent-handed : ses.sent out.1.mail ≡ ses.sent w.mail ++ handed
    pub proper : Mailed (is_ok out.0) handed

  module _ (a : String) (to : List String) (html : Bytes) (who : allowed ≡ a ∷ to)
      (body : tracked_body services job ≡ some html) where
    abbrev message : Message
    message = message_of services job (a ∷ to) html

    after_failure :
        (q : List RawEmail)
        → Handed mime ses sns_topic_arn net.date message false q
        → Mailed false q
    after_failure q nothing = unsent
    after_failure q (copies _ n raw few m) = mailed false n a to html raw few who body m

    after_success :
        (done : Bool) (q : List RawEmail)
        → Handed mime ses sns_topic_arn net.date message true q
        → Mailed done q
    after_success done q (copies _ n raw few m) = mailed done n a to html raw few who body m

    persist-mail :
        (id : String) (v : World services) → (persist services net job id v).1.mail ≡ v.mail
    unfolding persist
    persist-mail id v =
        elim (Result-cases
          (update_status text logs net.marked_sent net.now job.id status_sent
            (set_aws_message_id text logs net.id_stored job.id id v.log_rows).1).0) [
              | inl (done, m) ↦ rw (m, persist) refl
              | inr (e, m) ↦ rw (m, persist) refl
            ]

    deliver-Mails : Mails (deliver services net job (a ∷ to) html w)
    unfolding deliver
    deliver-Mails =
        let out = send mime ses sns_topic_arn net.date message w.mail in
        let sends = send-Sends mime ses sns_topic_arn net.date message w.mail in
        elim (Result-cases out.0) [
          | inl (id, m) ↦
              rw (m, deliver)
                (record {
                  handed = sends.handed;
                  sent-handed =
                      ap ses.sent (persist-mail id (record w { mail = out.1 })) ∙ sends.sent-handed;
                  proper = after_success _ sends.handed (
                      subst
                        (λ r. Handed mime ses sns_topic_arn net.date message (is_ok r) sends.handed)
                        m sends.proper);
                })
          | inr (e, m) ↦
              rw (m, deliver)
                (record {
                  handed = sends.handed;
                  sent-handed = sends.sent-handed;
                  proper = after_failure sends.handed (
                      subst
                        (λ r. Handed mime ses sns_topic_arn net.date message (is_ok r) sends.handed)
                        m sends.proper);
                })
        ]

  deliver_to-Mails :
      (l : List String)
      → l ≡ allowed
      → (out : Result (Unit {0}) × World services) → deliver_to services net job l w ≡ some out
      → Mails out
  unfolding deliver_to mark_failed
  deliver_to-Mails [] who out h = subst Mails (some-injective _ out h) (record {
    handed = [];
    sent-handed = sym (append-nil (ses.sent w.mail));
    proper = nobody true (sym who);
  })
  deliver_to-Mails (a ∷ to) who out h = elim (Option-cases (tracked_body services job)) [
    | inl panics ↦ cc (no_delivery services net job w a to panics, h)
    | inr (html, body) ↦
        subst Mails
          (some-injective _ out (sym (one_delivery services net job w a to html body) ∙ h))
          (deliver-Mails a to html (sym who) body)
  ]

  -- If processing does not panic, all it hands SES is the job's message, addressed to exactly the
  -- recipients that the client's blacklist does not have, in the job's order, with the tracked body,
  -- and this no more often than the SDK tries one call. If it reports the job as done, it did so at
  -- least once, unless no recipient is left.
  pub process_job-Mails :
      (out : Result (Unit {0}) × World services)
      → process_job services net job w ≡ some out
      → Mails out
  unfolding process_job
  process_job-Mails out h =
      elim (Result-cases
        (valid_recipients services net.checks job.client_id job.to w.blacklist_rows)) [
          | inl (l, m) ↦
              deliver_to-Mails l
                (valid_recipients_lem services net.checks job.client_id job.to w.blacklist_rows l m)
                out (sym (checked services net job w l m) ∙ h)
          | inr (e, m) ↦
              subst Mails (some-injective _ out (sym (unchecked services net job w e m) ∙ h))
                (record {
                  handed = [];
                  sent-handed = sym (append-nil (ses.sent w.mail));
                  proper = unsent;
                })
        ]
