-- ===== src/Worker/Bounces.antt =====
-- The webhook and the worker together: they share the tables.
use email_service_with_aws_s.Base.{
  ℕ, String, ◌≡◌, refl, Bool, true, false, not, List, [], ◌∷◌, any, select, Bool-cases, inl, inr,
  ok, Outcome, arrived, arith,
}
use email_service_with_aws_s.Repository.Models.{EmailLog}
use email_service_with_aws_s.Repository.Logs.{get_by_aws_message_id}
use email_service_with_aws_s.Repository.Blacklist.{is_entry}
use email_service_with_aws_s.Repository.BlacklistLaws.{same_entry}
use email_service_with_aws_s.Webhook.{SesNotification, process_notification}
use email_service_with_aws_s.Webhook
use email_service_with_aws_s.Webhook.Laws.{blacklisted_by, listed-process_notification}
use email_service_with_aws_s.Worker.{Services, valid_recipients}
use email_service_with_aws_s.Worker.Recipients.{valid_recipients_lem}

module _ (services : Services) where
  open services use {text, logs, stats, blacklist}

  abbrev pub webhook : Webhook.Services
  webhook = record { text = text; logs = logs; stats = stats; blacklist = blacklist }

  module _ (client_id : String) (l : List String) (s : blacklist.State) where
    -- One of these addresses is the same as `x`.
    abbrev pub is_one_of : List String → String → Bool
    is_one_of addresses x = any (λ a. text.same a x) addresses

    same_client :
        (x : String) (k : List String)
        → any (λ a. same_entry text blacklist client_id a client_id x) k ≡ is_one_of k x
    same_client x [] = refl
    same_client x (a ∷ k) = ground (arith, same_client x k, text.same_refl client_id)

    none_left :
        (to : List String)
        → ((x : String)
            → is_one_of l x ≡ true
            → any (is_entry text client_id x) (blacklist.rows s) ≡ true)
        → any
            (is_one_of l)
            (select (λ x. not (any (is_entry text client_id x) (blacklist.rows s))) to)
          ≡ false
    none_left [] h = refl
    none_left (x ∷ to) h = elim (Bool-cases (any (is_entry text client_id x) (blacklist.rows s))) [
      | inl there ↦ rw there (none_left to h)
      | inr absent ↦ rw absent (elim (Bool-cases (is_one_of l x)) [
        | inl one ↦ cc (h x one, absent)
        | inr other ↦ rw other (none_left to h)
      ])
    ]

  module _ (net : Webhook.Conditions) (log : EmailLog) (n : SesNotification)
      (w : Webhook.World webhook) (updated : net.updated ≡ arrived)
      (added : (i : ℕ) → net.added i ≡ arrived)
      (known : get_by_aws_message_id text logs net.found n.message_id w.log_rows ≡ ok log) where
    abbrev after : blacklist.State
    after = (process_notification webhook net n w).1.blacklist_rows

    now_listed :
        (x : String)
        → is_one_of log.client_id (blacklisted_by n) after (blacklisted_by n) x ≡ true
        → any (is_entry text log.client_id x) (blacklist.rows after) ≡ true
    now_listed x one =
        rw (listed-process_notification webhook log.client_id x net log updated added n w known) (
          rw (same_client log.client_id (blacklisted_by n) after x (blacklisted_by n))
            (rw one refl))

    -- If the message of a notification is known and no call of the webhook is lost, then the filter
    -- of any job of the same client, on the blacklist that the webhook leaves, keeps no address that
    -- bounced for good or complained.
    pub never_mailed_again :
        (checks : ℕ → Outcome) (to kept : List String)
        → valid_recipients services checks log.client_id to after ≡ ok kept
        → any (is_one_of log.client_id (blacklisted_by n) after (blacklisted_by n)) kept ≡ false
    never_mailed_again checks to kept e =
        rw (valid_recipients_lem services checks log.client_id to after kept e)
          (none_left log.client_id (blacklisted_by n) after to now_listed)
