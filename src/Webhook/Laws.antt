-- ===== src/Webhook/Laws.antt =====
-- What a notification does to the blacklist.
use email_service_with_aws_s.Base.{
  ok-injective, ℕ, zero, suc, String, ◌≡◌, refl, sym, ap, ◌∙◌, Bool, ◌||◌, Option, none, some, List,
  [], ◌∷◌, any, if◌then◌else◌, Bool-cases, inl, inr, Result-cases, ok, map_ok, Outcome, arrived,
  arith,
}
use email_service_with_aws_s.Repository.Models.{EmailLog, Status}
use email_service_with_aws_s.Repository.Logs.{get_by_aws_message_id, update_status}
use email_service_with_aws_s.Repository.Models.Status.{complained}
use email_service_with_aws_s.Repository.Blacklist.{is_entry, is_blacklisted, add}
use email_service_with_aws_s.Repository.BlacklistLaws.{
  blacklisted-eq-any, same_entry, is_blacklisted-add,
}
use email_service_with_aws_s.Webhook.{
  SesNotification, SesBounce, SesComplaint, Event, event_of, kind, Conditions, Services, World,
  update_and_count, blacklist_each, is_permanent_bounce, on_bounce, on_complaint, on_event,
  process_notification,
}
use email_service_with_aws_s.Webhook.Event.{
  send_event, delivery_event, open_event, click_event, bounce_event, complaint_event, other_event,
}

-- The addresses that a notification puts on the blacklist.
unfoldable pub bounced_addresses : Option SesBounce → List String
bounced_addresses none = []
bounced_addresses (some b) = if is_permanent_bounce b then b.bounced_recipients else []

unfoldable pub complained_addresses : Option SesComplaint → List String
complained_addresses none = []
complained_addresses (some c) = c.complained_recipients

unfoldable pub addresses_of : SesNotification → Event → List String
unfolding bounced_addresses complained_addresses
addresses_of n bounce_event = bounced_addresses n.bounce
addresses_of n complaint_event = complained_addresses n.complaint
addresses_of n _ = []

unfoldable pub blacklisted_by : SesNotification → List String
blacklisted_by n = addresses_of n (event_of (kind n))

module _ (services : Services) (c e : String) where
  open services use {text, logs, blacklist}

  -- The address is on the blacklist of the client.
  abbrev listed : blacklist.State → Bool
  listed s = any (is_entry text c e) (blacklist.rows s)

  listed-add :
      (at : ℕ) (client_id address reason : String) (s : blacklist.State)
      → listed
          (add text blacklist arrived at
            (record { client_id = client_id; email = address; reason = reason; created_at = at })
            s).1
        ≡ (same_entry text blacklist client_id address c e || listed s)
  listed-add at client_id address reason s = ok-injective _ _ (
      sym (blacklisted-eq-any text blacklist c e _)
      ∙ is_blacklisted-add text blacklist at
          (record { client_id = client_id; email = address; reason = reason; created_at = at }) c e
          s
      ∙ ap (map_ok (λ old. same_entry text blacklist client_id address c e || old))
          (blacklisted-eq-any text blacklist c e s))

  listed-blacklist_each :
      (added : ℕ → Outcome) (at : ℕ) (client_id reason : String) (l : List String)
      (s : blacklist.State)
      → ((i : ℕ) → added i ≡ arrived)
      → listed (blacklist_each services added at client_id reason l s)
        ≡ (any (λ a. same_entry text blacklist client_id a c e) l || listed s)
  unfolding blacklist_each
  listed-blacklist_each added at client_id reason [] s h = refl
  listed-blacklist_each added at client_id reason (a ∷ l) s h =
      rw (listed-blacklist_each (λ i. added (suc i)) at client_id reason l _ (λ i. h (suc i)))
        (rw (h zero) (rw (listed-add at client_id a reason s) (ground arith)))

  module _ (net : Conditions) (log : EmailLog) where
    update_and_count-blacklist :
        (status : Status) (context column : String) (w : World services)
        → (update_and_count services net log status context column w).1.blacklist_rows
          ≡ w.blacklist_rows
    unfolding update_and_count
    update_and_count-blacklist status context column w =
        elim (Result-cases
          (update_status text logs net.updated net.now log.id status w.log_rows).0) [
            | inl (done, m) ↦ rw (m, update_and_count) refl
            | inr (x, m) ↦ rw (m, update_and_count) refl
          ]

    update_and_count-ok :
        (status : Status) (context column : String) (w : World services)
        → net.updated ≡ arrived
        → (update_and_count services net log status context column w).0 ≡ ok tt
    unfolding update_and_count update_status
    update_and_count-ok status context column w h = rw h refl

    Blacklisted : World services → World services → List String → Type 0
    Blacklisted w w' l =
        listed w'.blacklist_rows
        ≡ (any (λ a. same_entry text blacklist log.client_id a c e) l || listed w.blacklist_rows)

    module _ (updated : net.updated ≡ arrived) (added : (i : ℕ) → net.added i ≡ arrived) where
      on_bounce-Blacklisted :
          (b : Option SesBounce) (w : World services)
          → Blacklisted w (on_bounce services net log b w).1 (bounced_addresses b)
      unfolding on_bounce bounced_addresses Blacklisted
      on_bounce-Blacklisted none w = refl
      on_bounce-Blacklisted (some b) w =
          rw (update_and_count-blacklist _ _ _ _) (elim (Bool-cases (is_permanent_bounce b)) [
            | inl permanent ↦ rw permanent (
                listed-blacklist_each net.added net.at log.client_id _ b.bounced_recipients
                  w.blacklist_rows added)
            | inr passing ↦ rw passing refl
          ])

      on_complaint-Blacklisted :
          (x : Option SesComplaint) (w : World services)
          → Blacklisted w (on_complaint services net log x w).1 (complained_addresses x)
      unfolding on_complaint complained_addresses Blacklisted
      on_complaint-Blacklisted none w = refl
      on_complaint-Blacklisted (some x) w =
          rw
            (
              update_and_count-ok complained "update complained" "complained" w updated,
              on_complaint,
            )
            (listed-blacklist_each net.added net.at log.client_id _ x.complained_recipients _ added
              ∙ ap
                  (λ s.
                    any (λ a. same_entry text blacklist log.client_id a c e) x.complained_recipients
                    || listed s)
                  (update_and_count-blacklist complained "update complained" "complained" w))

      on_event-Blacklisted :
          (n : SesNotification) (event : Event) (w : World services)
          → Blacklisted w (on_event services net n log event w).1 (addresses_of n event)
      unfolding on_event addresses_of Blacklisted
      on_event-Blacklisted n send_event w = refl
      on_event-Blacklisted n bounce_event w = on_bounce-Blacklisted n.bounce w
      on_event-Blacklisted n complaint_event w = on_complaint-Blacklisted n.complaint w
      on_event-Blacklisted n delivery_event w = ap listed (update_and_count-blacklist _ _ _ w)
      on_event-Blacklisted n open_event w = ap listed (update_and_count-blacklist _ _ _ w)
      on_event-Blacklisted n click_event w = ap listed (update_and_count-blacklist _ _ _ w)
      on_event-Blacklisted n other_event w = refl

      pub listed-process_notification :
          (n : SesNotification) (w : World services)
          → get_by_aws_message_id text logs net.found n.message_id w.log_rows ≡ ok log
          → any
              (is_entry text c e)
              (blacklist.rows (process_notification services net n w).1.blacklist_rows)
            ≡ (any (λ a. same_entry text blacklist log.client_id a c e) (blacklisted_by n)
                || any (is_entry text c e) (blacklist.rows w.blacklist_rows))
      unfolding process_notification blacklisted_by Blacklisted
      listed-process_notification n w known =
          rw (known, process_notification) (on_event-Blacklisted n (event_of (kind n)) w)

      -- If the message of a notification is known and no call is lost, then a look-up finds afterwards
      -- what it found before, and the recipients of a permanent bounce or of a complaint, for the
      -- client that sent the message.
      pub is_blacklisted-process_notification :
          (n : SesNotification) (w : World services)
          → get_by_aws_message_id text logs net.found n.message_id w.log_rows ≡ ok log
          → is_blacklisted text blacklist arrived c e
              (process_notification services net n w).1.blacklist_rows
            ≡ map_ok
                (λ old.
                  any (λ a. same_entry text blacklist log.client_id a c e) (blacklisted_by n)
                  || old)
                (is_blacklisted text blacklist arrived c e w.blacklist_rows)
      is_blacklisted-process_notification n w known =
          rw
            (
              blacklisted-eq-any text blacklist c e _,
              blacklisted-eq-any text blacklist c e w.blacklist_rows,
            )
            (ap ok (listed-process_notification n w known))
