-- ===== src/Webhook.antt =====
-- internal/webhook/handler.go: the events that SES sends through SNS, and what they write.
pub mod Laws
pub mod Signature
pub mod Endpoint
pub mod Certificates
pub mod Genuine
use Prim.Native.String.{◌++◌}
use email_service_with_aws_s.Base.{
  take, ℕ, zero, suc, String, Bool, Option, none, some, List, [], ◌∷◌, ◌==◌, if◌then◌else◌, Bytes,
  Result, ok, err, wrap, Outcome,
}
use email_service_with_aws_s.Sql.{Table, Collation}
use email_service_with_aws_s.Repository.Models.{
  EmailLog, log_clash, EmailDailyStat, stat_clash, BlacklistedEmail, blacklist_clash, Status,
  status_text,
}
use email_service_with_aws_s.Repository.Models.Status.{
  sent, delivered, opened, clicked, hard_bounced, soft_bounced, complained,
}
use email_service_with_aws_s.Repository.Logs.{get_by_aws_message_id, update_status}
use email_service_with_aws_s.Repository.Stats.{increment_stat}
use email_service_with_aws_s.Repository.Blacklist.{add}

-- `message_type` is the field Type.
pub record SnsEnvelope : Type 0 where
  pub message_type : String
  pub message_id : String
  pub topic_arn : String
  pub subject : String
  pub message : String
  pub timestamp : String
  pub signature_version : String
  pub signature : String
  pub signing_cert_url : String
  pub subscribe_url : String
  pub token : String
  pub unsubscribe_url : String

pub record SesBounce : Type 0 where
  pub bounce_type : String
  pub bounce_sub_type : String
  pub bounced_recipients : List String

pub record SesComplaint : Type 0 where
  pub complained_recipients : List String
  pub complaint_feedback_type : String

-- sesNotification, without the fields that nothing reads; `message_id` is that of its mail.
pub record SesNotification : Type 0 where
  pub event_type : String
  pub notification_type : String
  pub message_id : String
  pub bounce : Option SesBounce
  pub complaint : Option SesComplaint

-- io.LimitReader(c.Request.Body, 1<<20)
unfoldable pub read_limited : Bytes → Bytes
read_limited body = take 1048576 body

unfoldable pub kind : SesNotification → String
kind n = if n.event_type == "" then n.notification_type else n.event_type

pub data Event : Type 0 where
  send_event delivery_event open_event click_event bounce_event complaint_event other_event : Event

-- The cases of the switch.
unfoldable pub event_of : String → Event
event_of name =
    if name == "Send"
    then send_event
    else if name == "Delivery"
    then delivery_event
    else if name == "Open"
    then open_event
    else if name == "Click"
    then click_event
    else if name == "Bounce"
    then bounce_event
    else if name == "Complaint"
    then complaint_event
    else other_event

-- What becomes of the calls, and what the clocks show: `now` of the program, `today` its day, `at` of
-- the database. `added i` is the i-th address that is blacklisted.
pub record Conditions : Type 0 where
  pub found : Outcome
  pub updated : Outcome
  pub counted : Outcome
  pub added : ℕ → Outcome
  pub now : ℕ
  pub today : ℕ
  pub at : ℕ

-- SNSHandler
pub record Services : Type 1 where
  pub text : Collation
  pub logs : Table EmailLog (log_clash text)
  pub stats : Table EmailDailyStat (stat_clash text)
  pub blacklist : Table BlacklistedEmail (blacklist_clash text)

unfoldable pub is_permanent_bounce : SesBounce → Bool
is_permanent_bounce b = b.bounce_type == "Permanent"

module _ (services : Services) where
  open services use {text, logs, stats, blacklist}

  pub record World : Type 0 where
    pub log_rows : logs.State
    pub stat_rows : stats.State
    pub blacklist_rows : blacklist.State

  -- UpdateStatus, and IncrementStat if it did not fail.
  unfoldable pub update_and_count :
      Conditions → EmailLog → Status → String → String → World → Result (Unit {0}) × World
  update_and_count net log status context column w =
      let (r, rows) = update_status text logs net.updated net.now log.id status w.log_rows in
      elim r [
        | err e ↦ (err (wrap context e), record w { log_rows = rows })
        | ok done ↦ (
          ok tt,
          record w {
            log_rows = rows;
            stat_rows =
                (increment_stat text stats net.counted log.client_id net.today column
                  w.stat_rows).1;
          },
        )
      ]

  -- The loops over recipients; an error of Add is ignored.
  unfoldable pub blacklist_each :
      (ℕ → Outcome) → ℕ → String → String → List String → blacklist.State → blacklist.State
  blacklist_each added at client_id reason [] s = s
  blacklist_each added at client_id reason (address ∷ l) s =
      blacklist_each (λ i. added (suc i)) at client_id reason l
        (add text blacklist (added zero) at
          (record { client_id = client_id; email = address; reason = reason; created_at = at }) s).1

  unfoldable pub on_bounce :
      Conditions → EmailLog → Option SesBounce → World → Result (Unit {0}) × World
  unfolding is_permanent_bounce update_and_count
  on_bounce net log none w = (ok tt, w)
  on_bounce net log (some b) w =
      let status = if is_permanent_bounce b then hard_bounced else soft_bounced in
      let listed =
        if is_permanent_bounce b
        then blacklist_each net.added net.at log.client_id
            ("hard_bounce:" ++ (b.bounce_type ++ ("/" ++ b.bounce_sub_type))) b.bounced_recipients
            w.blacklist_rows
        else w.blacklist_rows in
      update_and_count net log status ("update " ++ status_text status) "bounced"
        (record w { blacklist_rows = listed })

  unfoldable pub on_complaint :
      Conditions → EmailLog → Option SesComplaint → World → Result (Unit {0}) × World
  on_complaint net log none w = (ok tt, w)
  on_complaint net log (some c) w =
      let (r, w') = update_and_count net log complained "update complained" "complained" w in
      elim r [
        | err e ↦ (err e, w')
        | ok done ↦ (
          ok tt,
          record w' {
            blacklist_rows =
                blacklist_each net.added net.at log.client_id
                  ("complaint:" ++ c.complaint_feedback_type) c.complained_recipients
                  w'.blacklist_rows;
          },
        )
      ]

  unfoldable pub on_event :
      Conditions → SesNotification → EmailLog → Event → World → Result (Unit {0}) × World
  unfolding on_bounce update_and_count
  on_event net n log send_event w =
      let (r, rows) = update_status text logs net.updated net.now log.id sent w.log_rows in
      (r, record w { log_rows = rows })
  on_event net n log delivery_event w =
      update_and_count net log delivered "update delivered" "delivered" w
  on_event net n log open_event w = update_and_count net log opened "update opened" "opened" w
  on_event net n log click_event w = update_and_count net log clicked "update clicked" "clicked" w
  on_event net n log bounce_event w = on_bounce net log n.bounce w
  on_event net n log complaint_event w = on_complaint net log n.complaint w
  on_event net n log other_event w = (ok tt, w)

  unfoldable pub process_notification :
      Conditions → SesNotification → World → Result (Unit {0}) × World
  process_notification net n w =
      elim (get_by_aws_message_id text logs net.found n.message_id w.log_rows) [
        | err e ↦ (ok tt, w)
        | ok log ↦ on_event net n log (event_of (kind n)) w
      ]

  -- encoding/json, and net/http: a URL is made a request or is not, and the request answers or fails.
  module _ (envelope : Bytes → Result SnsEnvelope) (notification : String → Result SesNotification)
      (new_request : String → Result (Unit {0})) (get : String → Result (Unit {0})) where
    unfoldable pub confirm_subscription : String → Result (Unit {0})
    confirm_subscription url = elim (new_request url) [
      | err e ↦ err (wrap "build confirm request" e)
      | ok request ↦ elim (get url) [
        | err e ↦ err (wrap "confirm subscription" e)
        | ok answer ↦ ok tt
      ]
    ]

    unfoldable pub dispatch : Conditions → SnsEnvelope → World → ℕ × World
    dispatch net env w =
        if env.message_type == "SubscriptionConfirmation"
        then (elim (confirm_subscription env.subscribe_url) [
          | err e ↦ (500, w)
          | ok done ↦ (200, w)
        ])
        else if env.message_type == "Notification"
        then (elim (notification env.message) [
          | err e ↦ (400, w)
          | ok n ↦
              let (r, w') = process_notification net n w in
              elim r [ err e ↦ (500, w') | ok done ↦ (200, w') ]
        ])
        else (200, w)

    -- Handle: the body, as far as it is read, to the status of the response.
    unfoldable pub handle : Conditions → Result Bytes → World → ℕ × World
    handle net (err e) w = (400, w)
    handle net (ok body) w = elim (envelope (read_limited body)) [
      | err e ↦ (400, w)
      | ok env ↦ dispatch net env w
    ]
