-- ===== src/Examples/Events.antt =====
-- A permanent bounce reaches the webhook.
use email_service_with_aws_s.Base.{
  any, ◌==◌, ◌≡◌, refl, true, false, ◌||◌, none, some, [], ◌∷◌, map_ok, arrived,
}
use email_service_with_aws_s.Repository.Models.{EmailLog, log_clash, stat_clash, blacklist_clash}
use email_service_with_aws_s.Repository.Models.Status.{sent}
use email_service_with_aws_s.Repository.Logs.{get_by_aws_message_id, update_status}
use email_service_with_aws_s.Repository.Blacklist.{is_blacklisted, add}
use email_service_with_aws_s.Webhook
use email_service_with_aws_s.Worker.{valid_recipients}
use email_service_with_aws_s.Worker.Bounces.{webhook, never_mailed_again}
use email_service_with_aws_s.Fakes.Mail.{office}
use email_service_with_aws_s.Webhook.{
  on_event, blacklist_each, SesNotification, Conditions, Services, World, kind, event_of,
  is_permanent_bounce, process_notification,
}
use email_service_with_aws_s.Webhook.Laws.{
  blacklisted_by, addresses_of, is_blacklisted-process_notification,
}
use email_service_with_aws_s.Fakes.Sql.{exact, memory_table}

abbrev events : Services
events = record {
  text = exact;
  logs = memory_table (log_clash exact);
  stats = memory_table (stat_clash exact);
  blacklist = memory_table (blacklist_clash exact);
}

abbrev quiet : Conditions
quiet = record {
  found = arrived;
  updated = arrived;
  counted = arrived;
  added = λ i. arrived;
  now = 5;
  today = 1;
  at = 5;
}

abbrev mailed : EmailLog
mailed = record {
  id = "L1";
  client_id = "c";
  aws_message_id = some "m1";
  from_email = "me@x";
  to_email = "bad@x";
  subject = "hi";
  status = sent;
  sent_at = some 2;
  delivered_at = none;
  opened_at = none;
  clicked_at = none;
  bounced_at = none;
  created_at = 1;
}

abbrev bounce : SesNotification
bounce = record {
  event_type = "Bounce";
  notification_type = "";
  message_id = "m1";
  bounce = some (record {
    bounce_type = "Permanent";
    bounce_sub_type = "General";
    bounced_recipients = "bad@x" ∷ [];
  });
  complaint = none;
}

abbrev before : World events
before = record { log_rows = mailed ∷ []; stat_rows = []; blacklist_rows = [] }

is_blacklisted-process_notification_example :
    is_blacklisted exact events.blacklist arrived "c" "bad@x"
      (process_notification events quiet bounce before).1.blacklist_rows
    ≡ map_ok
        (λ old. true || old)
        (is_blacklisted exact events.blacklist arrived "c" "bad@x" before.blacklist_rows)
unfolding get_by_aws_message_id blacklisted_by kind event_of is_permanent_bounce addresses_of
is_blacklisted-process_notification_example =
    is_blacklisted-process_notification events "c" "bad@x" quiet mailed refl (λ i. refl) bounce
      before refl

abbrev shared_before : Webhook.World (webhook office)
shared_before = record { log_rows = mailed ∷ []; stat_rows = []; blacklist_rows = [] }

never_mailed_again_example : any (λ x. any (λ a. a == x) ("bad@x" ∷ [])) ("you@x" ∷ []) ≡ false
unfolding get_by_aws_message_id blacklisted_by kind event_of is_permanent_bounce addresses_of
    valid_recipients is_blacklisted process_notification on_event update_status blacklist_each add
never_mailed_again_example =
    never_mailed_again office quiet mailed bounce shared_before refl (λ i. refl) refl (λ i. arrived)
      ("bad@x" ∷ "you@x" ∷ []) ("you@x" ∷ []) refl
