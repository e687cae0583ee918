-- ===== src/Examples/Sessions.antt =====
-- An SMTP session of one client, and two connections to a server that takes one.
use email_service_with_aws_s.Base.{
  ◌+ℤ◌, bytes, true, false, ◌≡◌, refl, none, some, List, [], ◌∷◌, pos, ok, arrived,
}
use email_service_with_aws_s.Queue.{EmailJob, push}
use email_service_with_aws_s.Repository.Models.{Client, log_clash, blacklist_clash}
use email_service_with_aws_s.Repository.Blacklist.{is_blacklisted}
use email_service_with_aws_s.Smtp.Parse.{MailLibrary}
use email_service_with_aws_s.Smtp.{
  Backend, new_session, auth_plain, mail_from, rcpt_to, Session, Conditions, World, receive_data,
}
use email_service_with_aws_s.RateLimit.Scripts.{check_all_script}
use email_service_with_aws_s.RateLimit.Keys.{hourly_key}
use email_service_with_aws_s.Repository.Logs.{create}
use email_service_with_aws_s.RateLimit.Limiter.{check_all}
use email_service_with_aws_s.RateLimit.Laws.{is_allowed}
use email_service_with_aws_s.Smtp.Data.{IsQueued, receive_data-IsQueued}
use email_service_with_aws_s.Smtp.Envelope.{
  Command, auth, mail, rcpt, perform_all, IsEnvelope, perform_all-IsEnvelope,
}
use email_service_with_aws_s.Fakes.Redis.{memory_counters, memory_lists}
use email_service_with_aws_s.Fakes.Sql.{exact, memory_table}
use email_service_with_aws_s.Fakes.Mail.{plain_json, bad_address}

abbrev unreadable : MailLibrary
unreadable = record {
  read_message = λ raw. none;
  parse_media_type = λ t. none;
  part_media = λ t. t;
  is_multipart = λ t. false;
  parts = λ b s. [];
  decode = λ s. (some s, []);
}

abbrev ann : Client
ann = record {
  id = "c";
  name = "Ann";
  smtp_username = "ann";
  smtp_password_hash = "";
  api_key = "k";
  hourly_limit = pos 5;
  monthly_limit = pos 9;
  is_active = true;
  created_at = 1;
  updated_at = 1;
}

abbrev server : Backend
server = record {
  text = exact;
  json = plain_json;
  counters = memory_counters;
  lists = memory_lists EmailJob;
  logs = memory_table (log_clash exact);
  blacklist = memory_table (blacklist_clash exact);
  mail = unreadable;
  validate = λ u p. ok ann;
  max_recipients = pos 1;
  max_message_bytes = pos 100;
}

abbrev commands : List (Command server)
commands =
    rcpt arrived "early@x" []
    ∷ auth "ann" "secret"
    ∷ mail arrived "ann@x" []
    ∷ rcpt arrived "bad@x" (bad_address ∷ [])
    ∷ rcpt arrived "one@x" []
    ∷ rcpt arrived "two@x" []
    ∷ []

-- One of four recipients is taken.
collected : (perform_all server commands new_session).to ≡ "one@x" ∷ []
unfolding perform_all new_session rcpt_to mail_from auth_plain is_blacklisted
collected = refl

perform_all-IsEnvelope_example : IsEnvelope server (perform_all server commands new_session)
perform_all-IsEnvelope_example = perform_all-IsEnvelope server commands

abbrev anns : Session
anns = record { client = some ann; from = "ann@x"; to = "one@x" ∷ [] }

abbrev delivery : Conditions
delivery = record {
  limited = arrived;
  at = record { year = 2024; month = 2; day = 29; nanos = 0 };
  uid = "u";
  checked_at = 0;
  body = ok (bytes "hello");
  log_id = "L1";
  created_at = 1;
  created = arrived;
  pushed = arrived;
  pushed_at = 7;
}

abbrev quiet : World server
quiet = record {
  counts = record { sets = λ k. []; counts = λ k. none; deadlines = λ k. none; time = 0 };
  log_rows = [];
  queue = λ k. [];
}

abbrev accepted : World server
accepted = (receive_data server delivery anns quiet).1

receive_data-IsQueued_example :
    (client : Client) × (some ann ≡ some client)
    × (is_allowed
          (check_all memory_counters arrived delivery.at "u" client.id client.hourly_limit
            client.monthly_limit quiet.counts).0
        ≡ true)
    × IsQueued server delivery anns [] [] client accepted
unfolding receive_data check_all check_all_script hourly_key ◌+ℤ◌ create push
receive_data-IsQueued_example =
    receive_data-IsQueued server delivery anns [] [] quiet accepted (record { encodes = tt })
      (record { encodes = tt }) refl refl
