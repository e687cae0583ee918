-- ===== src/Fakes/Mail.antt =====
-- Mail services in memory, and a worker that uses them.
use mathlib.Core.List.{append-nil}
use email_service_with_aws_s.Base.{
  ℕ, suc, ◌≤◌, arith, repeat, String, ◌≡◌, refl, sym, Bool, true, false, none, some, List, [], ◌∷◌,
  ◌++◌, ◌⊎◌, inl, inr, Bytes, bytes, map, to_lower, Codec, ok, arrived,
}
use email_service_with_aws_s.Queue.{EmailJob}
use email_service_with_aws_s.Repository.Models.{
  log_clash, stat_clash, BlacklistedEmail, blacklist_clash,
}
use email_service_with_aws_s.Delivery.Ses.{Ses, RawEmail, Failure}
use email_service_with_aws_s.Delivery.Ses.Exception.{no_configuration_set}
use email_service_with_aws_s.Delivery.Mime.{Mime, Part}
use email_service_with_aws_s.Worker.{Services, Conditions, World}
use email_service_with_aws_s.Fakes.Redis.{memory_lists}
use email_service_with_aws_s.Fakes.Sql.{exact, memory_table}

abbrev pub plain_json : Codec EmailJob
plain_json = record {
  Text = EmailJob;
  marshal = ok;
  unmarshal = ok;
  unmarshal-marshal = λ a t e. sym e;
}

-- The account: is there a configuration set, and what was sent.
abbrev pub Account : Type 0
Account = Bool × List RawEmail

abbrev pub no_set : Failure
no_set = record {
  exception = no_configuration_set;
  code = some "ConfigurationSetDoesNotExist";
  text = "no such set";
}

abbrev pub reply : RawEmail → Account → (String ⊎ Failure) × Account
reply m (true, l) = (inl "id-1", (true, l ++ m ∷ []))
reply m (false, l) = (inr no_set, (false, l))

pub accepted_once :
    (m : RawEmail) (s : Account) (id : String)
    → (reply m s).0 ≡ inl id
    → (n : ℕ) × (suc n ≤ 3) × ((reply m s).1.1 ≡ s.1 ++ repeat (suc n) m)
accepted_once m (true, l) id e = (0, omega arith, refl)
accepted_once m (false, l) id e = cc

pub refused_unsent :
    (m : RawEmail) (s : Account) (f : Failure)
    → (reply m s).0 ≡ inr f
    → f.exception ≡ no_configuration_set
    → (reply m s).1.1 ≡ s.1
refused_unsent m (true, l) f e x = cc
refused_unsent m (false, l) f e x = refl

pub either_way :
    (m : RawEmail) (s : Account) → (n : ℕ) × (n ≤ 3) × ((reply m s).1.1 ≡ s.1 ++ repeat n m)
either_way m (true, l) = (1, omega arith, refl)
either_way m (false, l) = (0, omega arith, sym (append-nil l))

abbrev pub memory_ses : Ses
memory_ses = record {
  State = Account;
  max_attempts = 3;
  sent = λ s. s.1;
  send_raw_email = reply;
  create_configuration_set = λ name s. (none, (true, s.1));
  create_event_destination = λ d s. (none, s);
  sent-accepted = accepted_once;
  sent-no_configuration_set = refused_unsent;
  sent_times = either_way;
  sent-create_configuration_set = λ name s. refl;
  sent-create_event_destination = λ d s. refl;
}

abbrev contents : List Part → Bytes
contents [] = []
contents (p ∷ l) = p.content ++ contents l

abbrev pub plain_mime : Mime
plain_mime = record {
  quoted_printable = ok;
  multipart = λ parts. ok (contents parts);
  boundary = bytes "b";
  quote = λ s. s;
}

abbrev pub office : Services
office = record {
  text = exact;
  json = plain_json;
  redis = memory_lists EmailJob;
  logs = memory_table (log_clash exact);
  stats = memory_table (stat_clash exact);
  blacklist = memory_table (blacklist_clash exact);
  ses = memory_ses;
  mime = plain_mime;
  sns_topic_arn = "arn";
  lower = map to_lower;
  injector = record { base_url = bytes "http://t" };
}

abbrev pub calm : Conditions
calm = record {
  date = bytes "D";
  now = 5;
  today = 1;
  popped = arrived;
  checks = λ i. arrived;
  marked_failed = arrived;
  id_stored = arrived;
  marked_sent = arrived;
  counted = arrived;
  requeued = arrived;
}

abbrev pub letter : EmailJob
letter = record {
  id = "L1";
  client_id = "c";
  from = "me@x";
  to = "bad@x" ∷ "you@x" ∷ [];
  subject = "hi";
  html_body = [];
  text_body = bytes "t";
  reply_to = "";
  enqueued_at = 1;
  attempts = 0;
  last_error = "";
}

abbrev pub bad_address : BlacklistedEmail
bad_address = record { client_id = "c"; email = "bad@x"; reason = "bounce"; created_at = 1 }

abbrev pub morning : World office
morning = record {
  queue = λ k. [];
  log_rows = [];
  stat_rows = [];
  blacklist_rows = bad_address ∷ [];
  mail = (false, []);
}
