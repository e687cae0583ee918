-- ===== src/Smtp.antt =====
-- cmd/smtp/main.go: the sessions of the SMTP server. A command answers none if it is accepted, else
-- the code of the SMTPError.
pub mod Parse
pub mod Connections
pub mod Envelope
pub mod Data
use email_service_with_aws_s.Base.{
  take, ℕ, ◌+◌, ◌*◌, String, Bool, true, false, not, Option, none, some, List, [], ◌∷◌, ◌++◌, ℤ,
  pos, pos_part, leb_ℤ, ◌+ℤ◌, ltb, length, if◌then◌else◌, Bytes, Codec, Error, Result, ok, err,
  Outcome,
}
use email_service_with_aws_s.Redis.Counters.{Counters}
use email_service_with_aws_s.Redis.Lists.{Lists}
use email_service_with_aws_s.Sql.{Table, Collation}
use email_service_with_aws_s.RateLimit.Calendar.{Time, unix, hour}
use email_service_with_aws_s.RateLimit.Limiter.{LimitResult, check_all}
use email_service_with_aws_s.Queue.{EmailJob, push}
use email_service_with_aws_s.Repository.Models.{
  Client, EmailLog, log_clash, BlacklistedEmail, blacklist_clash,
}
use email_service_with_aws_s.Repository.Models.Status.{queued}
use email_service_with_aws_s.Repository.Logs.{create}
use email_service_with_aws_s.Repository.Blacklist.{is_blacklisted}
use email_service_with_aws_s.Smtp.Parse.{MailLibrary, parse_raw_message}

-- smtpBackend, without the counter of connections. `validate` is ValidateSmtpCredentials.
pub record Backend : Type 1 where
  pub text : Collation
  pub json : Codec EmailJob
  pub counters : Counters
  pub lists : Lists json.Text
  pub logs : Table EmailLog (log_clash text)
  pub blacklist : Table BlacklistedEmail (blacklist_clash text)
  pub mail : MailLibrary
  pub validate : String → String → Result Client
  pub max_recipients : ℤ
  pub max_message_bytes : ℤ

-- smtpSession
pub record Session : Type 0 where
  pub client : Option Client
  pub from : String
  pub to : List String

unfoldable pub new_session : Session
new_session = record { client = none; from = ""; to = [] }

-- What becomes of the calls of Data, what the clock shows before and after the limits are checked,
-- the two uuids, and the body as it is read.
pub record Conditions : Type 0 where
  pub limited : Outcome
  pub at : Time
  pub uid : String
  pub checked_at : ℕ
  pub body : Result Bytes
  pub log_id : String
  pub created_at : ℕ
  pub created : Outcome
  pub pushed : Outcome
  pub pushed_at : ℕ

module _ (backend : Backend) where
  open backend use {
    text, json, counters, lists, logs, blacklist, mail, validate, max_recipients, max_message_bytes,
  }

  unfoldable pub auth_plain : String → String → Session → Option ℕ × Session
  auth_plain username password s = elim (validate username password) [
    | err e ↦ (some 535, s)
    | ok client ↦ (none, record s { client = some client })
  ]

  -- err == nil && bl
  unfoldable pub is_refused : Result Bool → Bool
  is_refused (ok listed) = listed
  is_refused (err e) = false

  unfoldable pub mail_from : Outcome → String → blacklist.State → Session → Option ℕ × Session
  unfolding is_refused
  mail_from net from b s = elim s.client [
    | none ↦ (some 530, s)
    | some client ↦
        if is_refused (is_blacklisted text blacklist net client.id from b)
        then (some 553, s)
        else (none, record s { from = from })
  ]

  unfoldable pub rcpt_to : Outcome → String → blacklist.State → Session → Option ℕ × Session
  unfolding is_refused
  rcpt_to net to b s = elim s.client [
    | none ↦ (some 530, s)
    | some client ↦
        if leb_ℤ max_recipients (pos (length s.to))
        then (some 452, s)
        else if is_refused (is_blacklisted text blacklist net client.id to b)
        then (some 550, s)
        else (none, record s { to = s.to ++ to ∷ [] })
  ]

  -- Reset
  unfoldable pub reset : Session → Session
  reset s = record s { from = ""; to = [] }

  -- What Data writes.
  pub record World : Type 0 where
    pub counts : counters.State
    pub log_rows : logs.State
    pub queue : lists.State

  abbrev first_of : List String → String
  first_of [] = ""
  first_of (a ∷ l) = a

  unfoldable pub log_of : String → Client → Session → String → EmailLog
  log_of log_id client s subject = record {
    id = log_id;
    client_id = client.id;
    aws_message_id = none;
    from_email = s.from;
    to_email = first_of s.to;
    subject = subject;
    status = queued;
    sent_at = none;
    delivered_at = none;
    opened_at = none;
    clicked_at = none;
    bounced_at = none;
    created_at = 0;
  }

  unfoldable pub job_of : String → Client → Session → String × Bytes × Bytes → EmailJob
  job_of log_id client s (subject, html_body, text_body) = record {
    id = log_id;
    client_id = client.id;
    from = s.from;
    to = s.to;
    subject = subject;
    html_body = html_body;
    text_body = text_body;
    reply_to = "";
    enqueued_at = 0;
    attempts = 0;
    last_error = "";
  }

  -- Data, from the parsed message on.
  unfoldable pub accept :
      Conditions → Client → Session → String × Bytes × Bytes → World → Option ℕ × World
  unfolding log_of job_of
  accept net client s parsed w =
      let (r, rows) =
        create text logs net.created net.created_at (log_of net.log_id client s parsed.0)
          w.log_rows in
      elim r [
        | err e ↦ (some 451, record w { log_rows = rows })
        | ok done ↦
            let (q, job, queue) =
              push json lists net.pushed net.pushed_at (job_of net.log_id client s parsed)
                w.queue in
            let w' = record w { log_rows = rows; queue = queue } in
            elim q [ err e ↦ (some 451, w') | ok done' ↦ (none, w') ]
      ]

  -- io.LimitReader stops one byte after the limit.
  unfoldable pub read_body : Conditions → Client → Session → World → Option ℕ × World
  unfolding accept
  read_body net client s w = elim net.body [
    | err e ↦ (some 451, w)
    | ok body ↦
        let raw = take (pos_part (max_message_bytes +ℤ pos 1)) body in
        if leb_ℤ (pos (length raw)) max_message_bytes
        then accept net client s (parse_raw_message mail raw) w
        else (some 552, w)
  ]

  unfoldable pub denied : Conditions → LimitResult → ℕ
  denied net r = if ltb (net.checked_at + 2 * hour) r.reset_at then 452 else 451

  unfoldable pub data_for : Conditions → Client → Session → World → Option ℕ × World
  unfolding read_body denied
  data_for net client s w =
      let (r, counts) =
        check_all counters net.limited net.at net.uid client.id client.hourly_limit
          client.monthly_limit w.counts in
      let w' = record w { counts = counts } in
      elim r [
        | err e ↦ (some 451, w')
        | ok answer ↦
            if answer.allowed then read_body net client s w' else (some (denied net answer), w')
      ]

  unfoldable pub receive_data : Conditions → Session → World → Option ℕ × World
  unfolding data_for
  receive_data net s w = elim s.client [
    | none ↦ (some 530, w)
    | some client ↦ data_for net client s w
  ]
