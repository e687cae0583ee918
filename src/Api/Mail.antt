-- ===== src/Api/Mail.antt =====
-- cmd/api/main.go: POST /v1/email/send.
use Prim.Native.String.{◌++◌}
use email_service_with_aws_s.Base.{
  ℕ, ◌≤◌, String, ◌≡◌, Bool, false, none, List, [], ◌∷◌, is_empty, length, if◌then◌else◌, Bytes,
  Codec, Result, ok, err, Outcome,
}
use email_service_with_aws_s.Redis.Counters.{Counters}
use email_service_with_aws_s.Redis.Lists.{Lists}
use email_service_with_aws_s.Redis.Cache.{Cache}
use email_service_with_aws_s.Sql.{Table, Collation}
use email_service_with_aws_s.RateLimit.Calendar.{Time}
use email_service_with_aws_s.RateLimit.Limiter.{check_all}
use email_service_with_aws_s.Queue.{EmailJob, push}
use email_service_with_aws_s.Repository.Models.{
  Client, client_clash, EmailLog, log_clash, BlacklistedEmail, blacklist_clash,
}
use email_service_with_aws_s.Repository.Models.Status.{queued}
use email_service_with_aws_s.Repository.Logs.{create}
use email_service_with_aws_s.Repository.Blacklist.{is_blacklisted}
use email_service_with_aws_s.Auth.Snapshot.{ClientSnapshot}
use email_service_with_aws_s.Auth.{Calls}
use email_service_with_aws_s.Middleware.{passes, aborts, api_key_middleware}
use email_service_with_aws_s.Api.{Answer, answers, fails}

-- The body of a request.
pub record SendRequest : Type 0 where
  pub to : List String
  pub subject : String
  pub html : Bytes
  pub text : Bytes
  pub from : String
  pub reply_to : String

-- c.ShouldBindJSON with the tags `required` of `to` and `subject` and `min=1` of `to`
pub record Binder : Type 0 where
  pub bind : Bytes → Result SendRequest
  pub bound_to : (b : Bytes) (r : SendRequest) → bind b ≡ ok r → 1 ≤ length r.to
  pub bound_subject : (b : Bytes) (r : SendRequest) → bind b ≡ ok r → is_empty r.subject ≡ false

-- What the handler and the middleware before it use.
pub record Services : Type 1 where
  pub text : Collation
  pub client_json : Codec ClientSnapshot
  pub json : Codec EmailJob
  pub cache : Cache client_json.Text
  pub counters : Counters
  pub lists : Lists json.Text
  pub clients : Table Client (client_clash text)
  pub logs : Table EmailLog (log_clash text)
  pub blacklist : Table BlacklistedEmail (blacklist_clash text)
  pub binder : Binder
  -- cfg.SMTP.Domain
  pub domain : String

-- What becomes of the calls, the clock and the uuids.
pub record Conditions : Type 0 where
  pub auth : Calls
  pub limited : Outcome
  pub at : Time
  pub uid : String
  pub looked_up : Outcome
  pub log_id : String
  pub created_at : ℕ
  pub created : Outcome
  pub pushed : Outcome
  pub pushed_at : ℕ

abbrev pub first_of : List String → String
first_of [] = ""
first_of (a ∷ l) = a

unfoldable pub sender : String → SendRequest → SendRequest
sender domain r = if is_empty r.from then record r { from = "noreply@" ++ domain } else r

unfoldable pub log_of : String → Client → SendRequest → EmailLog
log_of log_id client r = record {
  id = log_id;
  client_id = client.id;
  aws_message_id = none;
  from_email = r.from;
  to_email = first_of r.to;
  subject = r.subject;
  status = queued;
  sent_at = none;
  delivered_at = none;
  opened_at = none;
  clicked_at = none;
  bounced_at = none;
  created_at = 0;
}

unfoldable pub job_of : String → Client → SendRequest → EmailJob
job_of log_id client r = record {
  id = log_id;
  client_id = client.id;
  from = r.from;
  to = r.to;
  subject = r.subject;
  html_body = r.html;
  text_body = r.text;
  reply_to = r.reply_to;
  enqueued_at = 0;
  attempts = 0;
  last_error = "";
}

-- `bl, _ :=`: an error is no entry.
unfoldable pub is_listed : Result Bool → Bool
is_listed (ok listed) = listed
is_listed (err e) = false

module _ (services : Services) where
  open services use {
    text, client_json, json, cache, counters, lists, clients, logs, blacklist, binder, domain,
  }

  pub record World : Type 0 where
    pub counts : counters.State
    pub log_rows : logs.State
    pub queue : lists.State

  internal : Answer String
  internal = fails 500 "INTERNAL_ERROR"

  -- From the blacklist on; the answer is the id of the log.
  unfoldable pub enqueue :
      Conditions → blacklist.State → Client → SendRequest → World → Answer String × World
  unfolding internal
  enqueue net b client r w =
      if is_listed (is_blacklisted text blacklist net.looked_up client.id (first_of r.to) b)
      then (fails 422 "RECIPIENT_BLACKLISTED", w)
      else let (m, rows) =
          create text logs net.created net.created_at (log_of net.log_id client r) w.log_rows in
        elim m [
          | err e ↦ (internal, record w { log_rows = rows })
          | ok done ↦
              let (q, job, queue) =
                push json lists net.pushed net.pushed_at (job_of net.log_id client r) w.queue in
              let w' = record w { log_rows = rows; queue = queue } in
              elim q [ err e ↦ (internal, w') | ok done' ↦ (answers 202 net.log_id, w') ]
        ]

  unfoldable pub accept :
      Conditions → blacklist.State → Client → SendRequest → World → Answer String × World
  unfolding enqueue
  accept net b client r w =
      let (l, counts) =
        check_all counters net.limited net.at net.uid client.id client.hourly_limit
          client.monthly_limit w.counts in
      let w' = record w { counts = counts } in
      elim l [
        | err e ↦ (internal, w')
        | ok answer ↦
            if answer.allowed
            then enqueue net b client r w'
            else (fails 429 "RATE_LIMIT_EXCEEDED", w')
      ]

  unfoldable pub send_email :
      Conditions → blacklist.State → Client → Bytes → World → Answer String × World
  unfolding accept
  send_email net b client body w = elim (binder.bind body) [
    | err e ↦ (fails 400 "INVALID_REQUEST", w)
    | ok r ↦ accept net b client (sender domain r) w
  ]

  -- The route: the middleware, then the handler.
  unfoldable pub post_send :
      Conditions
      → String
      → Bytes
      → clients.State
      → blacklist.State
      → cache.State
      → World
      → Answer String × World × cache.State
  post_send net header body db b s w =
      let (p, s') = api_key_middleware text clients client_json cache net.auth header db s in
      elim p [
        | aborts code ↦ (fails code "UNAUTHORIZED", w, s')
        | passes client ↦ let (answer, w') = send_email net b client body w in (answer, w', s')
      ]
