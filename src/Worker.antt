-- ===== src/Worker.antt =====
-- cmd/worker/main.go: the loop that takes jobs from the queue and delivers them. One run of the loop's
-- body is a function on the state of the services that it calls.
pub mod Recipients
pub mod Steps
pub mod Sends
pub mod Fate
pub mod Run
pub mod Copies
pub mod Drain
pub mod Pool
pub mod Moved
pub mod Conserved
pub mod Stop
pub mod Bounces
use Prim.Native.String.{◌++◌}
use email_service_with_aws_s.Base.{
  ℕ, zero, suc, ◌+◌, String, Bool, true, false, Option, none, some, List, [], ◌∷◌, ◌==◌, leb,
  if◌then◌else◌, Bytes, bytes, not, Result, ok, err, map_ok, Error, wrap, Outcome, Codec,
}
use email_service_with_aws_s.Redis.Lists.{Lists}
use email_service_with_aws_s.Sql.{Table, Collation}
use email_service_with_aws_s.Queue.{EmailJob, max_retries, pop, retry}
use email_service_with_aws_s.Repository.Models.{
  EmailLog, log_clash, EmailDailyStat, stat_clash, BlacklistedEmail, blacklist_clash,
}
use email_service_with_aws_s.Repository.Models.Status.{sent, failed}
use email_service_with_aws_s.Repository.Logs.{update_status, set_aws_message_id}
use email_service_with_aws_s.Repository.Stats.{increment_stat}
use email_service_with_aws_s.Repository.Blacklist.{is_blacklisted}
use email_service_with_aws_s.Tracking.Inject.{Injector, inject_click_tracking, inject_open_pixel}
use email_service_with_aws_s.Delivery.Errors.{as_ses_error, error_text}
use email_service_with_aws_s.Delivery.Mime.{Mime, Message, is_empty}
use email_service_with_aws_s.Delivery.Ses.{Ses}
use email_service_with_aws_s.Delivery.Send.{send}

-- What a Worker is made of.
pub record Services : Type 1 where
  pub text : Collation
  pub json : Codec EmailJob
  pub redis : Lists json.Text
  pub logs : Table EmailLog (log_clash text)
  pub stats : Table EmailDailyStat (stat_clash text)
  pub blacklist : Table BlacklistedEmail (blacklist_clash text)
  pub ses : Ses
  pub mime : Mime
  pub sns_topic_arn : String
  pub lower : Bytes → Bytes
  pub injector : Injector

-- What becomes of the calls that one run of the loop's body makes, and what the clock shows.
-- `checks i` is the i-th look into the blacklist.
pub record Conditions : Type 0 where
  pub date : Bytes
  pub now : ℕ
  pub today : ℕ
  pub popped : Outcome
  pub checks : ℕ → Outcome
  pub marked_failed : Outcome
  pub id_stored : Outcome
  pub marked_sent : Outcome
  pub counted : Outcome
  pub requeued : Outcome

-- errors.As(err, &sesErr) && !sesErr.IsRetryable()
unfoldable pub is_permanent : Error → Bool
is_permanent e = elim (as_ses_error e) [ none ↦ false | some (code, retryable) ↦ not retryable ]

module _ (services : Services) where
  open services use {
    text, json, redis, logs, stats, blacklist, ses, mime, sns_topic_arn, lower, injector,
  }

  pub record World : Type 0 where
    pub queue : redis.State
    pub log_rows : logs.State
    pub stat_rows : stats.State
    pub blacklist_rows : blacklist.State
    pub mail : ses.State

  unfoldable pub valid_recipients :
      (ℕ → Outcome) → String → List String → blacklist.State → Result (List String)
  valid_recipients checks client_id [] s = ok []
  valid_recipients checks client_id (addr ∷ to) s =
      let rest = valid_recipients (λ i. checks (suc i)) client_id to s in
      elim (is_blacklisted text blacklist (checks zero) client_id addr s) [
        | err e ↦ err (wrap ("blacklist check " ++ addr) e)
        | ok true ↦ rest
        | ok false ↦ map_ok (λ l. addr ∷ l) rest
      ]

  -- none: the slice panics, and the process ends.
  unfoldable pub tracked_body : EmailJob → Option Bytes
  tracked_body job =
      if is_empty job.html_body
      then some job.html_body
      else inject_open_pixel lower injector
          (inject_click_tracking injector job.html_body (bytes job.id)) (bytes job.id)

  unfoldable pub message_of : EmailJob → List String → Bytes → Message
  message_of job valid_to html_body = record {
    client_id = job.client_id;
    log_id = job.id;
    from = job.from;
    to = valid_to;
    reply_to = job.reply_to;
    subject = job.subject;
    html_body = html_body;
    text_body = job.text_body;
    raw_email = [];
  }

  unfoldable pub mark_failed : Conditions → String → World → World
  mark_failed net id w = record w {
    log_rows = (update_status text logs net.marked_failed net.now id failed w.log_rows).1;
  }

  -- Steps 4 and 5 of processJob.
  unfoldable pub persist : Conditions → EmailJob → String → World → Result (Unit {0}) × World
  persist net job message_id w =
      let with_id = (set_aws_message_id text logs net.id_stored job.id message_id w.log_rows).1 in
      let (r, marked) = update_status text logs net.marked_sent net.now job.id sent with_id in
      elim r [
        | err e ↦ (err (wrap "update log status" e), record w { log_rows = marked })
        | ok done ↦ (
          ok tt,
          record w {
            log_rows = marked;
            stat_rows =
                (increment_stat text stats net.counted job.client_id net.today "sent"
                  w.stat_rows).1;
          },
        )
      ]

  -- Step 3 of processJob, and those that follow it.
  unfoldable pub deliver :
      Conditions → EmailJob → List String → Bytes → World → Result (Unit {0}) × World
  unfolding persist message_of
  deliver net job valid_to html_body w =
      let (r, mail) =
        send mime ses sns_topic_arn net.date (message_of job valid_to html_body) w.mail in
      elim r [
        | err e ↦ (err (wrap "ses.Send" e), record w { mail = mail })
        | ok message_id ↦ persist net job message_id (record w { mail = mail })
      ]

  unfoldable pub deliver_to :
      Conditions → EmailJob → List String → World → Option (Result (Unit {0}) × World)
  unfolding mark_failed deliver
  deliver_to net job [] w = some (ok tt, mark_failed net job.id w)
  deliver_to net job (a ∷ to) w = elim (tracked_body job) [
    | none ↦ none
    | some html_body ↦ some (deliver net job (a ∷ to) html_body w)
  ]

  unfoldable pub process_job : Conditions → EmailJob → World → Option (Result (Unit {0}) × World)
  unfolding deliver_to
  process_job net job w = elim (valid_recipients net.checks job.client_id job.to w.blacklist_rows) [
    | err e ↦ some (err e, w)
    | ok valid_to ↦ deliver_to net job valid_to w
  ]

  unfoldable pub requeue : Conditions → EmailJob → Error → World → World
  requeue net job e w =
      let (r, job', queue) = retry json redis net.requeued job (error_text e) w.queue in
      let w' = record w { queue = queue } in
      if leb max_retries job'.attempts then mark_failed net job.id w' else w'

  unfoldable pub handle_failure : Conditions → EmailJob → Error → World → World
  unfolding requeue
  handle_failure net job e w =
      if is_permanent e then mark_failed net job.id w else requeue net job e w

  unfoldable pub finish : Conditions → EmailJob → Result (Unit {0}) × World → World
  finish net job (ok done, w) = w
  finish net job (err e, w) = handle_failure net job e w

  -- The body of the loop of run; none is a panic.
  unfoldable pub work : Conditions → World → Option World
  unfolding process_job
  work net w =
      let (r, queue) = pop json redis net.popped w.queue in
      let w' = record w { queue = queue } in
      elim r [
        | err e ↦ some w'
        | ok none ↦ some w'
        | ok (some job) ↦ elim (process_job net job w') [
          | none ↦ none
          | some out ↦ some (finish net job out)
        ]
      ]
