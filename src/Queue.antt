-- ===== src/Queue.antt =====
-- internal/queue/queue.go: the queue of email jobs in Redis, and the queue of dead jobs.
pub mod Order
pub mod Retry
use Prim.Native.String.{◌++◌}
use email_service_with_aws_s.Base.{
  ℕ, ◌+◌, String, Bool, Option, none, some, List, length, ltb, if◌then◌else◌, Codec, Result, ok,
  err, wrap, Bytes, Outcome, attempt, attempt_, query, wrapped, map_ok,
}
use email_service_with_aws_s.Redis.Lists.{Lists}

abbrev pub email_queue_key : String
email_queue_key = "queue:emails"

abbrev pub dead_queue_key : String
dead_queue_key = "queue:emails:dead"

abbrev pub max_retries : ℕ
max_retries = 3

-- Times are nanoseconds since the epoch.
pub record EmailJob : Type 0 where
  pub id : String
  pub client_id : String
  pub from : String
  pub to : List String
  pub subject : String
  pub html_body : Bytes
  pub text_body : Bytes
  pub reply_to : String
  pub enqueued_at : ℕ
  pub attempts : ℕ
  pub last_error : String

-- `json` is encoding/json on EmailJob. Each method changes the job that it is given, as the source
-- does through the pointer, and returns it.
module _ (json : Codec EmailJob) (redis : Lists json.Text) where
  open json use {Text, marshal, unmarshal}
  open redis use {State, items, lpush, rpush, brpop}

  -- Push, and Enqueue, which is Push.
  unfoldable pub push : Outcome → ℕ → EmailJob → State → Result (Unit {0}) × EmailJob × State
  push net now job s =
      let job' = record job { enqueued_at = now } in
      elim (marshal job') [
        | err e ↦ (err (wrap "queue push marshal" e), job', s)
        | ok t ↦ (
          wrapped "queue push" (attempt_ net (lpush email_queue_key t) s).0,
          job',
          (attempt_ net (lpush email_queue_key t) s).1,
        )
      ]

  -- the `push` with a small p
  unfoldable pub push_to : Outcome → String → EmailJob → State → Result (Unit {0}) × State
  push_to net key job s = elim (marshal job) [
    | err e ↦ (err (wrap "queue push marshal" e), s)
    | ok t ↦ (
      wrapped ("queue push " ++ key) (attempt_ net (rpush key t) s).0,
      (attempt_ net (rpush key t) s).1,
    )
  ]

  decoded : Result (Option Text) → Result (Option EmailJob)
  decoded (err e) = err (wrap "queue pop" e)
  decoded (ok none) = ok none
  decoded (ok (some t)) = wrapped "queue pop unmarshal" (map_ok some (unmarshal t))

  -- `ok none` is the timeout.
  unfoldable pub pop : Outcome → State → Result (Option EmailJob) × State
  unfolding decoded
  pop net s = let (r, s') = attempt net (brpop email_queue_key) s in (decoded r, s')

  unfoldable pub retry : Outcome → EmailJob → String → State → Result (Unit {0}) × EmailJob × State
  unfolding push_to
  retry net job reason s =
      let job' = record job { attempts = job.attempts + 1; last_error = reason } in
      let key = if ltb job'.attempts max_retries then email_queue_key else dead_queue_key in
      let (r, s') = push_to net key job' s in (r, job', s')

  -- Len and DeadLen
  unfoldable pub len : Outcome → State → Result ℕ
  len net s = wrapped "queue len" (query net (length (items s email_queue_key)))

  unfoldable pub dead_len : Outcome → State → Result ℕ
  dead_len net s = wrapped "dead queue len" (query net (length (items s dead_queue_key)))
