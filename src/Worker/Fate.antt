-- ===== src/Worker/Fate.antt =====
-- What becomes of a job in the queue when it has been processed.
use email_service_with_aws_s.Base.{
  some-injective, ◌+◌, String, ◌≡◌, refl, sym, ap, ◌∙◌, true, false, List, [], ◌∷◌, some,
  Option-cases, Bool-cases, inl, inr, Result, Result-cases, ok, err, Error, ltb, leb, Bytes,
  arrived,
}
use email_service_with_aws_s.Queue.{
  EmailJob, email_queue_key, dead_queue_key, max_retries, pop, retry,
}
use email_service_with_aws_s.Queue.Order.{Holds, pop-cons, pop-dead}
use email_service_with_aws_s.Queue.Retry.{retry-ok, retry-Holds}
use email_service_with_aws_s.Repository.Models.Status.{sent as status_sent}
use email_service_with_aws_s.Repository.Logs.{update_status, set_aws_message_id}
use email_service_with_aws_s.Delivery.Errors.{error_text}
use email_service_with_aws_s.Delivery.Send.{send}
use email_service_with_aws_s.Worker.Steps.{no_delivery, one_delivery, checked, unchecked}
use email_service_with_aws_s.Worker.{
  Services, Conditions, World, valid_recipients, tracked_body, message_of, persist, deliver,
  deliver_to, mark_failed, process_job, is_permanent, requeue, handle_failure, finish, work,
}

module _ (services : Services) where
  open services use {text, json, redis, logs, ses, mime, sns_topic_arn}

  module _ (net : Conditions) (job : EmailJob) where
    persist-queue :
        (id : String) (v : World services) → (persist services net job id v).1.queue ≡ v.queue
    unfolding persist
    persist-queue id v =
        elim (Result-cases
          (update_status text logs net.marked_sent net.now job.id status_sent
            (set_aws_message_id text logs net.id_stored job.id id v.log_rows).1).0) [
              | inl (done, m) ↦ rw (m, persist) refl
              | inr (e, m) ↦ rw (m, persist) refl
            ]

    deliver-queue :
        (to : List String) (html : Bytes) (w : World services)
        → (deliver services net job to html w).1.queue ≡ w.queue
    unfolding deliver
    deliver-queue to html w =
        elim (Result-cases
          (send mime ses sns_topic_arn net.date (message_of services job to html) w.mail).0) [
            | inl (id, m) ↦ rw (m, deliver) (persist-queue id _)
            | inr (e, m) ↦ rw (m, deliver) refl
          ]

    module _ (w : World services) where
      deliver_to-queue :
          (l : List String) (out : Result (Unit {0}) × World services)
          → deliver_to services net job l w ≡ some out
          → out.1.queue ≡ w.queue
      unfolding deliver_to mark_failed
      deliver_to-queue [] out h = ap (λ o. o.1.queue) (sym (some-injective _ out h))
      deliver_to-queue (a ∷ to) out h = elim (Option-cases (tracked_body services job)) [
        | inl panics ↦ cc (no_delivery services net job w a to panics, h)
        | inr (html, body) ↦
            ap (λ o. o.1.queue)
              (some-injective out _ (sym h ∙ one_delivery services net job w a to html body))
            ∙ deliver-queue (a ∷ to) html w
      ]

      -- Processing a job does not touch the queue.
      pub process_job-queue :
          (out : Result (Unit {0}) × World services)
          → process_job services net job w ≡ some out
          → out.1.queue ≡ w.queue
      process_job-queue out h =
          elim (Result-cases
            (valid_recipients services net.checks job.client_id job.to w.blacklist_rows)) [
              | inl (l, m) ↦ deliver_to-queue l out (sym (checked services net job w l m) ∙ h)
              | inr (e, m) ↦
                  ap (λ o. o.1.queue)
                    (some-injective out _ (sym h ∙ unchecked services net job w e m))
            ]

  module _ (job : EmailJob) (rest dead : List EmailJob) where
    abbrev pub tried_again : Error → EmailJob
    tried_again e = record job { attempts = job.attempts + 1; last_error = error_text e }

    pub record Queues (v : World services) (waiting buried : List EmailJob) : Type 0 where
      pub first_waiting : Holds json redis email_queue_key v.queue waiting
      pub all_buried : Holds json redis dead_queue_key v.queue buried

    -- Where the job is after a run that processed it with this result.
    pub data Kept (v : World services) : Result (Unit {0}) → Type 0 where
      finished : Queues v rest dead → Kept v (ok tt)
      refused : (e : Error) → is_permanent e ≡ true → Queues v rest dead → Kept v (err e)
      again :
          (e : Error)
          → is_permanent e ≡ false
          → ltb (job.attempts + 1) max_retries ≡ true
          → Queues v (tried_again e ∷ rest) dead
          → Kept v (err e)
      given_up :
          (e : Error)
          → is_permanent e ≡ false
          → ltb (job.attempts + 1) max_retries ≡ false
          → Queues v rest (tried_again e ∷ dead)
          → Kept v (err e)

  module _ (net : Conditions) (job : EmailJob) (rest dead : List EmailJob)
      (requeued : net.requeued ≡ arrived)
      (writes : (j : EmailJob) → (t : json.Text) × (json.marshal j ≡ ok t)) where
    requeue-queue :
        (e : Error) (v : World services)
        → (requeue services net job e v).queue
          ≡ (retry json redis net.requeued job (error_text e) v.queue).2
    unfolding requeue mark_failed
    requeue-queue e v =
        elim (Bool-cases
          (leb max_retries (retry json redis net.requeued job (error_text e) v.queue).1.attempts)) [
            | inl over ↦ rw (over, requeue) refl
            | inr fresh ↦ rw (fresh, requeue) refl
          ]

    moved :
        (e : Error) (v : World services)
        → (requeue services net job e v).queue
          ≡ (retry json redis arrived job (error_text e) v.queue).2
    moved e v =
        requeue-queue e v ∙ ap (λ n. (retry json redis n job (error_text e) v.queue).2) requeued

    retried :
        (e : Error) (v : World services)
        → is_permanent e ≡ false
        → Queues job rest dead v rest dead
        → Kept job rest dead (requeue services net job e v) (err e)
    retried e v retryable q =
        let (t, m) = writes (tried_again job rest dead e) in
        let (waiting, buried) =
          retry-Holds json redis job (error_text e) rest dead v.queue q.first_waiting q.all_buried (
            ap (λ o. o.0)
              (retry-ok json redis job (error_text e) rest dead v.queue q.first_waiting q.all_buried
                t m)) in
        let place = moved e v in
        elim (Bool-cases (ltb (job.attempts + 1) max_retries)) [
          | inl some_left ↦ again e retryable some_left (record {
            first_waiting = rw place (rw some_left at waiting);
            all_buried = rw place (rw some_left at buried);
          })
          | inr spent ↦ given_up e retryable spent (record {
            first_waiting = rw place (rw spent at waiting);
            all_buried = rw place (rw spent at buried);
          })
        ]

    -- What a worker does with the result of a job, when the call of Retry arrives.
    pub Kept-finish :
        (r : Result (Unit {0})) (v : World services)
        → Queues job rest dead v rest dead
        → Kept job rest dead (finish services net job (r, v)) r
    unfolding finish handle_failure mark_failed
    Kept-finish (ok done) v q = finished q
    Kept-finish (err e) v q = elim (Bool-cases (is_permanent e)) [
      | inl permanent ↦
          rw (permanent, handle_failure)
            (refused e permanent
              (record { first_waiting = q.first_waiting; all_buried = q.all_buried }))
      | inr retryable ↦ rw (retryable, handle_failure) (retried e v retryable q)
    ]

  module _ (net : Conditions) (job : EmailJob) (rest dead : List EmailJob) (w : World services)
      (h : Holds json redis email_queue_key w.queue (job ∷ rest))
      (d : Holds json redis dead_queue_key w.queue dead) (popped : net.popped ≡ arrived)
      (requeued : net.requeued ≡ arrived)
      (writes : (j : EmailJob) → (t : json.Text) × (json.marshal j ≡ ok t)) where
    abbrev pub after_pop : World services
    after_pop = record w { queue = (pop json redis net.popped w.queue).1 }

    popped_job : (pop json redis net.popped w.queue).0 ≡ ok (some job)
    popped_job = rw popped (pop-cons json redis job rest w.queue h).0

    Queues-after_pop : Queues job rest dead after_pop rest dead
    Queues-after_pop = rw popped (record {
      first_waiting = (pop-cons json redis job rest w.queue h).1;
      all_buried = pop-dead json redis dead w.queue d;
    })

    work-processed :
        (out : Result (Unit {0}) × World services)
        → process_job services net job after_pop ≡ some out
        → work services net w ≡ some (finish services net job out)
    unfolding work
    work-processed out p = rw (popped_job, p, work) refl

    -- If the calls of Pop and Retry arrive, every job can be encoded and processing does not panic,
    -- then no job is lost: done or permanently refused it is in neither queue, and failed otherwise
    -- it is the next in the queue or, at its third failure, among the dead jobs. The other jobs stay.
    pub work-Kept :
        (r : Result (Unit {0})) (v : World services)
        → process_job services net job after_pop ≡ some (r, v)
        → (v' : World services) × (work services net w ≡ some v') × Kept job rest dead v' r
    work-Kept r v p = (
      finish services net job (r, v),
      work-processed (r, v) p,
      Kept-finish net job rest dead requeued writes r v (record {
        first_waiting =
            rw (process_job-queue net job after_pop (r, v) p) Queues-after_pop.first_waiting;
        all_buried = rw (process_job-queue net job after_pop (r, v) p) Queues-after_pop.all_buried;
      }),
    )
