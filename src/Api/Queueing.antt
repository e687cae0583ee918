-- ===== src/Api/Queueing.antt =====
-- When a message passes the limiter and the blacklist, and is queued.
use email_service_with_aws_s.Base.{
  ℕ, String, ◌≡◌, refl, sym, ap, ◌∙◌, Bool, true, false, Bool-cases, List, [], ◌∷◌, ◌++◌, inl, inr,
  Error, Result, Result-cases, ok, err, arrived,
}
use email_service_with_aws_s.RateLimit.Limiter.{LimitResult, check_all}
use email_service_with_aws_s.RateLimit.Laws.{is_allowed}
use email_service_with_aws_s.Queue.{EmailJob, email_queue_key, dead_queue_key, push}
use email_service_with_aws_s.Queue.Order.{Holds}
use email_service_with_aws_s.Queue.Retry.{push-Holds}
use email_service_with_aws_s.Repository.Models.{Client}
use email_service_with_aws_s.Repository.Logs.{create}
use email_service_with_aws_s.Repository.Blacklist.{is_blacklisted}
use email_service_with_aws_s.Api.{answers, is_answer}
use email_service_with_aws_s.Api.Mail.{
  SendRequest, Services, Conditions, World, first_of, log_of, job_of, is_listed, enqueue, accept,
}

module _ (services : Services) (net : Conditions) (b : services.blacklist.State)
    (queue dead : List EmailJob) where
  open services use {
    text, client_json, json, cache, counters, lists, clients, logs, blacklist, binder, domain,
  }

  abbrev pub queued_job : Client → SendRequest → EmailJob
  queued_job client r = record (job_of net.log_id client r) { enqueued_at = net.pushed_at }

  -- The request's first recipient was not found blacklisted, and its job is the last in the queue.
  pub record IsQueued (client : Client) (r : SendRequest) (v : World services) : Type 0 where
    pub unlisted :
        is_listed (is_blacklisted text blacklist net.looked_up client.id (first_of r.to) b) ≡ false
    pub waiting : Holds json lists email_queue_key v.queue (queue ++ queued_job client r ∷ [])
    pub buried : Holds json lists dead_queue_key v.queue dead

  module _ (client : Client) (r : SendRequest) (w : World services)
      (h : Holds json lists email_queue_key w.queue queue)
      (d : Holds json lists dead_queue_key w.queue dead) (pushed : net.pushed ≡ arrived) where
    abbrev listed : Bool
    listed = is_listed (is_blacklisted text blacklist net.looked_up client.id (first_of r.to) b)

    abbrev recorded : Result (Unit {0})
    recorded =
        (create text logs net.created net.created_at (log_of net.log_id client r) w.log_rows).0

    abbrev queueing : Result (Unit {0}) × EmailJob × lists.State
    queueing = push json lists net.pushed net.pushed_at (job_of net.log_id client r) w.queue

    refused : listed ≡ true → is_answer (enqueue services net b client r w).0 ≡ false
    unfolding enqueue is_answer
    refused m = rw (m, enqueue) refl

    unrecorded :
        (x : Error)
        → listed ≡ false
        → recorded ≡ err x
        → is_answer (enqueue services net b client r w).0 ≡ false
    unfolding enqueue is_answer
    unrecorded x m m' = rw (m, m', enqueue) refl

    unqueued :
        (u : Unit {0}) (x : Error)
        → listed ≡ false
        → recorded ≡ ok u
        → queueing.0 ≡ err x
        → is_answer (enqueue services net b client r w).0 ≡ false
    unfolding enqueue is_answer
    unqueued u x m m' m'' = rw (m, m', m'', enqueue) refl

    queue-enqueue :
        (u u' : Unit {0})
        → listed ≡ false
        → recorded ≡ ok u
        → queueing.0 ≡ ok u'
        → (enqueue services net b client r w).1.queue ≡ queueing.2
    unfolding enqueue
    queue-enqueue u u' m m' m'' = rw (m, m', m'', enqueue) refl

    enqueue-IsQueued :
        (code : ℕ) (id : String) (v : World services)
        → enqueue services net b client r w ≡ (answers code id, v)
        → IsQueued client r v
    unfolding is_answer
    enqueue-IsQueued code id v e = elim (Bool-cases listed) [
      | inl m ↦ cc (refused m, ap (λ o. is_answer o.0) e)
      | inr m ↦ elim (Result-cases recorded) [
        | inr (x, m') ↦ cc (unrecorded x m m', ap (λ o. is_answer o.0) e)
        | inl (u, m') ↦ elim (Result-cases queueing.0) [
          | inr (x, m'') ↦ cc (unqueued u x m m' m'', ap (λ o. is_answer o.0) e)
          | inl (u', m'') ↦
              let arrived_ok : (push json lists arrived net.pushed_at (job_of net.log_id client r)
                    w.queue).0
                  ≡ ok tt =
                rw pushed at m'' in
              let (waiting, buried) =
                push-Holds json lists net.pushed_at (job_of net.log_id client r) queue dead w.queue
                  h d arrived_ok in
              let place = sym (ap (λ o. o.1.queue) e) ∙ queue-enqueue u u' m m' m'' in
              record {
                unlisted = m;
                waiting = rw (place, pushed) waiting;
                buried = rw (place, pushed) buried;
              }
        ]
      ]
    ]

  module _ (client : Client) (r : SendRequest) (w : World services)
      (h : Holds json lists email_queue_key w.queue queue)
      (d : Holds json lists dead_queue_key w.queue dead) (pushed : net.pushed ≡ arrived) where
    abbrev limit : Result LimitResult × counters.State
    limit =
        check_all counters net.limited net.at net.uid client.id client.hourly_limit
          client.monthly_limit w.counts

    unlimited :
        (x : Error) → limit.0 ≡ err x → is_answer (accept services net b client r w).0 ≡ false
    unfolding accept is_answer
    unlimited x m = rw (m, accept) refl

    over_limit :
        (l : LimitResult)
        → limit.0 ≡ ok l
        → l.allowed ≡ false
        → is_answer (accept services net b client r w).0 ≡ false
    unfolding accept is_answer
    over_limit l m no_room = rw (m, no_room, accept) refl

    within_limit :
        (l : LimitResult)
        → limit.0 ≡ ok l
        → l.allowed ≡ true
        → accept services net b client r w
          ≡ enqueue services net b client r (record w { counts = limit.1 })
    unfolding accept
    within_limit l m room = rw (m, room, accept) refl

    pub accept-IsQueued :
        (code : ℕ) (id : String) (v : World services)
        → accept services net b client r w ≡ (answers code id, v)
        → (is_allowed limit.0 ≡ true) × IsQueued client r v
    unfolding is_answer
    accept-IsQueued code id v e = elim (Result-cases limit.0) [
      | inr (x, m) ↦ cc (unlimited x m, ap (λ o. is_answer o.0) e)
      | inl (l, m) ↦ elim (Bool-cases l.allowed) [
        | inr no_room ↦ cc (over_limit l m no_room, ap (λ o. is_answer o.0) e)
        | inl room ↦ (
          ap is_allowed m ∙ room,
          enqueue-IsQueued client r (record w { counts = limit.1 }) h d pushed code id v
              (sym (within_limit l m room) ∙ e),
        )
      ]
    ]
