-- ===== src/Smtp/Data.antt =====
-- What Data does when it accepts a message.
use email_service_with_aws_s.Base.{
  take, Error, String, ◌≡◌, refl, sym, ap, ◌∙◌, true, false, none, some, Option-cases, Bool-cases,
  List, [], ◌∷◌, ◌++◌, inl, inr, Bytes, Result, Result-cases, ok, err, arrived, leb_ℤ, pos,
  pos_part, length, ◌+ℤ◌,
}
use email_service_with_aws_s.RateLimit.Limiter.{LimitResult, check_all}
use email_service_with_aws_s.RateLimit.Laws.{is_allowed}
use email_service_with_aws_s.Queue.{EmailJob, email_queue_key, dead_queue_key, push}
use email_service_with_aws_s.Queue.Order.{Holds}
use email_service_with_aws_s.Queue.Retry.{push-Holds}
use email_service_with_aws_s.Repository.Models.{Client}
use email_service_with_aws_s.Repository.Logs.{create}
use email_service_with_aws_s.Smtp.{
  Backend, Session, Conditions, World, log_of, job_of, accept, read_body, denied, data_for,
  receive_data,
}
use email_service_with_aws_s.Smtp.Parse.{parse_raw_message}

module _ (backend : Backend) (net : Conditions) (s : Session) (queue dead : List EmailJob) where
  open backend use {text, json, counters, lists, logs, mail, max_message_bytes}

  -- The job of the session's envelope is the last in the queue.
  pub data IsQueued (client : Client) (v : World backend) : Type 0 where
    queued :
        (parsed : String × Bytes × Bytes)
        → Holds json lists email_queue_key v.queue (
            queue
            ++ record (job_of backend net.log_id client s parsed) { enqueued_at = net.pushed_at }
              ∷ [])
        → Holds json lists dead_queue_key v.queue dead
        → IsQueued client v

  module _ (client : Client) (parsed : String × Bytes × Bytes) (w : World backend)
      (h : Holds json lists email_queue_key w.queue queue)
      (d : Holds json lists dead_queue_key w.queue dead) (pushed : net.pushed ≡ arrived) where
    abbrev recorded : Result (Unit {0})
    recorded =
        (create text logs net.created net.created_at (log_of backend net.log_id client s parsed.0)
          w.log_rows).0

    abbrev queueing : Result (Unit {0}) × EmailJob × lists.State
    queueing =
        push json lists net.pushed net.pushed_at (job_of backend net.log_id client s parsed) w.queue

    unrecorded :
        (x : Error) → recorded ≡ err x → (accept backend net client s parsed w).0 ≡ some 451
    unfolding accept
    unrecorded x m = rw (m, accept) refl

    unqueued :
        (u : Unit {0}) (x : Error)
        → recorded ≡ ok u
        → queueing.0 ≡ err x
        → (accept backend net client s parsed w).0 ≡ some 451
    unfolding accept
    unqueued u x m m' = rw (m, m', accept) refl

    queue-accept :
        (u u' : Unit {0})
        → recorded ≡ ok u
        → queueing.0 ≡ ok u'
        → (accept backend net client s parsed w).1.queue ≡ queueing.2
    unfolding accept
    queue-accept u u' m m' = rw (m, m', accept) refl

    queueing-Holds :
        queueing.0 ≡ ok tt
        → Holds json lists email_queue_key queueing.2 (
            queue
            ++ record (job_of backend net.log_id client s parsed) { enqueued_at = net.pushed_at }
              ∷ [])
          × Holds json lists dead_queue_key queueing.2 dead
    queueing-Holds m = rw pushed (
        push-Holds json lists net.pushed_at (job_of backend net.log_id client s parsed) queue dead
          w.queue h d (rw pushed at m))

    accept-IsQueued :
        (v : World backend) → accept backend net client s parsed w ≡ (none, v) → IsQueued client v
    accept-IsQueued v e = elim (Result-cases recorded) [
      | inr (x, m) ↦ cc (unrecorded x m, ap (λ o. o.0) e)
      | inl (u, m) ↦ elim (Result-cases queueing.0) [
        | inr (x, m') ↦ cc (unqueued u x m m', ap (λ o. o.0) e)
        | inl (u', m') ↦
            let (waiting, buried) = queueing-Holds m' in
            let place = sym (ap (λ o. o.1.queue) e) ∙ queue-accept u u' m m' in
            queued parsed (rw place waiting) (rw place buried)
      ]
    ]

  module _ (client : Client) (w : World backend)
      (h : Holds json lists email_queue_key w.queue queue)
      (d : Holds json lists dead_queue_key w.queue dead) (pushed : net.pushed ≡ arrived) where
    abbrev raw_of : Bytes → Bytes
    raw_of body = take (pos_part (max_message_bytes +ℤ pos 1)) body

    unread : (x : Error) → net.body ≡ err x → (read_body backend net client s w).0 ≡ some 451
    unfolding read_body
    unread x m = rw (m, read_body) refl

    too_long :
        (body : Bytes)
        → net.body ≡ ok body
        → leb_ℤ (pos (length (raw_of body))) max_message_bytes ≡ false
        → (read_body backend net client s w).0 ≡ some 552
    unfolding read_body
    too_long body m long = rw (m, long, read_body) refl

    read :
        (body : Bytes)
        → net.body ≡ ok body
        → leb_ℤ (pos (length (raw_of body))) max_message_bytes ≡ true
        → read_body backend net client s w
          ≡ accept backend net client s (parse_raw_message mail (raw_of body)) w
    unfolding read_body
    read body m short = rw (m, short, read_body) refl

    read_body-IsQueued :
        (v : World backend) → read_body backend net client s w ≡ (none, v) → IsQueued client v
    read_body-IsQueued v e = elim (Result-cases net.body) [
      | inr (x, m) ↦ cc (unread x m, ap (λ o. o.0) e)
      | inl (body, m) ↦ elim (Bool-cases (leb_ℤ (pos (length (raw_of body))) max_message_bytes)) [
        | inr long ↦ cc (too_long body m long, ap (λ o. o.0) e)
        | inl short ↦
            accept-IsQueued client (parse_raw_message mail (raw_of body)) w h d pushed v
              (sym (read body m short) ∙ e)
      ]
    ]

    abbrev limit : Result LimitResult × counters.State
    limit =
        check_all counters net.limited net.at net.uid client.id client.hourly_limit
          client.monthly_limit w.counts

    abbrev counted : World backend
    counted = record w { counts = limit.1 }

    unlimited : (x : Error) → limit.0 ≡ err x → (data_for backend net client s w).0 ≡ some 451
    unfolding data_for
    unlimited x m = rw (m, data_for) refl

    over_limit :
        (r : LimitResult)
        → limit.0 ≡ ok r
        → r.allowed ≡ false
        → (data_for backend net client s w).0 ≡ some (denied backend net r)
    unfolding data_for
    over_limit r m no_room = rw (m, no_room, data_for) refl

    within_limit :
        (r : LimitResult)
        → limit.0 ≡ ok r
        → r.allowed ≡ true
        → data_for backend net client s w ≡ read_body backend net client s counted
    unfolding data_for
    within_limit r m room = rw (m, room, data_for) refl

  data_for-IsQueued :
      (client : Client) (w : World backend)
      → Holds json lists email_queue_key w.queue queue
      → Holds json lists dead_queue_key w.queue dead
      → net.pushed ≡ arrived
      → (v : World backend) → data_for backend net client s w ≡ (none, v)
      → (is_allowed
            (check_all counters net.limited net.at net.uid client.id client.hourly_limit
              client.monthly_limit w.counts).0
          ≡ true)
        × IsQueued client v
  data_for-IsQueued client w h d p v e =
      let answer = limit client w h d p in
      elim (Result-cases answer.0) [
        | inr (x, m) ↦ cc (unlimited client w h d p x m, ap (λ o. o.0) e)
        | inl (r, m) ↦ elim (Bool-cases r.allowed) [
          | inr no_room ↦ cc (over_limit client w h d p r m no_room, ap (λ o. o.0) e)
          | inl room ↦ (
            ap is_allowed m ∙ room,
            read_body-IsQueued client (counted client w h d p) h d p v
                (sym (within_limit client w h d p r m room) ∙ e),
          )
        ]
      ]

  no_client : (w : World backend) → s.client ≡ none → (receive_data backend net s w).0 ≡ some 530
  unfolding receive_data
  no_client w m = rw (m, receive_data) refl

  with_client :
      (client : Client) (w : World backend)
      → s.client ≡ some client
      → receive_data backend net s w ≡ data_for backend net client s w
  unfolding receive_data
  with_client client w m = rw (m, receive_data) refl

  -- When Data accepts a message and its Push was not lost, a client has authenticated, the limiter
  -- allowed the message, and the job of the session's envelope waits last in the queue.
  pub receive_data-IsQueued :
      (w v : World backend)
      → Holds json lists email_queue_key w.queue queue
      → Holds json lists dead_queue_key w.queue dead
      → net.pushed ≡ arrived
      → receive_data backend net s w ≡ (none, v)
      → (client : Client) × (s.client ≡ some client)
        × (is_allowed
              (check_all counters net.limited net.at net.uid client.id client.hourly_limit
                client.monthly_limit w.counts).0
            ≡ true)
        × IsQueued client v
  receive_data-IsQueued w v h d p e = elim (Option-cases s.client) [
    | inl m ↦ cc (no_client w m, ap (λ o. o.0) e)
    | inr (client, m) ↦
        let (allowed, waits) =
          data_for-IsQueued client w h d p v (sym (with_client client w m) ∙ e) in
        (client, m, allowed, waits)
  ]
