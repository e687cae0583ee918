-- ===== src/Queue/Retry.antt =====
-- What Push and Retry do to the two queues.
use mathlib.Core.Path.{subst}
use mathlib.Core.Option.{some}
use mathlib.Core.List.{reverse-cons, reverse-append}
use email_service_with_aws_s.Base.{
  ℕ, ◌+◌, String, ◌≡◌, refl, true, false, List, [], ◌∷◌, ◌++◌, ◌==◌, eq_refl, ltb, if◌then◌else◌,
  Bool-cases, inl, inr, Codec, Error, wrap, Result, Result-cases, ok, err, arrived,
}
use email_service_with_aws_s.Redis.Lists.{Lists}
use email_service_with_aws_s.Queue.{
  EmailJob, email_queue_key, dead_queue_key, max_retries, push, push_to, pop, retry,
}
use email_service_with_aws_s.Queue.Order.{pop-cons, Encodes-append, Holds}

module _ (json : Codec EmailJob) (redis : Lists json.Text) where
  open json use {Text, marshal}
  open redis use {State, items}

  module _ (now : ℕ) (job : EmailJob) (queue dead : List EmailJob) (s : State)
      (h : Holds json redis email_queue_key s queue)
      (d : Holds json redis dead_queue_key s dead) where
    abbrev pub stamped : EmailJob
    stamped = record job { enqueued_at = now }

    pushed :
        (t : Text)
        → marshal stamped ≡ ok t
        → push json redis arrived now job s ≡ (ok tt, stamped, redis.lpush email_queue_key t s)
    unfolding push
    pushed t m = rw (m, push)

    the_error :
        (e : Error)
        → marshal stamped ≡ err e
        → (push json redis arrived now job s).0 ≡ err (wrap "queue push marshal" e)
    unfolding push
    the_error e m = rw (m, push)

    -- A Push that arrives without an error puts the job, with its time, after all that wait, and
    -- leaves the dead queue alone.
    pub push-Holds :
        (push json redis arrived now job s).0 ≡ ok tt
        → Holds json redis email_queue_key
            (push json redis arrived now job s).2
            (queue ++ stamped ∷ [])
          × Holds json redis dead_queue_key (push json redis arrived now job s).2 dead
    unfolding push
    push-Holds done = elim (Result-cases (marshal stamped)) [
      | inl (t, m) ↦ rw (pushed t m) (
        record {
          encodes =
              rw (redis.items-lpush email_queue_key t s email_queue_key)
                (rw reverse-append (m, h.encodes));
        },
        record { encodes = rw (redis.items-lpush email_queue_key t s dead_queue_key) d.encodes },
      )
      | inr (e, m) ↦ cc (the_error e m, done)
    ]

  module _ (job : EmailJob) (reason : String) (queue dead : List EmailJob) (s : State)
      (h : Holds json redis email_queue_key s queue)
      (d : Holds json redis dead_queue_key s dead) where
    abbrev pub failed_once_more : EmailJob
    failed_once_more = record job { attempts = job.attempts + 1; last_error = reason }

    abbrev retried : Result (Unit {0}) × EmailJob × State
    retried = retry json redis arrived job reason s

    abbrev target : String
    target = if ltb (job.attempts + 1) max_retries then email_queue_key else dead_queue_key

    pub retry-ok :
        (t : Text)
        → marshal failed_once_more ≡ ok t
        → retried ≡ (ok tt, failed_once_more, redis.rpush target t s)
    unfolding retry push_to
    retry-ok t m = rw (m, push_to)

    retry-error :
        (e : Error)
        → marshal failed_once_more ≡ err e
        → retried.0 ≡ err (wrap "queue push marshal" e)
    unfolding retry push_to
    retry-error e m = rw (m, push_to)

    text_of_retried : retried.0 ≡ ok tt → (t : Text) × (marshal failed_once_more ≡ ok t)
    text_of_retried done = elim (Result-cases (marshal failed_once_more)) [
      | inl (t, m) ↦ (t, m)
      | inr (e, m) ↦ cc (retry-error e m, done)
    ]

    Holds-rpush :
        (key other : String) (t : Text) (l k : List EmailJob)
        → (key == other) ≡ false
        → marshal failed_once_more ≡ ok t
        → Holds json redis key s l
        → Holds json redis other s k
        → Holds json redis key (redis.rpush key t s) (failed_once_more ∷ l)
          × Holds json redis other (redis.rpush key t s) k
    Holds-rpush key other t l k ne m a b = (
      record {
        encodes = rw (redis.items-rpush key t s key) (
            rw (eq_refl key)
              (rw reverse-cons (Encodes-append json redis _ _ t failed_once_more a.encodes m)));
      },
      record { encodes = rw (redis.items-rpush key t s other) (rw ne b.encodes) },
    )

    -- After a Retry that arrives without an error, a job with fewer than three failures is at the
    -- front of the queue, before all that wait; else it has joined the dead jobs. The other queue
    -- stays as it is.
    pub retry-Holds :
        retried.0 ≡ ok tt
        → Holds json redis email_queue_key retried.2
            (if ltb (job.attempts + 1) max_retries then failed_once_more ∷ queue else queue)
          × Holds json redis dead_queue_key retried.2
              (if ltb (job.attempts + 1) max_retries then dead else failed_once_more ∷ dead)
    retry-Holds done =
        let (t, m) = text_of_retried done in
        elim (Bool-cases (ltb (job.attempts + 1) max_retries)) [
          | inl again ↦
              rw (retry-ok t m)
                (rw again (Holds-rpush email_queue_key dead_queue_key t queue dead refl m h d))
          | inr over ↦ rw (retry-ok t m) (
              rw over (
                let (a, b) = Holds-rpush dead_queue_key email_queue_key t dead queue refl m d h in
                (b, a)))
        ]

    -- After a Retry that arrives without an error, a job with fewer than three failures is what the
    -- next Pop returns, before every job that waited.
    pub pop-retry :
        ltb (job.attempts + 1) max_retries ≡ true
        → retried.0 ≡ ok tt
        → ((pop json redis arrived retried.2).0 ≡ ok (some failed_once_more))
          × Holds json redis email_queue_key (pop json redis arrived retried.2).1 queue
    pop-retry again done = pop-cons json redis failed_once_more queue retried.2 (
        subst
          (λ b.
            Holds json redis email_queue_key retried.2
              (if b then failed_once_more ∷ queue else queue))
          again (retry-Holds done).0)
