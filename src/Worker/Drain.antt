-- ===== src/Worker/Drain.antt =====
-- A worker empties the queue: no job is tried for ever.
use Prim.Native.Nat.{◌-◌}
use email_service_with_aws_s.Base.{
  String, ℕ, zero, suc, ◌+◌, ◌*◌, ◌≤◌, ◌≡◌, refl, ◌∙◌, none, some, List, [], ◌∷◌, ◌++◌, length,
  arith, inl, inr, Bool-cases, bytes, Bytes, Result, Result-cases, ok, err, arrived,
}
use email_service_with_aws_s.Queue.{EmailJob, email_queue_key, dead_queue_key, pop}
use email_service_with_aws_s.Queue.Order.{Holds, pop-empty, pop-dead}
use email_service_with_aws_s.Delivery.Mime.{is_empty}
use email_service_with_aws_s.Tracking.Inject.{inject_click_tracking, pixel}
use email_service_with_aws_s.Tracking.Links.{inject_open_pixel_lem}
use email_service_with_aws_s.Worker.Steps.{one_delivery, checked, unchecked}
use email_service_with_aws_s.Worker.Fate.{
  Kept, finished, refused, again, given_up, tried_again, work-Kept, after_pop,
}
use email_service_with_aws_s.Worker.Copies.{copies}
use email_service_with_aws_s.Worker.Run.{run}
use email_service_with_aws_s.Worker.{
  Services, Conditions, World, valid_recipients, tracked_body, deliver, deliver_to, process_job,
  work,
}

-- How often a job may still be taken from the queue.
abbrev tries : EmailJob → ℕ
tries job = suc (2 - job.attempts)

abbrev all_tries : List EmailJob → ℕ
all_tries [] = 0
all_tries (j ∷ l) = tries j + all_tries l

all_tries_le : (l : List EmailJob) → all_tries l ≤ 3 * length l
all_tries_le [] = omega arith
all_tries_le (j ∷ l) = omega (arith, all_tries_le l)

module _ (services : Services) where
  open services use {text, json, redis}

  -- The queue is empty. By their ids, every dead job is still dead, and a job that became dead is one
  -- of `jobs`, each as often at most as it was there.
  pub record IsDrained (jobs dead : List EmailJob) (v : World services) : Type 0 where
    pub buried : List EmailJob
    pub empty : Holds json redis email_queue_key v.queue []
    pub all_buried : Holds json redis dead_queue_key v.queue buried
    pub least : (id : String) → copies id dead ≤ copies id buried
    pub most : (id : String) → copies id buried ≤ copies id dead + copies id jobs

  pub processed :
      (net : Conditions) (job : EmailJob) (w : World services) (html : Bytes)
      → tracked_body services job ≡ some html
      → (out : Result (Unit {0}) × World services) × (process_job services net job w ≡ some out)
  unfolding deliver_to
  processed net job w html m =
      elim (Result-cases
        (valid_recipients services net.checks job.client_id job.to w.blacklist_rows)) [
          | inr (e, m') ↦ ((err e, w), unchecked services net job w e m')
          | inl ([], m') ↦ (_, checked services net job w [] m')
          | inl (a ∷ to, m') ↦ (
            deliver services net job (a ∷ to) html w,
            checked services net job w (a ∷ to) m' ∙ one_delivery services net job w a to html m,
          )
        ]

  -- The jobs that a turn leaves, with one try less.
  record Next (job : EmailJob) (rest dead : List EmailJob) (v : World services) : Type 0 where
    jobs' : List EmailJob
    dead' : List EmailJob
    waiting : Holds json redis email_queue_key v.queue jobs'
    buried' : Holds json redis dead_queue_key v.queue dead'
    fewer : suc (all_tries jobs') ≤ all_tries (job ∷ rest)
    grown : (id : String) → copies id dead ≤ copies id dead'
    shrunk :
        (id : String) → copies id dead' + copies id jobs' ≤ copies id dead + copies id (job ∷ rest)

  next :
      (job : EmailJob) (rest dead : List EmailJob) (v : World services) (r : Result (Unit {0}))
      → Kept services job rest dead v r
      → Next job rest dead v
  next job rest dead v _ (finished q) = record {
    jobs' = rest;
    dead' = dead;
    waiting = q.first_waiting;
    buried' = q.all_buried;
    fewer = omega arith;
    grown = λ id. omega arith;
    shrunk = λ id. omega arith;
  }
  next job rest dead v _ (refused e permanent q) = record {
    jobs' = rest;
    dead' = dead;
    waiting = q.first_waiting;
    buried' = q.all_buried;
    fewer = omega arith;
    grown = λ id. omega arith;
    shrunk = λ id. omega arith;
  }
  next job rest dead v _ (again e retryable left q) = record {
    jobs' = tried_again services job rest dead e ∷ rest;
    dead' = dead;
    waiting = q.first_waiting;
    buried' = q.all_buried;
    fewer = ground (arith, left);
    grown = λ id. omega arith;
    shrunk = λ id. omega arith;
  }
  next job rest dead v _ (given_up e retryable spent q) = record {
    jobs' = rest;
    dead' = tried_again services job rest dead e ∷ dead;
    waiting = q.first_waiting;
    buried' = q.all_buried;
    fewer = omega arith;
    grown = λ id. omega arith;
    shrunk = λ id. omega arith;
  }

  -- If lower case keeps the number of bytes, the injector does not panic.
  pub body_of :
      ((b : Bytes) → length (services.lower b) ≡ length b)
      → (job : EmailJob) → (html : Bytes) × (tracked_body services job ≡ some html)
  unfolding tracked_body
  body_of same job = elim (Bool-cases (is_empty job.html_body)) [
    | inl m ↦ (job.html_body, rw (m, tracked_body) refl)
    | inr m ↦
        let linked = inject_click_tracking services.injector job.html_body (bytes job.id) in
        let (before, after, e, _, _) =
          inject_open_pixel_lem services.lower services.injector linked (bytes job.id)
            (same linked) in
        (before ++ (pixel services.injector (bytes job.id) ++ after), rw (m, tracked_body) e)
  ]

  abbrev idled : Conditions → World services → World services
  idled net w = record w { queue = (pop json redis net.popped w.queue).1 }

  idle_turn :
      (net : Conditions) (w : World services)
      → net.popped ≡ arrived
      → Holds json redis email_queue_key w.queue []
      → work services net w ≡ some (idled net w)
  unfolding work
  idle_turn net w p h =
      let nothing : (pop json redis net.popped w.queue).0 ≡ ok none =
        rw p (pop-empty json redis w.queue h).0 in
      rw (nothing, work) refl

  module _ (nets : ℕ → Conditions) (popped : (i : ℕ) → (nets i).popped ≡ arrived)
      (requeued : (i : ℕ) → (nets i).requeued ≡ arrived)
      (writes : (j : EmailJob) → (t : json.Text) × (json.marshal j ≡ ok t))
      (same : (b : Bytes) → length (services.lower b) ≡ length b) where
    abbrev Drained : ℕ → ℕ → List EmailJob → List EmailJob → World services → Type 0
    Drained turns i jobs dead w =
        (v : World services) × (run services nets turns i w ≡ some v) × IsDrained jobs dead v

    -- A turn that leaves other jobs.
    after_turn :
        (turns i : ℕ) (jobs jobs' dead dead' : List EmailJob) (w w' : World services)
        → work services (nets i) w ≡ some w'
        → ((id : String) → copies id dead ≤ copies id dead')
        → ((id : String) → copies id dead' + copies id jobs' ≤ copies id dead + copies id jobs)
        → Drained turns (i + 1) jobs' dead' w'
        → Drained (suc turns) i jobs dead w
    unfolding run
    after_turn turns i jobs jobs' dead dead' w w' step grown shrunk (v, e, r) = (
      v,
      rw (step, run) e,
      record {
        buried = r.buried;
        empty = r.empty;
        all_buried = r.all_buried;
        least = λ id. omega (arith, r.least id, grown id);
        most = λ id. omega (arith, r.most id, shrunk id);
      },
    )

    drain :
        (turns i : ℕ) (jobs dead : List EmailJob) (w : World services)
        → all_tries jobs ≤ turns
        → Holds json redis email_queue_key w.queue jobs
        → Holds json redis dead_queue_key w.queue dead
        → Drained turns i jobs dead w
    unfolding run
    drain zero i [] dead w h q d = (
      w,
      refl,
      record {
        buried = dead;
        empty = q;
        all_buried = d;
        least = λ id. omega arith;
        most = λ id. omega arith;
      },
    )
    drain zero i (j ∷ l) dead w h q d = absurd (omega (arith, h))
    drain (suc turns) i [] dead w h q d =
        let e = popped i in
        after_turn turns i [] [] dead dead w (idled (nets i) w) (idle_turn (nets i) w e q)
          (λ id. omega arith) (λ id. omega arith)
          (drain turns (i + 1) [] dead (idled (nets i) w) (omega arith)
            (rw e (pop-empty json redis w.queue q).1) (rw e (pop-dead json redis dead w.queue d)))
    drain (suc turns) i (job ∷ rest) dead w h q d =
        let net = nets i in
        let (html, m) = body_of same job in
        let before = after_pop services net job rest dead w q d (popped i) (requeued i) writes in
        let (out, p) = processed net job before html m in
        let (v, step, kept) =
          work-Kept services net job rest dead w q d (popped i) (requeued i) writes out.0 out.1 p in
        let n = next job rest dead v out.0 kept in
        after_turn turns i (job ∷ rest) n.jobs' dead n.dead' w v step n.grown n.shrunk
          (drain turns (i + 1) n.jobs' n.dead' v (omega (arith, n.fewer, h)) n.waiting n.buried')

    -- Within three turns for each job the queue is empty, if no job comes in, the calls of Pop and
    -- Retry arrive, every job can be encoded, and lower case does not change the number of a body's
    -- bytes. No turn panics. The jobs that were dead still are, and for each id no more jobs have
    -- become dead than waited.
    pub run-IsDrained :
        (turns : ℕ) (jobs dead : List EmailJob) (w : World services)
        → 3 * length jobs ≤ turns
        → Holds json redis email_queue_key w.queue jobs
        → Holds json redis dead_queue_key w.queue dead
        → (v : World services) × (run services nets turns 0 w ≡ some v) × IsDrained jobs dead v
    run-IsDrained turns jobs dead w h q d =
        drain turns 0 jobs dead w (omega (arith, h, all_tries_le jobs)) q d
