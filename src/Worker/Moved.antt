-- ===== src/Worker/Moved.antt =====
-- Where the jobs are after one step of one worker of a pool.
use email_service_with_aws_s.Base.{
  ℕ, zero, suc, ◌+◌, String, ◌≡◌, refl, Bool, true, false, some, List, [], ◌∷◌, ◌++◌, arith, length,
  Bytes, Result, ok, arrived,
}
use email_service_with_aws_s.Queue.{EmailJob, email_queue_key, dead_queue_key}
use email_service_with_aws_s.Queue.Order.{Holds, pop-cons, pop-empty, pop-dead}
use email_service_with_aws_s.Worker.Fate.{
  Kept, finished, refused, again, given_up, tried_again, process_job-queue, Kept-finish,
}
use email_service_with_aws_s.Worker.Drain.{processed, body_of}
use email_service_with_aws_s.Worker.Pool.{
  Task, idle, handling, handled, stopped, Stepped, settled_by, idle_tasks, take_job, advance, act,
}
use email_service_with_aws_s.Worker.Copies.{copies, copies-append}
use email_service_with_aws_s.Worker.{Services, Conditions, World, finish}

abbrev carried_by : Task → List EmailJob
carried_by idle = []
carried_by (handling job) = job ∷ []
carried_by (handled job r) = job ∷ []
carried_by stopped = []

-- The jobs that the workers are at.
abbrev pub carried : List Task → List EmailJob
carried [] = []
carried (t ∷ l) = carried_by t ++ carried l

pub carried-idle_tasks : (n : ℕ) → carried (idle_tasks n) ≡ []
unfolding idle_tasks
carried-idle_tasks zero = refl
carried-idle_tasks (suc n) = carried-idle_tasks n

module _ (services : Services) where
  open services use {json, redis}

  -- Where the jobs that waited, were dead or were held are after a step that settled `done`.
  pub record Moved (waiting dead held : List EmailJob) (v : World services)
      (held' done : List EmailJob) : Type 0 where
    pub waiting' : List EmailJob
    pub dead' : List EmailJob
    pub queued : Holds json redis email_queue_key v.queue waiting'
    pub buried : Holds json redis dead_queue_key v.queue dead'
    pub same :
        (id : String)
        → copies id waiting' + (copies id held' + (copies id done + copies id dead'))
          ≡ copies id waiting + (copies id held + copies id dead)

  -- What a worker does with a result.
  Moved-settled :
      (job : EmailJob) (waiting dead : List EmailJob) (v : World services) (r : Result (Unit {0}))
      → Kept services job waiting dead v r
      → Moved waiting dead (job ∷ []) v [] (settled_by job r)
  unfolding settled_by
  Moved-settled job waiting dead v _ (finished q) = record {
    waiting' = waiting;
    dead' = dead;
    queued = q.first_waiting;
    buried = q.all_buried;
    same = λ id. omega arith;
  }
  Moved-settled job waiting dead v _ (refused e permanent q) = rw permanent (record {
    waiting' = waiting;
    dead' = dead;
    queued = q.first_waiting;
    buried = q.all_buried;
    same = λ id. omega arith;
  })
  Moved-settled job waiting dead v _ (again e retryable left q) = rw retryable (record {
    waiting' = tried_again services job waiting dead e ∷ waiting;
    dead' = dead;
    queued = q.first_waiting;
    buried = q.all_buried;
    same = λ id. omega arith;
  })
  Moved-settled job waiting dead v _ (given_up e retryable spent q) = rw retryable (record {
    waiting' = waiting;
    dead' = tried_again services job waiting dead e ∷ dead;
    queued = q.first_waiting;
    buried = q.all_buried;
    same = λ id. omega arith;
  })

  module _ (net : Conditions) (popped : net.popped ≡ arrived) where
    Moved-take_job :
        (cancelled : Bool) (waiting dead : List EmailJob) (w : World services)
        → Holds json redis email_queue_key w.queue waiting
        → Holds json redis dead_queue_key w.queue dead
        → Moved waiting dead []
            (take_job services cancelled net w).1
            (carried_by (take_job services cancelled net w).0)
            (take_job services cancelled net w).2
    unfolding take_job
    Moved-take_job true waiting dead w q d = record {
      waiting' = waiting;
      dead' = dead;
      queued = q;
      buried = d;
      same = λ id. omega arith;
    }
    Moved-take_job false [] dead w q d =
        let (nothing, q') = pop-empty json redis w.queue q in
        rw (popped, nothing, take_job)
          (record {
            waiting' = [];
            dead' = dead;
            queued = rw popped q';
            buried = rw popped (pop-dead json redis dead w.queue d);
            same = λ id. omega arith;
          })
    Moved-take_job false (job ∷ rest) dead w q d =
        let (first, q') = pop-cons json redis job rest w.queue q in
        rw (popped, first, take_job)
          (record {
            waiting' = rest;
            dead' = dead;
            queued = rw popped q';
            buried = rw popped (pop-dead json redis dead w.queue d);
            same = λ id. omega arith;
          })

    module _ (requeued : net.requeued ≡ arrived)
        (writes : (j : EmailJob) → (t : json.Text) × (json.marshal j ≡ ok t))
        (same_length : (b : Bytes) → length (services.lower b) ≡ length b) (cancelled : Bool)
        (waiting dead : List EmailJob) where
      Moved-advance :
          (task : Task) (w : World services)
          → Holds json redis email_queue_key w.queue waiting
          → Holds json redis dead_queue_key w.queue dead
          → (out : Stepped services) × (advance services cancelled net task w ≡ some out)
            × Moved waiting dead (carried_by task) out.1 (carried_by out.0) out.2
      unfolding advance
      Moved-advance idle w q d =
          (take_job services cancelled net w, refl, Moved-take_job cancelled waiting dead w q d)
      Moved-advance (handling job) w q d =
          let (html, body) = body_of services same_length job in
          let (out, m) = processed services net job w html body in
          let place = process_job-queue services net job w out m in
          (
            (handled job out.0, out.1, []),
            rw (m, advance) refl,
            record {
              waiting' = waiting;
              dead' = dead;
              queued = rw place q;
              buried = rw place d;
              same = λ id. omega arith;
            },
          )
      Moved-advance (handled job r) w q d = (
        _,
        refl,
        Moved-settled job waiting dead (finish services net job (r, w)) r (
            Kept-finish services net job waiting dead requeued writes r w
              (record { first_waiting = q; all_buried = d })),
      )
      Moved-advance stopped w q d = (
        (stopped, w, []),
        refl,
        record {
          waiting' = waiting;
          dead' = dead;
          queued = q;
          buried = d;
          same = λ id. omega arith;
        },
      )

      -- One step of one worker.
      pub Moved-act :
          (i : ℕ) (l : List Task) (w : World services)
          → Holds json redis email_queue_key w.queue waiting
          → Holds json redis dead_queue_key w.queue dead
          → (out : List Task × World services × List EmailJob) × (act services cancelled net i l w
              ≡ some out)
            × Moved waiting dead (carried l) out.1 (carried out.0) out.2
      unfolding act
      Moved-act i [] w q d = (
        ([], w, []),
        refl,
        record {
          waiting' = waiting;
          dead' = dead;
          queued = q;
          buried = d;
          same = λ id. omega arith;
        },
      )
      Moved-act zero (t ∷ l) w q d =
          let (out, m, moved) = Moved-advance t w q d in
          (
            (out.0 ∷ l, out.1, out.2),
            rw (m, act) refl,
            record {
              waiting' = moved.waiting';
              dead' = moved.dead';
              queued = moved.queued;
              buried = moved.buried;
              same = λ id. omega (
                arith,
                moved.same id,
                copies-append id (carried_by t) (carried l),
                copies-append id (carried_by out.0) (carried l),
              );
            },
          )
      Moved-act (suc i) (t ∷ l) w q d =
          let (out, m, moved) = Moved-act i l w q d in
          (
            (t ∷ out.0, out.1, out.2),
            rw (m, act) refl,
            record {
              waiting' = moved.waiting';
              dead' = moved.dead';
              queued = moved.queued;
              buried = moved.buried;
              same = λ id. omega (
                arith,
                moved.same id,
                copies-append id (carried_by t) (carried l),
                copies-append id (carried_by t) (carried out.0),
              );
            },
          )
