-- ===== src/Worker/Conserved.antt =====
-- The jobs of a pool of workers: none is lost, and none is doubled.
use email_service_with_aws_s.Base.{
  ℕ, ◌+◌, String, ◌≡◌, refl, true, some, List, [], ◌∷◌, ◌++◌, arith, length, All, Bytes, ok,
  arrived,
}
use email_service_with_aws_s.Queue.{EmailJob, email_queue_key, dead_queue_key}
use email_service_with_aws_s.Queue.Order.{Holds}
use email_service_with_aws_s.Worker.Pool.{Move, cancel, turn, Pool, start, step, play}
use email_service_with_aws_s.Worker.{Services, World}
use email_service_with_aws_s.Worker.Copies.{copies, copies-append}
use email_service_with_aws_s.Worker.Moved.{carried, carried-idle_tasks, Moved-act}

module _ (services : Services) where
  open services use {json, redis}

  -- The calls of Pop and Retry arrive.
  abbrev pub Arrives : Move → Type 0
  Arrives cancel = Unit
  Arrives (turn net i) = (net.popped ≡ arrived) × (net.requeued ≡ arrived)

  -- Each job of `jobs` and `dead`, told by its id, is in one place: it waits, a worker is at it, it is
  -- settled, or it is dead.
  pub record IsConserved (jobs dead : List EmailJob) (v : Pool services) : Type 0 where
    pub waiting : List EmailJob
    pub buried : List EmailJob
    pub queued : Holds json redis email_queue_key v.world.queue waiting
    pub all_buried : Holds json redis dead_queue_key v.world.queue buried
    pub same :
        (id : String)
        → copies id waiting + copies id (carried v.tasks) + copies id v.settled + copies id buried
          ≡ copies id jobs + copies id dead

  module _ (writes : (j : EmailJob) → (t : json.Text) × (json.marshal j ≡ ok t))
      (same_length : (b : Bytes) → length (services.lower b) ≡ length b)
      (jobs dead : List EmailJob) where
    step-IsConserved :
        (m : Move) (p : Pool services)
        → Arrives m
        → IsConserved jobs dead p
        → (v : Pool services) × (step services m p ≡ some v) × IsConserved jobs dead v
    unfolding step
    step-IsConserved cancel p a c = (
      record p { cancelled = true },
      refl,
      record {
        waiting = c.waiting;
        buried = c.buried;
        queued = c.queued;
        all_buried = c.all_buried;
        same = c.same;
      },
    )
    step-IsConserved (turn net i) p (popped, requeued) c =
        let (out, m, moved) =
          Moved-act services net popped requeued writes same_length p.cancelled c.waiting c.buried i
            p.tasks p.world c.queued c.all_buried in
        (
          record p { world = out.1; tasks = out.0; settled = out.2 ++ p.settled },
          rw (m, step) refl,
          record {
            waiting = moved.waiting';
            buried = moved.dead';
            queued = moved.queued;
            all_buried = moved.buried;
            same = λ id. omega (arith, c.same id, moved.same id, copies-append id out.2 p.settled);
          },
        )

    play-IsConserved :
        (l : List Move) (p : Pool services)
        → All Arrives l
        → IsConserved jobs dead p
        → (v : Pool services) × (play services l p ≡ some v) × IsConserved jobs dead v
    unfolding play
    play-IsConserved [] p a c = (p, refl, c)
    play-IsConserved (m ∷ l) p (a, rest) c =
        let (p', e, c') = step-IsConserved m p a c in
        let (v, e', c'') = play-IsConserved l p' rest c' in (v, rw (e, play) e', c'')

    -- However the steps of the workers of a pool interleave, and whenever it is cancelled, no job is
    -- lost or doubled: for each id, the jobs that wait, that a worker is at, that are
    -- settled and that are dead are together as many as those that were in the two queues at the
    -- start. No step panics. The calls of Pop and Retry arrive, no job comes in, every job can be
    -- encoded, and lower case does not change the number of a body's bytes.
    pub pool-IsConserved :
        (concurrency : ℕ) (l : List Move) (w : World services)
        → All Arrives l
        → Holds json redis email_queue_key w.queue jobs
        → Holds json redis dead_queue_key w.queue dead
        → (v : Pool services) × (play services l (start services concurrency w) ≡ some v)
          × IsConserved jobs dead v
    unfolding start
    pool-IsConserved concurrency l w a q d =
        play-IsConserved l (start services concurrency w) a (record {
          waiting = jobs;
          buried = dead;
          queued = q;
          all_buried = d;
          same = λ id. rw (carried-idle_tasks concurrency) (omega arith);
        })
