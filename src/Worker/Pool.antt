-- ===== src/Worker/Pool.antt =====
-- cmd/worker/main.go: Start, Wait and the loops of the workers, interleaved. A worker's turn is in three
-- steps: it takes a job, it processes it, it acts on the result; other workers may step in between.
use email_service_with_aws_s.Base.{
  ℕ, zero, suc, Bool, true, false, Option, none, some, List, [], ◌∷◌, ◌++◌, if◌then◌else◌, Result,
  ok, err,
}
use email_service_with_aws_s.Queue.{EmailJob, pop}
use email_service_with_aws_s.Worker.{Services, Conditions, World, process_job, is_permanent, finish}

-- Where a goroutine of Start is in its loop.
pub data Task : Type 0 where
  idle : Task
  handling : EmailJob → Task
  handled : EmailJob → Result (Unit {0}) → Task
  stopped : Task

pub data Move : Type 0 where
  cancel : Move
  turn : Conditions → ℕ → Move

-- A job is settled when it was processed without an error, or its error is permanent.
unfoldable pub settled_by : EmailJob → Result (Unit {0}) → List EmailJob
settled_by job (ok done) = job ∷ []
settled_by job (err e) = if is_permanent e then job ∷ [] else []

unfoldable pub all_stopped : List Task → Bool
all_stopped [] = true
all_stopped (stopped ∷ l) = all_stopped l
all_stopped (t ∷ l) = false

unfoldable pub idle_tasks : ℕ → List Task
idle_tasks zero = []
idle_tasks (suc n) = idle ∷ idle_tasks n

module _ (services : Services) where
  open services use {json, redis}

  -- `settled` is the history of the settled jobs, which the code only logs.
  pub record Pool : Type 0 where
    pub world : World services
    pub tasks : List Task
    pub settled : List EmailJob
    pub cancelled : Bool

  abbrev pub Stepped : Type 0
  Stepped = Task × World services × List EmailJob

  unfoldable pub start : ℕ → World services → Pool
  start concurrency w = record {
    world = w;
    tasks = idle_tasks concurrency;
    settled = [];
    cancelled = false;
  }

  -- The context is looked at, and if it is not done Pop is called.
  unfoldable pub take_job : Bool → Conditions → World services → Stepped
  take_job true net w = (stopped, w, [])
  take_job false net w =
      let (r, queue) = pop json redis net.popped w.queue in
      let w' = record w { queue = queue } in
      elim r [
        | err e ↦ (idle, w', [])
        | ok none ↦ (idle, w', [])
        | ok (some job) ↦ (handling job, w', [])
      ]

  -- The next step of one worker; none is a panic.
  unfoldable pub advance : Bool → Conditions → Task → World services → Option Stepped
  unfolding take_job
  advance cancelled net idle w = some (take_job cancelled net w)
  advance cancelled net (handling job) w = elim (process_job services net job w) [
    | none ↦ none
    | some (r, w') ↦ some (handled job r, w', [])
  ]
  advance cancelled net (handled job r) w =
      some (idle, finish services net job (r, w), settled_by job r)
  advance cancelled net stopped w = some (stopped, w, [])

  unfoldable pub act :
      Bool
      → Conditions
      → ℕ
      → List Task
      → World services
      → Option (List Task × World services × List EmailJob)
  unfolding advance
  act cancelled net i [] w = some ([], w, [])
  act cancelled net zero (t ∷ l) w = elim (advance cancelled net t w) [
    | none ↦ none
    | some (t', w', done) ↦ some (t' ∷ l, w', done)
  ]
  act cancelled net (suc i) (t ∷ l) w = elim (act cancelled net i l w) [
    | none ↦ none
    | some (l', w', done) ↦ some (t ∷ l', w', done)
  ]

  unfoldable pub step : Move → Pool → Option Pool
  unfolding act
  step cancel p = some (record p { cancelled = true })
  step (turn net i) p = elim (act p.cancelled net i p.tasks p.world) [
    | none ↦ none
    | some (l, w, done) ↦ some (record p { world = w; tasks = l; settled = done ++ p.settled })
  ]

  unfoldable pub play : List Move → Pool → Option Pool
  unfolding step
  play [] p = some p
  play (m ∷ l) p = elim (step m p) [ none ↦ none | some p' ↦ play l p' ]
