-- ===== src/Worker/Stop.antt =====
-- The end of a pool of workers: Wait returns.
use Prim.Native.Nat.{◌-◌}
use email_service_with_aws_s.Base.{
  ℕ, zero, suc, ◌+◌, ◌≤◌, ◌<◌, ◌≡◌, refl, ap, ◌∙◌, true, some, List, [], ◌∷◌, ◌++◌, arith, length,
  Bytes,
}
use email_service_with_aws_s.Worker.Drain.{processed, body_of}
use email_service_with_aws_s.Worker.Pool.{
  Task, idle, handling, handled, stopped, Move, cancel, turn, Pool, Stepped, all_stopped, take_job,
  advance, act, step, play,
}
use email_service_with_aws_s.Worker.{Services, Conditions, World}
use email_service_with_aws_s.Queue.{EmailJob}

-- How many steps a worker still makes once the pool is cancelled.
abbrev left : Task → ℕ
left stopped = 0
left idle = 1
left (handled job r) = 2
left (handling job) = 3

abbrev left_at : ℕ → List Task → ℕ
left_at k [] = 0
left_at zero (t ∷ l) = left t
left_at (suc k) (t ∷ l) = left_at k l

abbrev hit : ℕ → ℕ → ℕ
hit zero zero = 1
hit (suc i) (suc k) = hit i k
hit _ _ = 0

-- How many of the steps are of the worker `k`.
abbrev pub turns_of : ℕ → List Move → ℕ
turns_of k [] = 0
turns_of k (cancel ∷ l) = turns_of k l
turns_of k (turn net i ∷ l) = hit i k + turns_of k l

left_le : (k : ℕ) (l : List Task) → left_at k l ≤ 3
left_le k [] = omega arith
left_le zero (stopped ∷ l) = omega arith
left_le zero (idle ∷ l) = omega arith
left_le zero (handled job r ∷ l) = omega arith
left_le zero (handling job ∷ l) = omega arith
left_le (suc k) (t ∷ l) = left_le k l

all_stopped_of_left :
    (l : List Task) → ((k : ℕ) → k < length l → left_at k l ≡ 0) → all_stopped l ≡ true
unfolding all_stopped
all_stopped_of_left [] h = refl
all_stopped_of_left (stopped ∷ l) h =
    all_stopped_of_left l (λ k. λ lt. h (suc k) (omega (arith, lt)))
all_stopped_of_left (idle ∷ l) h = absurd (omega (arith, h zero (omega arith)))
all_stopped_of_left (handled job r ∷ l) h = absurd (omega (arith, h zero (omega arith)))
all_stopped_of_left (handling job ∷ l) h = absurd (omega (arith, h zero (omega arith)))

module _ (services : Services)
    (same_length : (b : Bytes) → length (services.lower b) ≡ length b) where
  module _ (net : Conditions) where
    advance-left :
        (task : Task) (w : World services)
        → (out : Stepped services) × (advance services true net task w ≡ some out)
          × (left out.0 ≡ left task - 1)
    unfolding advance take_job
    advance-left idle w = ((stopped, w, []), refl, omega arith)
    advance-left (handling job) w =
        let (html, body) = body_of services same_length job in
        let (out, m) = processed services net job w html body in
        ((handled job out.0, out.1, []), rw (m, advance) refl, omega arith)
    advance-left (handled job r) w = (_, refl, omega arith)
    advance-left stopped w = ((stopped, w, []), refl, omega arith)

    act-left :
        (i : ℕ) (l : List Task) (w : World services)
        → (out : List Task × World services × List EmailJob) × (act services true net i l w
            ≡ some out)
          × ((k : ℕ) → left_at k out.0 ≡ left_at k l - hit i k)
          × (length out.0 ≡ length l)
    unfolding act
    act-left i [] w = (([], w, []), refl, λ k. omega arith, refl)
    act-left zero (t ∷ l) w =
        let (out, m, e) = advance-left t w in
        (
          (out.0 ∷ l, out.1, out.2),
          rw (m, act) refl,
          λ k. elim k as (λ k. left_at k (out.0 ∷ l) ≡ left_at k (t ∷ l) - hit zero k) [
            | zero ↦ e
            | suc k' ↦ omega arith
          ],
          refl,
        )
    act-left (suc i) (t ∷ l) w =
        let (out, m, e, n) = act-left i l w in
        (
          (t ∷ out.0, out.1, out.2),
          rw (m, act) refl,
          λ k. elim k as (λ k. left_at k (t ∷ out.0) ≡ left_at k (t ∷ l) - hit (suc i) k) [
            | zero ↦ omega arith
            | suc k' ↦ e k'
          ],
          ap suc n,
        )

  step-left :
      (net : Conditions) (i : ℕ) (p : Pool services)
      → p.cancelled ≡ true
      → (v : Pool services) × (step services (turn net i) p ≡ some v)
        × (v.cancelled ≡ true)
        × ((k : ℕ) → left_at k v.tasks ≡ left_at k p.tasks - hit i k)
        × (length v.tasks ≡ length p.tasks)
  unfolding step
  step-left net i p c =
      let (out, m, h, n) = act-left net i p.tasks p.world in
      let made : act services p.cancelled net i p.tasks p.world ≡ some out = rw c m in
      (
        record p { world = out.1; tasks = out.0; settled = out.2 ++ p.settled },
        rw (made, step) refl,
        c,
        h,
        n,
      )

  play-left :
      (l : List Move) (p : Pool services)
      → p.cancelled ≡ true
      → (v : Pool services) × (play services l p ≡ some v)
        × ((k : ℕ) → left_at k v.tasks ≡ left_at k p.tasks - turns_of k l)
        × (length v.tasks ≡ length p.tasks)
  unfolding play step
  play-left [] p c = (p, refl, λ k. omega arith, refl)
  play-left (cancel ∷ l) p c =
      let (v, e, h, n) = play-left l (record p { cancelled = true }) refl in (v, e, h, n)
  play-left (turn net i ∷ l) p c =
      let (p', m, c', h, n) = step-left net i p c in
      let (v, e, h', n') = play-left l p' c' in
      (v, rw (m, play) e, λ k. omega (arith, h k, h' k), n' ∙ n)

  -- Once a pool is cancelled and each of its workers has made three more steps, all have stopped, so
  -- that Wait returns, whatever becomes of their calls, if lower case does not change the number of
  -- a body's bytes. No step panics.
  pub cancel-stops :
      (p : Pool services) (l : List Move)
      → ((k : ℕ) → k < length p.tasks → 3 ≤ turns_of k l)
      → (v : Pool services) × (play services (cancel ∷ l) p ≡ some v) × (all_stopped v.tasks ≡ true)
  unfolding play step
  cancel-stops p l fair =
      let (v, e, h, n) = play-left l (record p { cancelled = true }) refl in
      (
        v,
        e,
        all_stopped_of_left v.tasks
            (λ k. λ lt. omega (arith, h k, fair k (rw n at lt), left_le k p.tasks)),
      )
