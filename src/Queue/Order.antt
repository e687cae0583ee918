-- ===== src/Queue/Order.antt =====
-- Redis lists as a queue: the order in which jobs are delivered.
use mathlib.Core.List.{reverse, reverse-cons}
use email_service_with_aws_s.Base.{
  String, ◌≡◌, refl, ap, ◌∙◌, none, some, List, [], ◌∷◌, ◌++◌, Codec, ok, arrived,
}
use email_service_with_aws_s.Redis.Lists.{Lists, last_of, init_of}
use email_service_with_aws_s.Queue.{EmailJob, email_queue_key, dead_queue_key, pop}

last_of-append {ℓ} : {A : Type ℓ} (l : List A) (x : A) → last_of (l ++ x ∷ []) ≡ some x
last_of-append [] x = refl
last_of-append (a ∷ []) x = refl
last_of-append (a ∷ b ∷ l) x = last_of-append (b ∷ l) x

init_of-append {ℓ} : {A : Type ℓ} (l : List A) (x : A) → init_of (l ++ x ∷ []) ≡ l
init_of-append [] x = refl
init_of-append (a ∷ []) x = refl
init_of-append (a ∷ b ∷ l) x = ap (λ r. a ∷ r) (init_of-append (b ∷ l) x)

module _ (json : Codec EmailJob) (redis : Lists json.Text) where
  open json use {Text, marshal, unmarshal}
  open redis use {State, items, brpop}

  -- The texts are those of the jobs, one for one.
  abbrev pub Encodes : List Text → List EmailJob → Type 0
  Encodes [] [] = Unit
  Encodes (t ∷ ts) (j ∷ js) = (marshal j ≡ ok t) × Encodes ts js
  Encodes _ _ = ⊥

  pub Encodes-append :
      (ts : List Text) (js : List EmailJob) (t : Text) (j : EmailJob)
      → Encodes ts js
      → marshal j ≡ ok t
      → Encodes (ts ++ t ∷ []) (js ++ j ∷ [])
  Encodes-append [] [] t j e m = (m, tt)
  Encodes-append [] (j' ∷ js) t j e m = absurd e
  Encodes-append (t' ∷ ts) [] t j e m = absurd e
  Encodes-append (t' ∷ ts) (j' ∷ js) t j (m', e) m = (m', Encodes-append ts js t j e m)

  Encodes-nil : (ts : List Text) → Encodes ts [] → ts ≡ []
  Encodes-nil [] e = refl
  Encodes-nil (t ∷ ts) e = absurd e

  -- A list of texts whose last encodes `j`.
  Encodes-split :
      (ts : List Text) (js : List EmailJob) (j : EmailJob)
      → Encodes ts (js ++ j ∷ [])
      → (ts' : List Text) × (t : Text) × (ts ≡ ts' ++ t ∷ []) × Encodes ts' js × (marshal j ≡ ok t)
  Encodes-split [] [] j e = absurd e
  Encodes-split [] (j' ∷ js) j e = absurd e
  Encodes-split (t ∷ []) [] j (m, _) = ([], t, refl, tt, m)
  Encodes-split (t ∷ u ∷ ts) [] j (m, e) = absurd e
  Encodes-split (t ∷ ts) (j' ∷ js) j (m', e) =
      let (ts', u, split, e', m) = Encodes-split ts js j e in
      (t ∷ ts', u, ap (λ r. t ∷ r) split, (m', e'), m)

  -- The queue under `key` holds these jobs, the next to be delivered first.
  pub record Holds (key : String) (s : State) (queue : List EmailJob) : Type 0 where
    pub encodes : Encodes (items s key) (reverse queue)

  -- When the call arrives and the queue holds a job, Pop returns the first and leaves the others.
  pub pop-cons :
      (job : EmailJob) (queue : List EmailJob) (s : State)
      → Holds email_queue_key s (job ∷ queue)
      → ((pop json redis arrived s).0 ≡ ok (some job))
        × Holds email_queue_key (pop json redis arrived s).1 queue
  unfolding pop
  pop-cons job queue s h =
      let (ts, t, split, e, m) =
        Encodes-split (items s email_queue_key) (reverse queue) job
          (rw reverse-cons at h.encodes) in
      (
        rw (redis.brpop_value email_queue_key s ∙ ap last_of split ∙ last_of-append ts t)
            (rw (json.unmarshal-marshal job t m)),
        record {
          encodes =
              rw (redis.items-brpop email_queue_key s email_queue_key)
                (rw split (rw init_of-append e));
        },
      )

  -- Pop on an empty queue times out.
  pub pop-empty :
      (s : State)
      → Holds email_queue_key s []
      → ((pop json redis arrived s).0 ≡ ok none)
        × Holds email_queue_key (pop json redis arrived s).1 []
  unfolding pop
  pop-empty s h =
      let none_left = Encodes-nil (items s email_queue_key) h.encodes in
      (
        rw (redis.brpop_value email_queue_key s ∙ ap last_of none_left),
        record {
          encodes = rw (redis.items-brpop email_queue_key s email_queue_key) (rw none_left tt);
        },
      )

  -- Pop leaves the dead jobs alone.
  pub pop-dead :
      (dead : List EmailJob) (s : State)
      → Holds dead_queue_key s dead
      → Holds dead_queue_key (pop json redis arrived s).1 dead
  unfolding pop
  pop-dead dead s h = record {
    encodes = rw (redis.items-brpop email_queue_key s dead_queue_key) h.encodes;
  }
