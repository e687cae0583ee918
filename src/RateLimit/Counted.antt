-- ===== src/RateLimit/Counted.antt =====
-- What the sorted set of a client has to do with the requests that were allowed.
use email_service_with_aws_s.Base.{
  ℕ, suc, ◌+◌, ◌≤◌, ◌<◌, String, ◌≡◌, refl, Bool, true, false, List, [], ◌∷◌, arith, ◌==◌, ℤ,
  pos_part, ltb, length, select, length-select-le, All, if◌then◌else◌, Outcome, arrived, lost, late,
}
use email_service_with_aws_s.Redis.Counters.{Counters, Entry, place}
use email_service_with_aws_s.RateLimit.Calendar.{Time, unix_milli}
use email_service_with_aws_s.RateLimit.Keys.{hourly_key}
use email_service_with_aws_s.RateLimit.Limiter.{window_ms, check_all}
use email_service_with_aws_s.RateLimit.Window.{
  recent, select-recent_later, length-select-place, Absent, Absent-place, Absent-select,
}
use email_service_with_aws_s.RateLimit.Laws.{is_allowed, check_all_lem}

-- One call of CheckAll for the client: what became of it, its time and its uuid, and what the clock of
-- Redis shows when the script runs.
pub record Request : Type 0 where
  pub net : Outcome
  pub at : Time
  pub uid : String
  pub server : ℕ

-- Each request has a uuid of its own, which no entry of `l` has.
abbrev pub HasFreshIds : List Entry → List Request → Type 0
HasFreshIds l [] = Unit {0}
HasFreshIds l (r ∷ rs) =
    Absent r.uid l × All (λ later. (r.uid == later.uid) ≡ false) rs × HasFreshIds l rs

-- The times of the last hour before `t`.
abbrev pub within_hour : ℕ → List ℕ → ℕ
within_hour t [] = 0
within_hour t (a ∷ l) = if ltb t (a + window_ms) then suc (within_hour t l) else within_hour t l

module _ (redis : Counters) (id : String) (h m : ℤ) where
  open redis use {State, members}

  -- At `t` no more allowed requests are recent than entries, and no more than the limit.
  abbrev pub IsCounted : ℕ → List ℕ → List Entry → Type 0
  IsCounted last times l =
      (t : ℕ)
      → last ≤ t
      → (within_hour t times ≤ length (select (recent t) l)) × (within_hour t times ≤ pos_part h)

  HasFreshIds-select :
      (p : Entry → Bool) (l : List Entry) (rs : List Request)
      → HasFreshIds l rs
      → HasFreshIds (select p l) rs
  HasFreshIds-select p l [] f = tt
  HasFreshIds-select p l (r ∷ rs) (a, d, f) =
      (Absent-select r.uid p l a, d, HasFreshIds-select p l rs f)

  HasFreshIds-place :
      (e : Entry) (l : List Entry) (rs : List Request)
      → All (λ later. (e.1 == later.uid) ≡ false) rs
      → HasFreshIds l rs
      → HasFreshIds (place e l) rs
  HasFreshIds-place e l [] d f = tt
  HasFreshIds-place e l (r ∷ rs) (ne, d) (a, distinct, f) =
      (Absent-place r.uid e l ne a, distinct, HasFreshIds-place e l rs d f)

  swept-IsCounted :
      (last now : ℕ) (times : List ℕ) (l : List Entry)
      → last ≤ now
      → IsCounted last times l
      → IsCounted now times (select (recent now) l)
  swept-IsCounted last now times l le c t h' =
      rw (select-recent_later t now l h') (c t (omega arith))

  late-IsCounted :
      (now : ℕ) (uid : String) (times : List ℕ) (l : List Entry)
      → IsCounted now times l
      → IsCounted now times (place (now, uid) l)
  late-IsCounted now uid times l c t h' =
      ground (arith, c t h', length-select-place (recent t) (now, uid) l)

  granted-IsCounted :
      (now : ℕ) (uid : String) (times : List ℕ) (l : List Entry)
      → length l < pos_part h
      → IsCounted now times l
      → IsCounted now (now ∷ times) (place (now, uid) l)
  granted-IsCounted now uid times l room c t h' =
      ground
        (arith, c t h', length-select-place (recent t) (now, uid) l, length-select-le (recent t) l)

  -- Both parts of the invariant, after one call.
  abbrev pub Kept : ℕ → List ℕ → List Request → List Entry → Type 0
  Kept last times rs l = IsCounted last times l × HasFreshIds l rs

  -- `granted`: the script counted the request; `answer`: the caller was told so.
  entry-Kept :
      (granted answer : Bool) (now : ℕ) (uid : String) (last : ℕ) (times : List ℕ)
      (rs : List Request) (l : List Entry)
      → last ≤ now
      → All (λ later. (uid == later.uid) ≡ false) rs
      → (answer ≡ true → granted ≡ true)
      → (granted ≡ true → length (select (recent now) l) < pos_part h)
      → Kept last times rs l
      → Kept now
          (if answer then now ∷ times else times)
          rs
          (if granted then place (now, uid) (select (recent now) l) else select (recent now) l)
  entry-Kept true true now uid last times rs l le distinct told room (c, f) = (
    granted-IsCounted now uid times _ (room refl) (swept-IsCounted last now times l le c),
    HasFreshIds-place (now, uid) _ rs distinct (HasFreshIds-select (recent now) l rs f),
  )
  entry-Kept true false now uid last times rs l le distinct told room (c, f) = (
    late-IsCounted now uid times _ (swept-IsCounted last now times l le c),
    HasFreshIds-place (now, uid) _ rs distinct (HasFreshIds-select (recent now) l rs f),
  )
  entry-Kept false true now uid last times rs l le distinct told room k = cc (told refl)
  entry-Kept false false now uid last times rs l le distinct told room (c, f) =
      (swept-IsCounted last now times l le c, HasFreshIds-select (recent now) l rs f)

  pub check_all-Kept :
      (net : Outcome) (at : Time) (uid : String) (last : ℕ) (times : List ℕ) (rs : List Request)
      (s : State)
      → last ≤ unix_milli at
      → Absent uid (members s (hourly_key id))
      → All (λ later. (uid == later.uid) ≡ false) rs
      → Kept last times rs (members s (hourly_key id))
      → Kept
          (unix_milli at)
          (if is_allowed (check_all redis net at uid id h m s).0
            then unix_milli at ∷ times
            else times)
          rs
          (members (check_all redis net at uid id h m s).1 (hourly_key id))
  unfolding check_all
  check_all-Kept arrived at uid last times rs s le absent distinct k =
      let (decides, entries, _) = check_all_lem redis at id h m s uid absent in
      rw entries (
        entry-Kept _ _ (unix_milli at) uid last times rs _ le distinct (λ e. e)
          (λ e. ground (arith, decides.0 e)) k)
  check_all-Kept (lost e) at uid last times rs s le absent distinct (c, f) =
      (λ t h'. c t (omega arith), f)
  check_all-Kept (late e) at uid last times rs s le absent distinct k =
      let (decides, entries, _) = check_all_lem redis at id h m s uid absent in
      rw entries (
        entry-Kept _ false (unix_milli at) uid last times rs _ le distinct (λ e. cc)
          (λ e. ground (arith, decides.0 e)) k)
