-- ===== src/RateLimit/Window.antt =====
-- The sorted set of a client as a sliding window: which entries are counted at a time.
use email_service_with_aws_s.Base.{
  ℕ, ◌+◌, ◌≤◌, String, ◌≡◌, refl, Bool, false, List, [], ◌∷◌, arith, ◌==◌, pos, ◌-ℤ◌, ltb, length,
  select, any,
}
use email_service_with_aws_s.Redis.Counters.{Entry, outside, place, without_member}
use email_service_with_aws_s.RateLimit.Limiter.{window_ms}

-- The score lies within the last hour before `now`.
abbrev pub recent : ℕ → Entry → Bool
recent now e = ltb now (e.0 + window_ms)

pub outside-eq-recent :
    (now : ℕ) (e : Entry) → outside (pos 0) (pos now -ℤ pos window_ms) e ≡ recent now e
unfolding ◌-ℤ◌
outside-eq-recent now e = ground arith

pub select-outside :
    (now : ℕ) (l : List Entry)
    → select (outside (pos 0) (pos now -ℤ pos window_ms)) l ≡ select (recent now) l
select-outside now [] = refl
select-outside now (e ∷ l) = rw (outside-eq-recent now e, select-outside now l)

-- What is recent later was recent before.
pub select-recent_later :
    (t now : ℕ) (l : List Entry)
    → now ≤ t
    → select (recent t) (select (recent now) l) ≡ select (recent t) l
select-recent_later t now [] h = refl
select-recent_later t now (e ∷ l) h = ground (arith, select-recent_later t now l h)

pub length-select-place :
    (p : Entry → Bool) (e : Entry) (l : List Entry)
    → length (select p (place e l)) ≡ length (select p (e ∷ l))
length-select-place p e [] = refl
length-select-place p e (x ∷ l) = ground (arith, length-select-place p e l)

-- No entry has the member `uid`.
abbrev pub Absent : String → List Entry → Type 0
Absent uid l = any (λ e. e.1 == uid) l ≡ false

pub without_member-of_Absent :
    (uid : String) (l : List Entry) → Absent uid l → without_member uid l ≡ l
without_member-of_Absent uid [] h = refl
without_member-of_Absent uid (e ∷ l) h = ground (arith, without_member-of_Absent uid l)

pub Absent-select :
    (uid : String) (p : Entry → Bool) (l : List Entry) → Absent uid l → Absent uid (select p l)
Absent-select uid p [] h = refl
Absent-select uid p (e ∷ l) h = ground (arith, Absent-select uid p l)

pub Absent-place :
    (uid : String) (e : Entry) (l : List Entry)
    → (e.1 == uid) ≡ false
    → Absent uid l
    → Absent uid (place e l)
Absent-place uid e [] h k = ground arith
Absent-place uid e (x ∷ l) h k = ground (arith, Absent-place uid e l)
