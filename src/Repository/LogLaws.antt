-- ===== src/Repository/LogLaws.antt =====
-- The life of an email log.
use email_service_with_aws_s.Base.{ℕ, ◌≡◌, Option, none, some, List, [], ◌∷◌, arith}
use email_service_with_aws_s.Repository.Models.{EmailLog, Status}
use email_service_with_aws_s.Repository.Models.Status.{opened, clicked}
use email_service_with_aws_s.Repository.Logs.{set_status}

-- A status update and its time.
abbrev pub Event : Type 0
Event = Status × ℕ

-- UpdateStatus once for each event, in order.
pub play : List Event → EmailLog → EmailLog
play [] log = log
play ((st, now) ∷ events) log = play events (set_status st now log)

-- The time of the first event of opening or of clicking.
abbrev pub first_open : Option ℕ → List Event → Option ℕ
first_open (some t) events = some t
first_open none [] = none
first_open none ((opened, now) ∷ events) = some now
first_open none ((st, now) ∷ events) = first_open none events

abbrev pub first_click : Option ℕ → List Event → Option ℕ
first_click (some t) events = some t
first_click none [] = none
first_click none ((clicked, now) ∷ events) = some now
first_click none ((st, now) ∷ events) = first_click none events

-- Whatever the events and their order, a log keeps the times of its first open and first click.
pub play_first_times :
    (events : List Event) (log : EmailLog)
    → ((play events log).opened_at ≡ first_open log.opened_at events)
      × ((play events log).clicked_at ≡ first_click log.clicked_at events)
unfolding play set_status
play_first_times [] log = ground arith
play_first_times ((st, now) ∷ events) log =
    ground (arith, play_first_times events (set_status st now log))
