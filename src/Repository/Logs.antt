-- ===== src/Repository/Logs.antt =====
-- internal/repository/email_log_repo.go. `now` is time.Now() where the source reads the clock.
use Prim.Native.String.{◌++◌}
use email_service_with_aws_s.Base.{
  ◌+◌, ◌/◌, ℕ, String, Bool, false, ◌&&◌, ◌||◌, Option, none, some, List, ◌==◌, nat_eq,
  if◌then◌else◌, Result, ok, err, Outcome, attempt, attempt_, query, wrapped, message, not_found,
  wrap,
}
use email_service_with_aws_s.Sql.{Table, Collation, Inserted, stored, duplicate_key}
use email_service_with_aws_s.Repository.Models.{EmailLog, log_clash, Status, status_text}
use email_service_with_aws_s.Repository.Models.Status.{
  sent, delivered, opened, clicked, bounced, hard_bounced, soft_bounced, complained,
}

-- COALESCE(column, now)
abbrev pub coalesce : Option ℕ → ℕ → Option ℕ
coalesce none now = some now
coalesce (some t) now = some t

-- CASE WHEN status IN ('clicked', 'bounced', 'complained') THEN status ELSE 'opened' END
unfoldable pub status_on_open : Status → Status
status_on_open clicked = clicked
status_on_open bounced = bounced
status_on_open complained = complained
status_on_open _ = opened

-- The SET clause of UpdateStatus for each status; `now` as the column holds it.
unfoldable pub set_status : Status → ℕ → EmailLog → EmailLog
unfolding status_on_open
set_status sent now log = record log { status = sent; sent_at = some now }
set_status delivered now log = record log { status = delivered; delivered_at = some now }
set_status opened now log = record log {
  status = status_on_open log.status;
  opened_at = coalesce log.opened_at now;
}
set_status clicked now log = record log {
  status = clicked;
  clicked_at = coalesce log.clicked_at now;
}
set_status bounced now log = record log { status = bounced; bounced_at = some now }
set_status hard_bounced now log = record log { status = hard_bounced; bounced_at = some now }
set_status soft_bounced now log = record log { status = soft_bounced; bounced_at = some now }
set_status status now log = record log { status = status }

-- An empty text is no condition; the offset and the limit are not negative.
pub record LogFilter : Type 0 where
  pub client_id : String
  pub status : String
  pub from_email : String
  pub to_email : String
  pub limit : ℕ
  pub offset : ℕ

-- No row: sql.ErrNoRows.
abbrev pub one_row {ℓ} : {A : Type ℓ} → String → Result (Option A) → Result A
one_row context (ok none) = err not_found
one_row context (ok (some a)) = ok a
one_row context (err e) = err (wrap context e)

-- A duplicate key is an error of the driver.
abbrev pub inserted : Result Inserted → Result (Unit {0})
inserted (ok stored) = ok tt
inserted (ok duplicate_key) = err (message "Error 1062: Duplicate entry")
inserted (err e) = err e

module _ (text : Collation) where
  abbrev pub has_id : String → EmailLog → Bool
  has_id id log = text.same log.id id

  abbrev pub has_message_id : String → EmailLog → Bool
  has_message_id id log = elim log.aws_message_id [ none ↦ false | some m ↦ text.same m id ]

  -- The WHERE clause of buildLogQuery.
  unfoldable pub log_query : LogFilter → EmailLog → Bool
  log_query f log =
      text.same log.client_id f.client_id
      && ((f.status == "" || text.same (status_text log.status) f.status)
          && ((f.from_email == "" || text.same log.from_email f.from_email)
              && (f.to_email == "" || text.same log.to_email f.to_email)))

  module _ (table : Table EmailLog (log_clash text)) where
    open table use {State, get, count, page, insert, update}

    -- The columns that the statement leaves out have their defaults; `at` is the server's clock.
    abbrev new_row : ℕ → EmailLog → EmailLog
    new_row at log = record log {
      aws_message_id = none;
      sent_at = none;
      delivered_at = none;
      opened_at = none;
      clicked_at = none;
      bounced_at = none;
      created_at = at;
    }

    unfoldable pub create : Outcome → ℕ → EmailLog → State → Result (Unit {0}) × State
    create net at log s =
        let (r, s') = attempt net (insert (new_row at log)) s in
        (wrapped "EmailLogRepository.Create" (inserted r), s')

    unfoldable pub get_by_id : Outcome → String → State → Result EmailLog
    get_by_id net id s = one_row "EmailLogRepository.GetByID" (query net (get (has_id id) s))

    unfoldable pub get_by_aws_message_id : Outcome → String → State → Result EmailLog
    get_by_aws_message_id net id s =
        one_row "EmailLogRepository.GetByAWSMessageID" (query net (get (has_message_id id) s))

    -- What a DATETIME column holds of a time in nanoseconds: the driver writes microseconds, and MySQL
    -- rounds to a second.
    abbrev column_time : ℕ → ℕ
    column_time now = (now / 1000 + 500000) / 1000000

    unfoldable pub update_status : Outcome → ℕ → String → Status → State → Result (Unit {0}) × State
    unfolding set_status
    update_status net now id status s =
        let (r, s') = attempt_ net (update (has_id id) (set_status status (column_time now))) s in
        (wrapped ("EmailLogRepository.UpdateStatus(" ++ (status_text status ++ ")")) r, s')

    unfoldable pub set_aws_message_id :
        Outcome → String → String → State → Result (Unit {0}) × State
    set_aws_message_id net id aws_message_id s =
        let (r, s') =
          attempt_ net
            (update (has_id id) (λ log. record log { aws_message_id = some aws_message_id })) s in
        (wrapped "EmailLogRepository.SetAWSMessageID" r, s')

    unfoldable pub list : Outcome → LogFilter → State → Result (List EmailLog)
    unfolding log_query
    list net f s =
        let limit = if nat_eq f.limit 0 then 50 else f.limit in
        wrapped "EmailLogRepository.List"
          (query net (page (log_query f) (λ log. log.created_at) limit f.offset s))

    unfoldable pub count_logs : Outcome → LogFilter → State → Result ℕ
    unfolding log_query
    count_logs net f s = wrapped "EmailLogRepository.Count" (query net (count (log_query f) s))
