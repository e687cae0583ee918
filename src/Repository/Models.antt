-- ===== src/Repository/Models.antt =====
-- internal/repository/models.go, with the keys of the migrations under pkg/database/migrations.
use email_service_with_aws_s.Base.{
  ℕ, String, Bool, true, false, Option, ◌&&◌, ◌||◌, ℤ, nat_eq, Error, wrap, not_found, duplicate,
}
use email_service_with_aws_s.Sql.{Collation}

-- Times are nanoseconds since the epoch.
pub record Client : Type 0 where
  pub id : String
  pub name : String
  pub smtp_username : String
  pub smtp_password_hash : String
  pub api_key : String
  pub hourly_limit : ℤ
  pub monthly_limit : ℤ
  pub is_active : Bool
  pub created_at : ℕ
  pub updated_at : ℕ

-- PRIMARY KEY (id), UNIQUE KEY (smtp_username), UNIQUE KEY (api_key)
abbrev pub client_clash : Collation → Client → Client → Bool
client_clash c a b =
    c.same a.id b.id || (c.same a.smtp_username b.smtp_username || c.same a.api_key b.api_key)

-- The status constants; `bounced` is the legacy one.
pub data Status : Type 0 where
  queued sent delivered opened clicked bounced hard_bounced soft_bounced complained failed : Status

-- Their texts, as the column and the query parameter hold them.
abbrev pub status_text : Status → String
status_text queued = "queued"
status_text sent = "sent"
status_text delivered = "delivered"
status_text opened = "opened"
status_text clicked = "clicked"
status_text bounced = "bounced"
status_text hard_bounced = "hard_bounced"
status_text soft_bounced = "soft_bounced"
status_text complained = "complained"
status_text failed = "failed"

pub record EmailLog : Type 0 where
  pub id : String
  pub client_id : String
  pub aws_message_id : Option String
  pub from_email : String
  pub to_email : String
  pub subject : String
  pub status : Status
  pub sent_at : Option ℕ
  pub delivered_at : Option ℕ
  pub opened_at : Option ℕ
  pub clicked_at : Option ℕ
  pub bounced_at : Option ℕ
  pub created_at : ℕ

-- PRIMARY KEY (id)
abbrev pub log_clash : Collation → EmailLog → EmailLog → Bool
log_clash c a b = c.same a.id b.id

-- `date` counts days since the epoch.
pub record EmailDailyStat : Type 0 where
  pub client_id : String
  pub date : ℕ
  pub sent : ℕ
  pub delivered : ℕ
  pub opened : ℕ
  pub clicked : ℕ
  pub bounced : ℕ
  pub complained : ℕ

-- PRIMARY KEY (client_id, date)
abbrev pub stat_clash : Collation → EmailDailyStat → EmailDailyStat → Bool
stat_clash c a b = c.same a.client_id b.client_id && nat_eq a.date b.date

pub record StatsSummary : Type 0 where
  pub sent : ℕ
  pub delivered : ℕ
  pub opened : ℕ
  pub clicked : ℕ
  pub bounced : ℕ
  pub complained : ℕ

-- Without the number that AUTO_INCREMENT gives the row.
pub record BlacklistedEmail : Type 0 where
  pub client_id : String
  pub email : String
  pub reason : String
  pub created_at : ℕ

-- UNIQUE KEY (client_id, email)
abbrev pub blacklist_clash : Collation → BlacklistedEmail → BlacklistedEmail → Bool
blacklist_clash c a b = c.same a.client_id b.client_id && c.same a.email b.email

-- errors.Is(err, ErrNotFound) and errors.Is(err, ErrDuplicate)
abbrev pub is_not_found : Error → Bool
is_not_found not_found = true
is_not_found (wrap m e) = is_not_found e
is_not_found _ = false

abbrev pub is_duplicate : Error → Bool
is_duplicate duplicate = true
is_duplicate (wrap m e) = is_duplicate e
is_duplicate _ = false
