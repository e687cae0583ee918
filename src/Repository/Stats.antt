-- ===== src/Repository/Stats.antt =====
-- internal/repository/stats_repo.go. A date is the number of the day that date.Format gives.
use Prim.Native.String.{◌++◌}
use mathlib.Core.List.{reverse}
use email_service_with_aws_s.Base.{
  ℕ, ◌+◌, String, Bool, ◌&&◌, Option, none, some, List, [], ◌∷◌, ◌==◌, leb, select, if◌then◌else◌,
  Result, err, Outcome, attempt_, query, wrapped, message,
}
use email_service_with_aws_s.Sql.{Table, Collation}
use email_service_with_aws_s.Repository.Models.{EmailDailyStat, stat_clash, StatsSummary}

pub data Column : Type 0 where
  sent delivered opened clicked bounced complained : Column

-- allowedStatColumns
unfoldable pub allowed_stat_column : String → Option Column
allowed_stat_column name =
    if name == "sent"
    then some sent
    else if name == "delivered"
    then some delivered
    else if name == "opened"
    then some opened
    else if name == "clicked"
    then some clicked
    else if name == "bounced"
    then some bounced
    else if name == "complained"
    then some complained
    else none

abbrev pub column : Column → EmailDailyStat → ℕ
column sent r = r.sent
column delivered r = r.delivered
column opened r = r.opened
column clicked r = r.clicked
column bounced r = r.bounced
column complained r = r.complained

-- column = column + 1
abbrev pub bump : Column → EmailDailyStat → EmailDailyStat
bump sent r = record r { sent = r.sent + 1 }
bump delivered r = record r { delivered = r.delivered + 1 }
bump opened r = record r { opened = r.opened + 1 }
bump clicked r = record r { clicked = r.clicked + 1 }
bump bounced r = record r { bounced = r.bounced + 1 }
bump complained r = record r { complained = r.complained + 1 }

abbrev pub empty_day : String → ℕ → EmailDailyStat
empty_day client_id date = record {
  client_id = client_id;
  date = date;
  sent = 0;
  delivered = 0;
  opened = 0;
  clicked = 0;
  bounced = 0;
  complained = 0;
}

-- COALESCE(SUM(column), 0)
unfoldable pub sum_of : Column → List EmailDailyStat → ℕ
sum_of c [] = 0
sum_of c (r ∷ l) = column c r + sum_of c l

module _ (text : Collation) where
  -- client_id = ? AND date BETWEEN ? AND ?
  abbrev pub in_days : String → ℕ → ℕ → EmailDailyStat → Bool
  in_days client_id first_day last_day r =
      text.same r.client_id client_id && (leb first_day r.date && leb r.date last_day)

  module _ (table : Table EmailDailyStat (stat_clash text)) where
    open table use {State, rows, upsert, ordered}

    increment_column :
        Outcome → String → ℕ → Option Column → String → State → Result (Unit {0}) × State
    increment_column net client_id date none name s =
        (err (message ("StatsRepository.IncrementStat: unknown column " ++ name)), s)
    increment_column net client_id date (some c) name s =
        let (r, s') = attempt_ net (upsert (bump c (empty_day client_id date)) (bump c)) s in
        (wrapped ("StatsRepository.IncrementStat(" ++ (name ++ ")")) r, s')

    unfoldable pub increment_stat :
        Outcome → String → ℕ → String → State → Result (Unit {0}) × State
    unfolding increment_column
    increment_stat net client_id date name s =
        increment_column net client_id date (allowed_stat_column name) name s

    -- ORDER BY date ASC: a client has one row a day.
    unfoldable pub get_range : Outcome → String → ℕ → ℕ → State → Result (List EmailDailyStat)
    get_range net client_id first_day last_day s =
        wrapped "StatsRepository.GetRange"
          (query net (reverse (ordered (in_days client_id first_day last_day) (λ r. r.date) s)))

    unfoldable pub get_summary : Outcome → String → ℕ → ℕ → State → Result StatsSummary
    unfolding sum_of
    get_summary net client_id first_day last_day s =
        let days = select (in_days client_id first_day last_day) (rows s) in
        wrapped "StatsRepository.GetSummary" (
          query net (record {
            sent = sum_of sent days;
            delivered = sum_of delivered days;
            opened = sum_of opened days;
            clicked = sum_of clicked days;
            bounced = sum_of bounced days;
            complained = sum_of complained days;
          }))
