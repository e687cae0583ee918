-- ===== src/Api/Reports.antt =====
-- cmd/api/main.go: the handlers that only read, and roundRate.
use Prim.Native.Nat.{◌-◌}
use email_service_with_aws_s.Base.{
  ℕ, ◌*◌, String, Option, none, some, List, pos, pos_part, is_empty, nat_eq, if◌then◌else◌, ok, err,
  Outcome,
}
use email_service_with_aws_s.Redis.Counters.{Counters}
use email_service_with_aws_s.Sql.{Table, Collation}
use email_service_with_aws_s.RateLimit.Calendar.{Time, days_since_epoch}
use email_service_with_aws_s.RateLimit.Limiter.{Usage, get_current_usage}
use email_service_with_aws_s.Repository.Models.{
  Client, client_clash, EmailLog, log_clash, EmailDailyStat, stat_clash, StatsSummary, is_not_found,
}
use email_service_with_aws_s.Repository.Clients.{get_by_id}
use email_service_with_aws_s.Repository.Logs.{LogFilter, list, count_logs}
use email_service_with_aws_s.Repository.Stats.{get_range, get_summary}
use email_service_with_aws_s.Api.{Answer, answers, fails}
use email_service_with_aws_s.Api.Page.{PaginationMeta, pagination, parse_int_query}

abbrev internal {ℓ} : {A : Type ℓ} → Answer A
internal = fails 500 "INTERNAL_ERROR"

-- float64: its zero, and math.Round(numerator / denominator * 10000) / 10000 of two counts.
pub record Float : Type 1 where
  pub Value : Type 0
  pub zero_value : Value
  pub rounded : ℕ → ℕ → Value

pub record Overview (float : Float) : Type 0 where
  pub summary : StatsSummary
  pub open_rate : float.Value
  pub bounce_rate : float.Value
  pub daily_breakdown : List EmailDailyStat

module _ (float : Float) where
  unfoldable pub round_rate : ℕ → ℕ → float.Value
  round_rate numerator denominator =
      if nat_eq denominator 0 then float.zero_value else float.rounded numerator denominator

  unfoldable pub overview : StatsSummary → List EmailDailyStat → Overview float
  unfolding round_rate
  overview summary daily = record {
    summary = summary;
    open_rate = round_rate summary.opened summary.delivered;
    bounce_rate = round_rate summary.bounced summary.sent;
    daily_breakdown = daily;
  }

module _ (text : Collation) (float : Float) (stats : Table EmailDailyStat (stat_clash text)) where
  -- GetRange and GetSummary of the days from `first` to `last`
  unfoldable pub read_overview :
      Outcome → Outcome → String → ℕ → ℕ → stats.State → Answer (Overview float)
  unfolding overview
  read_overview ranged summed client_id first last s =
      elim (get_range text stats ranged client_id first last s) [
        | err e ↦ internal
        | ok daily ↦ elim (get_summary text stats summed client_id first last s) [
          | err e ↦ internal
          | ok summary ↦ answers 200 (overview float summary daily)
        ]
      ]

  -- GET /v1/stats/overview. `parse_date` is time.Parse("2006-01-02", s) as the number of its day, 0
  -- for a day before 1970; the nanosecond before the next midnight is of the same day.
  module _ (parse_date : String → Option ℕ) where
    unfoldable pub day_of : String → ℕ → ℕ
    day_of query default_day =
        if is_empty query
        then default_day
        else elim (parse_date query) [ none ↦ default_day | some d ↦ d ]

    unfoldable pub stats_overview :
        Outcome → Outcome → Time → String → String → Client → stats.State → Answer (Overview float)
    unfolding day_of
    stats_overview ranged summed now from to client s =
        let today = days_since_epoch now in
        read_overview ranged summed client.id (day_of from (today - 30)) (day_of to today) s

  -- GET /admin/clients/:id/stats
  unfoldable pub client_stats :
      (clients : Table Client (client_clash text))
      → Outcome
      → Outcome
      → Outcome
      → Time
      → String
      → clients.State
      → stats.State
      → Answer (Overview float)
  client_stats clients found ranged summed now client_id db s =
      let today = days_since_epoch now in
      elim (get_by_id text clients found client_id db) [
        | err e ↦ if is_not_found e then fails 404 "NOT_FOUND" else internal
        | ok client ↦ read_overview ranged summed client_id (today - 30) today s
      ]

-- GET /v1/emails
module _ (text : Collation) (logs : Table EmailLog (log_clash text)) where
  unfoldable pub filter_of : Client → String → ℕ → ℕ → LogFilter
  filter_of client status limit offset = record {
    client_id = client.id;
    status = status;
    from_email = "";
    to_email = "";
    limit = limit;
    offset = offset;
  }

  -- With the page and the limit that parseIntQuery gives.
  unfoldable pub email_page :
      Outcome
      → Outcome
      → ℕ
      → ℕ
      → String
      → Client
      → logs.State
      → Answer (List EmailLog × PaginationMeta)
  unfolding filter_of
  email_page listed counted page limit status client s =
      elim (list text logs listed (filter_of client status limit ((page - 1) * limit)) s) [
        | err e ↦ internal
        | ok rows ↦ elim (count_logs text logs counted (filter_of client status 0 0) s) [
          | err e ↦ internal
          | ok total ↦ answers 200 (rows, pagination page limit total)
        ]
      ]

  unfoldable pub list_emails :
      Outcome
      → Outcome
      → String
      → String
      → String
      → Client
      → logs.State
      → Answer (List EmailLog × PaginationMeta)
  unfolding email_page
  list_emails listed counted page limit status client s =
      email_page listed counted (pos_part (parse_int_query page (pos 1) (pos 1) (pos 10000)))
        (pos_part (parse_int_query limit (pos 50) (pos 1) (pos 200))) status client s

-- GET /v1/quota
unfoldable pub quota :
    (counters : Counters) → Outcome → Time → Client → counters.State → Answer Usage
quota counters net now client s =
    elim (get_current_usage counters net now client.id client.hourly_limit client.monthly_limit s) [
      | err e ↦ internal
      | ok usage ↦ answers 200 usage
    ]
