-- ===== src/Tracking/Handlers.antt =====
-- internal/tracking/handlers.go: the open pixel and the click redirect. The background goroutine of a
-- request is the part of the state that it writes.
use email_service_with_aws_s.Base.{ℕ, String, none, some, [], ◌∷◌, Bytes, Result, ok, err, Outcome}
use email_service_with_aws_s.Sql.{Table, Collation}
use email_service_with_aws_s.Repository.Models.{
  EmailLog, log_clash, EmailDailyStat, stat_clash, Status,
}
use email_service_with_aws_s.Repository.Models.Status.{opened, clicked}
use email_service_with_aws_s.Repository.Logs.{get_by_id, update_status}
use email_service_with_aws_s.Repository.Stats.{increment_stat}
use email_service_with_aws_s.Tracking.Escape.{query_unescape}

-- What becomes of the three calls, and what the clock shows.
pub record Conditions : Type 0 where
  pub updated : Outcome
  pub read : Outcome
  pub counted : Outcome
  pub now : ℕ
  pub today : ℕ

-- The answers of the two routes.
pub data Response : Type 0 where
  gif : Response
  redirect : Bytes → Response
  bad_request : Response

module _ (text : Collation) (logs : Table EmailLog (log_clash text))
    (stats : Table EmailDailyStat (stat_clash text)) where
  count_event :
      Conditions → String → Result EmailLog → logs.State → stats.State → logs.State × stats.State
  count_event net column (err e) l s = (l, s)
  count_event net column (ok log) l s =
      (l, (increment_stat text stats net.counted log.client_id net.today column s).1)

  -- recordOpen and recordClick: the status, then the log's client, then its statistics.
  unfoldable pub record_event :
      Conditions → String → Status → String → logs.State → stats.State → logs.State × stats.State
  unfolding count_event
  record_event net id status column l s =
      let (r, l') = update_status text logs net.updated net.now id status l in
      elim r [
        | err e ↦ (l', s)
        | ok done ↦ count_event net column (get_by_id text logs net.read id l') l' s
      ]

  unfoldable pub record_open :
      Conditions → String → logs.State → stats.State → logs.State × stats.State
  record_open net id l s = record_event net id opened "opened" l s

  unfoldable pub record_click :
      Conditions → String → logs.State → stats.State → logs.State × stats.State
  record_click net id l s = record_event net id clicked "clicked" l s

  -- `param` is gin's Context.Param on the route that was matched.
  module _ (param : String → String) where
    unfoldable pub handle_open :
        Conditions → logs.State → stats.State → Response × (logs.State × stats.State)
    handle_open net l s = (gif, record_open net (param "logID") l s)

    -- `raw` is what Context.Query returns for u.
    unfoldable pub handle_click :
        Conditions → Bytes → logs.State → stats.State → Response × (logs.State × stats.State)
    handle_click net raw l s = elim (query_unescape raw) [
      | none ↦ (bad_request, (l, s))
      | some [] ↦ (bad_request, (l, s))
      | some (b ∷ url) ↦ (redirect (b ∷ url), record_click net (param "logID") l s)
    ]
