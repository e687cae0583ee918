-- ===== src/Api/Totals.antt =====
-- The totals and the days of GET /v1/stats/overview.
use mathlib.Core.List.{Permᴰ, Perm, reverse, reverse_perm}
use mathlib.Core.List.Perm
use mathlib.Core.Logic.{∥∥₁_elim}
use native.Mathlib.Nat.{ℕ_set}
use Prim.Native.Nat.{◌-◌}
use email_service_with_aws_s.Base.{
  ℕ, String, ◌≡◌, refl, sym, ◌∙◌, List, select, arith, Option, arrived,
}
use email_service_with_aws_s.Sql.{Table, Collation}
use email_service_with_aws_s.RateLimit.Calendar.{Time, days_since_epoch}
use email_service_with_aws_s.Repository.Models.{Client, EmailDailyStat, stat_clash, StatsSummary}
use email_service_with_aws_s.Repository.Stats.{Column, sum_of, in_days, get_range, get_summary}
use email_service_with_aws_s.Repository.Stats.Column.{
  sent, delivered, opened, clicked, bounced, complained,
}
use email_service_with_aws_s.Api.{answers}
use email_service_with_aws_s.Api.Reports.{Float, overview, read_overview, day_of, stats_overview}

module _ (c : Column) where
  sum_of-Permᴰ : (l k : List EmailDailyStat) → Permᴰ l k → sum_of c l ≡ sum_of c k
  unfolding sum_of
  sum_of-Permᴰ _ _ Permᴰ.nil = refl
  sum_of-Permᴰ _ _ (Permᴰ.cons {a = a} {b = b} {l₁ = l} {l₂ = k} e p) =
      rw e (omega (arith, sum_of-Permᴰ l k p))
  sum_of-Permᴰ _ _ (Permᴰ.swap {a = a} {b = b} {a' = a'} {b' = b'} {l = l} e f) =
      rw (e, f) (omega arith)
  sum_of-Permᴰ _ _ (Permᴰ.trans {l₁ = l} {l₂ = m} {l₃ = k} p q) =
      sum_of-Permᴰ l m p ∙ sum_of-Permᴰ m k q

  sum_of-Perm : (l k : List EmailDailyStat) → Perm l k → sum_of c l ≡ sum_of c k
  sum_of-Perm l k p = ∥∥₁_elim p (ℕ_set (sum_of c l) (sum_of c k)) (sum_of-Permᴰ l k)

-- Each total is the sum of its column over the days that are listed.
pub record IsTotal (s : StatsSummary) (daily : List EmailDailyStat) : Type 0 where
  pub sent_total : s.sent ≡ sum_of sent daily
  pub delivered_total : s.delivered ≡ sum_of delivered daily
  pub opened_total : s.opened ≡ sum_of opened daily
  pub clicked_total : s.clicked ≡ sum_of clicked daily
  pub bounced_total : s.bounced ≡ sum_of bounced daily
  pub complained_total : s.complained ≡ sum_of complained daily

module _ (text : Collation) (float : Float) (stats : Table EmailDailyStat (stat_clash text)) where
  module _ (client_id : String) (first last : ℕ) (s : stats.State) where
    abbrev pub days : List EmailDailyStat
    days = reverse (stats.ordered (in_days text client_id first last) (λ r. r.date) s)

    days-sum :
        (c : Column)
        → sum_of c (select (in_days text client_id first last) (stats.rows s)) ≡ sum_of c days
    days-sum c = sym (
        sum_of-Perm c days (select (in_days text client_id first last) (stats.rows s)) (
          Perm.trans
            (reverse_perm (stats.ordered (in_days text client_id first last) (λ r. r.date) s))
            (stats.ordered_perm (in_days text client_id first last) (λ r. r.date) s)))

    -- What is answered: the days, oldest first, and a summary of them.
    read_overview-IsTotal :
        (summary : StatsSummary) × (read_overview text float stats arrived arrived client_id first
            last s
          ≡ answers 200 (overview float summary days))
        × IsTotal summary days
    unfolding read_overview get_range get_summary
    read_overview-IsTotal = (
      _,
      refl,
      record {
        sent_total = days-sum sent;
        delivered_total = days-sum delivered;
        opened_total = days-sum opened;
        clicked_total = days-sum clicked;
        bounced_total = days-sum bounced;
        complained_total = days-sum complained;
      },
    )

  module _ (parse_date : String → Option ℕ) (now : Time) (from to : String) (client : Client)
      (s : stats.State) where
    abbrev pub listed : List EmailDailyStat
    listed =
        days client.id (day_of text float stats parse_date from (days_since_epoch now - 30))
          (day_of text float stats parse_date to (days_since_epoch now)) s

    -- When both queries arrive, GET /v1/stats/overview lists the days of the client from the first to
    -- the last that is asked for, and each of its totals is the sum of that column over these days;
    -- the rates are those of the totals.
    pub stats_overview-IsTotal :
        (summary : StatsSummary) × (stats_overview text float stats parse_date arrived arrived now
            from to client s
          ≡ answers 200 (overview float summary listed))
        × IsTotal summary listed
    unfolding stats_overview
    stats_overview-IsTotal = read_overview-IsTotal client.id _ _ s
