-- ===== src/Examples/Requests.antt =====
-- Requests of the HTTP interface.
use mathlib.Core.List.{Perm}
use mathlib.Core.HLevel.{hedberg}
use native.Mathlib.Nat.{ℕ_set}
use email_service_with_aws_s.Base.{
  Bool-cases, inl, inr, ◌==◌, eq_iff, Option, ◌+ℤ◌, ℕ, String, ◌≡◌, refl, false, none, List, [],
  ◌∷◌, arith, bytes, length, ok, arrived, ok-injective, is_empty,
}
use email_service_with_aws_s.Repository.Models.{
  EmailLog, log_clash, blacklist_clash, EmailDailyStat, stat_clash, StatsSummary,
}
use email_service_with_aws_s.Repository.Models.Status.{queued}
use email_service_with_aws_s.Repository.Logs.{log_query, create}
use email_service_with_aws_s.Queue.{EmailJob, push}
use email_service_with_aws_s.Middleware.{api_key_middleware, parse_bearer_token}
use email_service_with_aws_s.Auth.{validate_api_key, get_from_cache}
use email_service_with_aws_s.Repository.Clients.{get_by_api_key}
use email_service_with_aws_s.Repository.Blacklist.{is_blacklisted}
use email_service_with_aws_s.RateLimit.Limiter.{check_all}
use email_service_with_aws_s.RateLimit.Scripts.{check_all_script}
use email_service_with_aws_s.RateLimit.Keys.{hourly_key}
use email_service_with_aws_s.Api.{Answer, answers}
use email_service_with_aws_s.Api.Page.{pagination}
use email_service_with_aws_s.Api.Pages.{rows_of, pages_from}
use email_service_with_aws_s.Api.Reports.{filter_of, email_page, Float, overview, stats_overview}
use email_service_with_aws_s.Api.Totals.{IsTotal, listed, stats_overview-IsTotal}
use email_service_with_aws_s.Sql.{Table, Falls}
use email_service_with_aws_s.Sql.Sorted.{Tells, Differs-Tells}
use email_service_with_aws_s.Api.Listing.{selected, time_of, email_page_lem}
use email_service_with_aws_s.Api.Mail.{
  is_listed, send_email, accept, enqueue, SendRequest, Binder, Services, Conditions, World,
  post_send,
}
use email_service_with_aws_s.Api.Accepted.{IsAccepted, post_send-IsAccepted}
use email_service_with_aws_s.Fakes.Redis.{memory_counters, memory_lists}
use email_service_with_aws_s.Fakes.Sql.{exact, memory_table}
use email_service_with_aws_s.Fakes.Mail.{plain_json}
use email_service_with_aws_s.Fakes.Cache.{plain_snapshots}
use email_service_with_aws_s.Examples.Logins.{bea, table, store, nothing, at_five, unchanged}

abbrev log : String → ℕ → EmailLog
log id at = record {
  id = id;
  client_id = "c";
  aws_message_id = none;
  from_email = "bea@x";
  to_email = "one@x";
  subject = "hi";
  status = queued;
  sent_at = none;
  delivered_at = none;
  opened_at = none;
  clicked_at = none;
  bounced_at = none;
  created_at = at;
}

abbrev three : List EmailLog
three = log "a" 1 ∷ log "b" 2 ∷ log "d" 3 ∷ []

String_discrete : Discrete String
String_discrete a b = elim (Bool-cases (a == b)) [
  | inl e ↦ yes ((eq_iff a b).0 e)
  | inr ne ↦ no (λ p. cc ((eq_iff a b).1 p, ne))
]

String_set : IsSet String
String_set = hedberg String_discrete

EmailLog_set : IsSet EmailLog
EmailLog_set = hlevel (ℕ_set, String_set)

three_differ :
    Tells
      (time_of exact (memory_table (log_clash exact)))
      (selected exact (memory_table (log_clash exact)) bea "" three)
unfolding log_query filter_of
three_differ =
    Differs-Tells (time_of exact (memory_table (log_clash exact))) EmailLog_set
      (selected exact (memory_table (log_clash exact)) bea "" three)
      ((omega arith, (omega arith, tt)), ((omega arith, tt), (tt, tt)))

email_page_example :
    (l : List EmailLog) × Perm l (selected exact (memory_table (log_clash exact)) bea "" three)
    × Falls (time_of exact (memory_table (log_clash exact))) l
    × ((page : ℕ)
        → email_page exact (memory_table (log_clash exact)) arrived arrived page 2 "" bea three
          ≡ answers 200 (rows_of page 2 l, pagination page 2 (length l)))
    × ((page : ℕ) → pages_from 1 (pagination page 2 (length l)).pages 2 l ≡ l)
email_page_example =
    email_page_lem exact (memory_table (log_clash exact)) 2 "" bea three (omega arith) three_differ

abbrev hello : SendRequest
hello = record {
  to = "one@x" ∷ [];
  subject = "hi";
  html = [];
  text = bytes "hello";
  from = "";
  reply_to = "";
}

named : is_empty "hi" ≡ false
unfolding is_empty
named = refl

abbrev one_body : Binder
one_body = record {
  bind = λ b. ok hello;
  bound_to = λ b r e. rw (← ok-injective hello r e) (omega arith);
  bound_subject = λ b r e. rw (← ok-injective hello r e) named;
}

abbrev api : Services
api = record {
  text = exact;
  client_json = plain_snapshots;
  json = plain_json;
  cache = store;
  counters = memory_counters;
  lists = memory_lists EmailJob;
  clients = table;
  logs = memory_table (log_clash exact);
  blacklist = memory_table (blacklist_clash exact);
  binder = one_body;
  domain = "mail.x";
}

abbrev calm : Conditions
calm = record {
  auth = at_five;
  limited = arrived;
  at = record { year = 2024; month = 2; day = 29; nanos = 0 };
  uid = "u";
  looked_up = arrived;
  log_id = "L1";
  created_at = 1;
  created = arrived;
  pushed = arrived;
  pushed_at = 7;
}

abbrev quiet : World api
quiet = record {
  counts = record { sets = λ k. []; counts = λ k. none; deadlines = λ k. none; time = 0 };
  log_rows = [];
  queue = λ k. [];
}

abbrev sent : Answer String × World api × store.State
sent = post_send api calm "Bearer em_live_1" [] (bea ∷ []) [] nothing quiet

post_send-IsAccepted_example :
    IsAccepted api calm [] [] [] quiet
      (record { encodes = tt })
      (record { encodes = tt })
      refl
      []
      "Bearer em_live_1"
      (λ t. bea ∷ [])
      1
      0
      nothing
      unchanged
      (omega arith)
      sent.1
unfolding post_send api_key_middleware parse_bearer_token is_empty validate_api_key get_from_cache
    get_by_api_key send_email accept enqueue check_all check_all_script hourly_key ◌+ℤ◌ create push
    is_blacklisted is_listed
post_send-IsAccepted_example =
    post_send-IsAccepted api calm [] [] [] quiet (record { encodes = tt }) (record { encodes = tt })
      refl [] "Bearer em_live_1" (λ t. bea ∷ []) 1 0 nothing unchanged (omega arith) 202 "L1" sent.1
      sent.2 refl

abbrev floats : Float
floats = record { Value = ℕ × ℕ; zero_value = (0, 1); rounded = λ n d. (n, d) }

abbrev yesterday : EmailDailyStat
yesterday = record {
  client_id = "c";
  date = 19781;
  sent = 4;
  delivered = 3;
  opened = 1;
  clicked = 0;
  bounced = 1;
  complained = 0;
}

abbrev stat_table : Table EmailDailyStat (stat_clash exact)
stat_table = memory_table (stat_clash exact)

abbrev no_date : String → Option ℕ
no_date s = none

stats_overview-IsTotal_example :
    (summary : StatsSummary) × (stats_overview exact floats stat_table no_date arrived arrived
        calm.at "" "" bea
        (yesterday ∷ [])
      ≡ answers 200 (
          overview floats summary
            (listed exact floats stat_table no_date calm.at "" "" bea (yesterday ∷ []))))
    × IsTotal summary (listed exact floats stat_table no_date calm.at "" "" bea (yesterday ∷ []))
stats_overview-IsTotal_example =
    stats_overview-IsTotal exact floats stat_table no_date calm.at "" "" bea (yesterday ∷ [])
