-- ===== src/Examples/Tables.antt =====
-- The repositories on small tables.
use email_service_with_aws_s.Base.{
  ◌+◌, String, ◌≡◌, refl, true, false, ◌&&◌, ◌||◌, [], ◌∷◌, none, some, arith, map_ok, arrived,
}
use email_service_with_aws_s.Sql.{Table}
use email_service_with_aws_s.Repository.Models.{
  EmailLog, EmailDailyStat, stat_clash, BlacklistedEmail, blacklist_clash,
}
use email_service_with_aws_s.Repository.Models.Status.{queued, opened, clicked, sent}
use email_service_with_aws_s.Repository.LogLaws.{play, play_first_times}
use email_service_with_aws_s.Repository.Stats.{
  increment_stat, get_summary, empty_day, allowed_stat_column,
}
use email_service_with_aws_s.Repository.Stats.Column.{sent as sent_column}
use email_service_with_aws_s.Repository.StatLaws.{total, summary-increment_stat}
use email_service_with_aws_s.Repository.Blacklist.{is_blacklisted, add, remove}
use email_service_with_aws_s.Repository.BlacklistLaws.{is_blacklisted-add, is_blacklisted-remove}
use email_service_with_aws_s.Fakes.Sql.{exact, memory_table}

abbrev stats : Table EmailDailyStat (stat_clash exact)
stats = memory_table (stat_clash exact)

abbrev blacklist : Table BlacklistedEmail (blacklist_clash exact)
blacklist = memory_table (blacklist_clash exact)

abbrev a_log : String → EmailLog
a_log id = record {
  id = id;
  client_id = "c";
  aws_message_id = none;
  from_email = "me@x";
  to_email = "you@x";
  subject = "hi";
  status = queued;
  sent_at = none;
  delivered_at = none;
  opened_at = none;
  clicked_at = none;
  bounced_at = none;
  created_at = 1;
}

play_first_times_example :
    ((play ((sent, 2) ∷ (opened, 3) ∷ (clicked, 4) ∷ (opened, 5) ∷ []) (a_log "L1")).opened_at
      ≡ some 3)
    × ((play ((sent, 2) ∷ (opened, 3) ∷ (clicked, 4) ∷ (opened, 5) ∷ []) (a_log "L1")).clicked_at
        ≡ some 4)
play_first_times_example =
    play_first_times ((sent, 2) ∷ (opened, 3) ∷ (clicked, 4) ∷ (opened, 5) ∷ []) (a_log "L1")

abbrev day_one : stats.State
day_one = empty_day "c" 1 ∷ []

summary-increment_stat_example :
    map_ok (total sent_column) (
      get_summary exact stats arrived "c" 0 9
        (increment_stat exact stats arrived "c" 1 "sent" day_one).1)
    ≡ map_ok (λ u. total sent_column u + 1) (get_summary exact stats arrived "c" 0 9 day_one)
unfolding allowed_stat_column
summary-increment_stat_example =
    summary-increment_stat exact stats "c" 1 "sent" sent_column sent_column "c" 0 9 day_one
      (omega arith) refl

abbrev entry : BlacklistedEmail
entry = record { client_id = "c"; email = "bad@x"; reason = "bounce"; created_at = 0 }

is_blacklisted-add_example :
    is_blacklisted exact blacklist arrived "c" "bad@x" (add exact blacklist arrived 3 entry []).1
    ≡ map_ok (λ old. true || old) (is_blacklisted exact blacklist arrived "c" "bad@x" [])
is_blacklisted-add_example = is_blacklisted-add exact blacklist 3 entry "c" "bad@x" []

is_blacklisted-remove_example :
    is_blacklisted exact blacklist arrived "c" "bad@x"
      (remove exact blacklist arrived "c" "bad@x" (entry ∷ [])).1
    ≡ map_ok (λ old. false && old) (is_blacklisted exact blacklist arrived "c" "bad@x" (entry ∷ []))
is_blacklisted-remove_example =
    is_blacklisted-remove exact blacklist "c" "bad@x" "c" "bad@x" (entry ∷ [])
