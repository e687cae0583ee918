-- ===== src/Examples/Jobs.antt =====
-- The queue, the delivery and the worker on one letter.
use email_service_with_aws_s.Base.{
  arith, ℕ, zero, suc, ◌<◌, ◌≤◌, true, to_lower, map, ◌==◌, String, ◌≡◌, refl, false, Option, none,
  some, List, [], ◌∷◌, bytes, Result, ok, message, arrived, lost, if◌then◌else◌,
}
use email_service_with_aws_s.Redis.Lists.{Lists}
use email_service_with_aws_s.Queue.{EmailJob, pop, retry, email_queue_key, dead_queue_key}
use email_service_with_aws_s.Queue.Order.{Holds}
use email_service_with_aws_s.Queue.Retry.{retry-Holds, pop-retry}
use email_service_with_aws_s.Delivery.Errors.{is_configuration_set_not_found}
use email_service_with_aws_s.Delivery.Mime.{build_raw_message}
use email_service_with_aws_s.Delivery.Send.{
  send, send_once, classify_error, ensure_configuration_set,
}
use email_service_with_aws_s.Repository.Blacklist.{is_blacklisted}
use email_service_with_aws_s.Repository.Logs.{update_status}
use email_service_with_aws_s.Delivery.SendLaws.{Sends, send-Sends}
use email_service_with_aws_s.Worker.{
  World, Conditions, tracked_body, message_of, process_job, work, valid_recipients,
}
use email_service_with_aws_s.Worker.Recipients.{not_blacklisted, valid_recipients_lem}
use email_service_with_aws_s.Worker.Sends.{Mails, process_job-Mails}
use email_service_with_aws_s.Worker.Fate.{Kept, work-Kept}
use email_service_with_aws_s.Worker.Run.{run}
use email_service_with_aws_s.Worker.Drain.{IsDrained, run-IsDrained}
use email_service_with_aws_s.Worker.Pool.{
  Pool, Move, cancel, turn, start, play, idle, handling, all_stopped,
}
use email_service_with_aws_s.Worker.Conserved.{IsConserved, pool-IsConserved}
use email_service_with_aws_s.Worker.Stop.{turns_of, cancel-stops}
use email_service_with_aws_s.Sql.Rows.{length-map}
use email_service_with_aws_s.Fakes.Redis.{memory_lists}
use email_service_with_aws_s.Fakes.Mail.{
  plain_json, memory_ses, plain_mime, office, calm, letter, morning,
}

abbrev redis : Lists EmailJob
redis = memory_lists EmailJob

abbrev empty : String → List EmailJob
empty k = []

no_jobs : (k : String) → Holds plain_json redis k empty []
no_jobs k = record { encodes = tt }

abbrev outcome : Option (Result (Unit {0}) × World office) → Result (Unit {0}) × World office
outcome none = (ok tt, morning)
outcome (some out) = out

abbrev processed : Result (Unit {0}) × World office
processed = outcome (process_job office calm letter morning)

-- The configuration set is made, and one message goes to the one address that is allowed.
one_letter :
    (processed.0 ≡ ok tt) × (map (λ m. m.destinations) processed.1.mail.1 ≡ ("you@x" ∷ []) ∷ [])
unfolding process_job valid_recipients is_blacklisted tracked_body send send_once build_raw_message
    is_configuration_set_not_found classify_error ensure_configuration_set update_status
one_letter = (refl, refl)

process_job-Mails_example : Mails office calm letter morning processed
unfolding process_job valid_recipients is_blacklisted tracked_body
process_job-Mails_example = process_job-Mails office calm letter morning processed refl

valid_recipients_example :
    "you@x" ∷ [] ≡ not_blacklisted office morning.blacklist_rows "c" letter.to
unfolding valid_recipients is_blacklisted
valid_recipients_example =
    valid_recipients_lem office (λ i. arrived) "c" letter.to morning.blacklist_rows ("you@x" ∷ [])
      refl

send-Sends_example :
    Sends plain_mime memory_ses "arn"
      (bytes "D")
      (message_of office letter ("you@x" ∷ []) [])
      (false, [])
      (send plain_mime memory_ses "arn"
        (bytes "D")
        (message_of office letter ("you@x" ∷ []) [])
        (false, []))
send-Sends_example =
    send-Sends plain_mime memory_ses "arn" (bytes "D") (message_of office letter ("you@x" ∷ []) [])
      (false, [])

-- The status cannot be written after the message was sent.
abbrev storm : Conditions
storm = record calm { marked_sent = lost (message "gone") }

abbrev noon : World office
noon = record morning { queue = λ k. if k == email_queue_key then letter ∷ [] else [] }

abbrev noon_result : Result (Unit {0}) × World office
noon_result = outcome (
    process_job office storm letter
      (record noon { queue = (pop plain_json redis arrived noon.queue).1 }))

one_job : Holds plain_json redis email_queue_key noon.queue (letter ∷ [])
one_job = record { encodes = (refl, tt) }

none_dead : Holds plain_json redis dead_queue_key noon.queue []
none_dead = record { encodes = tt }

retry-Holds_example :
    Holds plain_json redis email_queue_key
      (retry plain_json redis arrived letter "no" noon.queue).2
      (record letter { attempts = 1; last_error = "no" } ∷ letter ∷ [])
    × Holds plain_json redis dead_queue_key
        (retry plain_json redis arrived letter "no" noon.queue).2
        []
unfolding retry
retry-Holds_example =
    retry-Holds plain_json redis letter "no" (letter ∷ []) [] noon.queue one_job none_dead refl

pop-retry_example :
    ((pop plain_json redis arrived (retry plain_json redis arrived letter "no" noon.queue).2).0
      ≡ ok (some (record letter { attempts = 1; last_error = "no" })))
    × Holds plain_json redis email_queue_key
        (pop plain_json redis arrived (retry plain_json redis arrived letter "no" noon.queue).2).1
        (letter ∷ [])
unfolding retry
pop-retry_example =
    pop-retry plain_json redis letter "no" (letter ∷ []) [] noon.queue one_job none_dead refl refl

work-Kept_example :
    (v' : World office) × (work office storm noon ≡ some v')
    × Kept office letter [] [] v' noon_result.0
unfolding process_job valid_recipients is_blacklisted tracked_body
work-Kept_example =
    work-Kept office storm letter [] [] noon one_job none_dead refl refl (λ j. (j, refl))
      noon_result.0 noon_result.1 refl

run-IsDrained_example :
    (v : World office) × (run office (λ i. storm) 3 0 noon ≡ some v)
    × IsDrained office (letter ∷ []) [] v
run-IsDrained_example =
    run-IsDrained office (λ i. storm) (λ i. refl) (λ i. refl) (λ j. (j, refl)) (length-map to_lower)
      3 (letter ∷ []) [] noon (omega arith) one_job none_dead

-- The second worker takes the job, the first finds none, and the job is processed and queued again.
abbrev shift : List Move
shift = turn storm 1 ∷ turn storm 0 ∷ turn storm 1 ∷ turn storm 1 ∷ cancel ∷ turn storm 1 ∷ []

pool-IsConserved_example :
    (v : Pool office) × (play office shift (start office 2 noon) ≡ some v)
    × IsConserved office (letter ∷ []) [] v
pool-IsConserved_example =
    pool-IsConserved office (λ j. (j, refl)) (length-map to_lower) (letter ∷ []) [] 2 shift noon
      ((refl, refl), ((refl, refl), ((refl, refl), ((refl, refl), (tt, ((refl, refl), tt))))))
      one_job none_dead

abbrev at_work : Pool office
at_work = record {
  world = noon;
  tasks = handling letter ∷ idle ∷ [];
  settled = [];
  cancelled = false;
}

abbrev last_steps : List Move
last_steps =
    turn storm 0 ∷ turn storm 1 ∷ turn storm 0 ∷ turn storm 1 ∷ turn storm 0 ∷ turn storm 1 ∷ []

three_each : (k : ℕ) → k < 2 → 3 ≤ turns_of k last_steps
three_each zero lt = omega arith
three_each (suc zero) lt = omega arith
three_each (suc (suc k)) lt = absurd (omega (arith, lt))

cancel-stops_example :
    (v : Pool office) × (play office (cancel ∷ last_steps) at_work ≡ some v)
    × (all_stopped v.tasks ≡ true)
cancel-stops_example = cancel-stops office (length-map to_lower) at_work last_steps three_each
