-- ===== src/Delivery/Ses.antt =====
-- The calls of github.com/aws/aws-sdk-go-v2/service/ses, for internal/delivery. `sent` is what SES has
-- taken to deliver. The SDK itself tries a call again, a lost reply included (its default retryer, with
-- RetryMaxAttempts tries), so one call may hand SES its message several times.
use email_service_with_aws_s.Base.{
  ℕ, suc, ◌≤◌, String, ◌≡◌, Option, List, ◌++◌, ◌⊎◌, inl, inr, Bytes, repeat,
}

-- SendRawEmailInput; the two tags have fixed names.
pub record RawEmail : Type 0 where
  pub source : String
  pub destinations : List String
  pub raw_message : Bytes
  pub configuration_set_name : String
  pub client_id_tag : String
  pub log_id_tag : String

-- The exceptions that the program looks for.
pub data Exception : Type 0 where
  rejected mail_from_domain_not_verified no_configuration_set sending_paused : Exception
  configuration_set_exists event_destination_exists other_exception : Exception

-- An error of the SDK: the exception in it, the ErrorCode() if there is an APIError in it, its text.
pub record Failure : Type 0 where
  pub exception : Exception
  pub code : Option String
  pub text : String

pub data EventType : Type 0 where
  send_event delivery_event open_event click_event bounce_event complaint_event : EventType

pub record EventDestination : Type 0 where
  pub configuration_set_name : String
  pub name : String
  pub matching_event_types : List EventType
  pub topic_arn : String

pub record Ses : Type 1 where
  pub State : Type 0
  -- RetryMaxAttempts of aws.Config, three unless it is set
  pub max_attempts : ℕ
  pub sent : State → List RawEmail
  -- the SES message id, or an error
  pub send_raw_email : RawEmail → State → (String ⊎ Failure) × State
  pub create_configuration_set : String → State → Option Failure × State
  pub create_event_destination : EventDestination → State → Option Failure × State
  pub sent-accepted :
      (m : RawEmail) (s : State) (id : String)
      → (send_raw_email m s).0 ≡ inl id
      → (n : ℕ) × (suc n ≤ max_attempts)
        × (sent (send_raw_email m s).1 ≡ sent s ++ repeat (suc n) m)
  -- SES refuses a message without delivering it if its set does not exist, and the SDK does not try
  -- again; nobody deletes a set while a call runs
  pub sent-no_configuration_set :
      (m : RawEmail) (s : State) (f : Failure)
      → (send_raw_email m s).0 ≡ inr f
      → f.exception ≡ no_configuration_set
      → sent (send_raw_email m s).1 ≡ sent s
  -- an error may also be the last of several replies that were lost
  pub sent_times :
      (m : RawEmail) (s : State)
      → (n : ℕ) × (n ≤ max_attempts) × (sent (send_raw_email m s).1 ≡ sent s ++ repeat n m)
  pub sent-create_configuration_set :
      (name : String) (s : State) → sent (create_configuration_set name s).1 ≡ sent s
  pub sent-create_event_destination :
      (d : EventDestination) (s : State) → sent (create_event_destination d s).1 ≡ sent s
