-- ===== src/Api.antt =====
-- cmd/api/main.go and internal/api/response.go: the handlers of the HTTP interface. The routes, gin
-- and the parts of a request that it reads are arguments.
pub mod Level
pub mod Page
pub mod Pages
pub mod Mail
pub mod Admin
pub mod Reports
pub mod Listing
pub mod Queueing
pub mod Accepted
pub mod Evicted
pub mod Deactivation
pub mod Created
pub mod Totals
use email_service_with_aws_s.Base.{ℕ, String, Bool, true, false}

-- api.OK, Created and Accepted with the data, or api.Err with its code.
pub data Answer {ℓ} (A : Type ℓ) : Type ℓ where
  answers : ℕ → A → Answer A
  fails : ℕ → String → Answer A

pub is_answer {ℓ} : {A : Type ℓ} → Answer A → Bool
is_answer (answers code a) = true
is_answer (fails code name) = false

-- The data of an answer, or `d` in place of an error.
pub data_or {ℓ} : {A : Type ℓ} → A → Answer A → A
data_or d (answers code a) = a
data_or d (fails code name) = d
