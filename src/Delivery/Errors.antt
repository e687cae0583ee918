-- ===== src/Delivery/Errors.antt =====
-- internal/delivery/types.go: the codes of the errors, and which of them are worth a retry.
use Prim.Native.String.{◌++◌}
use email_service_with_aws_s.Base.{
  String, Bool, true, false, Option, none, some, Error, message, wrap, not_found, duplicate,
  message_rejected, domain_not_verified, configuration_set_not_found, account_suspended, transient,
  delivery_error,
}

pub data SesErrorCode : Type 0 where
  code_message_rejected code_domain_not_verified code_config_set_not_found : SesErrorCode
  code_account_suspended code_transient code_unknown : SesErrorCode

-- errors.As(err, &sesErr) with sesErr an SESError; then sesErr.Code() and sesErr.IsRetryable().
unfoldable pub as_ses_error : Error → Option (SesErrorCode × Bool)
as_ses_error (message m) = none
as_ses_error (wrap prefix e) = as_ses_error e
as_ses_error not_found = none
as_ses_error duplicate = none
as_ses_error (message_rejected m) = some (code_message_rejected, false)
as_ses_error (domain_not_verified m) = some (code_domain_not_verified, false)
as_ses_error (configuration_set_not_found name) = some (code_config_set_not_found, true)
as_ses_error (account_suspended m) = some (code_account_suspended, false)
as_ses_error (transient cause) = some (code_transient, true)
as_ses_error (delivery_error cause retryable) = some (code_unknown, retryable)

-- errors.As(err, &csErr) with csErr a *ConfigurationSetNotFoundError
unfoldable pub is_configuration_set_not_found : Error → Bool
is_configuration_set_not_found (configuration_set_not_found name) = true
is_configuration_set_not_found (wrap prefix e) = is_configuration_set_not_found e
is_configuration_set_not_found (transient cause) = is_configuration_set_not_found cause
is_configuration_set_not_found (delivery_error cause retryable) =
    is_configuration_set_not_found cause
is_configuration_set_not_found _ = false

-- err.Error(); the field Domain of a DomainNotVerifiedError is never set.
unfoldable pub error_text : Error → String
error_text (message m) = m
error_text (wrap prefix e) = prefix ++ (": " ++ error_text e)
error_text not_found = "not found"
error_text duplicate = "duplicate entry"
error_text (message_rejected m) = "ses: message rejected: " ++ m
error_text (domain_not_verified m) = "ses: sending domain not verified: " ++ m
error_text (configuration_set_not_found name) = "ses: configuration set not found: " ++ name
error_text (account_suspended m) = "ses: account sending disabled: " ++ m
error_text (transient cause) = "ses: transient error: " ++ error_text cause
error_text (delivery_error cause true) =
    "ses: delivery error (retryable=true): " ++ error_text cause
error_text (delivery_error cause false) =
    "ses: delivery error (retryable=false): " ++ error_text cause
