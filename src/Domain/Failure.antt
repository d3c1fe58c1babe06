-- ===== src/Domain/Failure.antt =====
-- packages/domain/src/notification/provider-failure.ts: what may go wrong with a send, and
-- whether it is worth trying again.
pub mod Laws
use whatsapp_notification_pl.Prelude.{ℕ, Bool, true, false, ◌||◌, Option, none, ◌==◌}

pub data FailureClassification : Type 0 where
  retryable permanent : FailureClassification

pub data ProviderFailureCode : Type 0 where
  provider_unreachable provider_connection_lost provider_timeout provider_aborted :
      ProviderFailureCode
  provider_rate_limited provider_server_error provider_unauthorized : ProviderFailureCode
  provider_invalid_request provider_unknown_error provider_response_unreadable : ProviderFailureCode
  session_missing session_not_ready recipient_not_on_whatsapp : ProviderFailureCode
  recipient_check_failed provider_acknowledgement_error provider_outcome_unknown :
      ProviderFailureCode
  unknown_outcome_fail_closed maximum_attempts_exhausted delivery_window_expired :
      ProviderFailureCode
  connection_unavailable connection_paused connection_restricted : ProviderFailureCode
  new_chat_quota_exceeded : ProviderFailureCode

-- The place in `providerFailureCodes`, by which two codes are compared.
abbrev pub rank : ProviderFailureCode → ℕ
rank provider_unreachable = 0
rank provider_connection_lost = 1
rank provider_timeout = 2
rank provider_aborted = 3
rank provider_rate_limited = 4
rank provider_server_error = 5
rank provider_unauthorized = 6
rank provider_invalid_request = 7
rank provider_unknown_error = 8
rank provider_response_unreadable = 9
rank session_missing = 10
rank session_not_ready = 11
rank recipient_not_on_whatsapp = 12
rank recipient_check_failed = 13
rank provider_acknowledgement_error = 14
rank provider_outcome_unknown = 15
rank unknown_outcome_fail_closed = 16
rank maximum_attempts_exhausted = 17
rank delivery_window_expired = 18
rank connection_unavailable = 19
rank connection_paused = 20
rank connection_restricted = 21
rank new_chat_quota_exceeded = 22

infix 50 ◌is◌
abbrev pub ◌is◌ : ProviderFailureCode → ProviderFailureCode → Bool
c is d = rank c == rank d

-- `classificationByCode`
unfoldable pub classify_failure_code : ProviderFailureCode → FailureClassification
classify_failure_code provider_unreachable = retryable
classify_failure_code provider_connection_lost = retryable
classify_failure_code provider_timeout = retryable
classify_failure_code provider_aborted = retryable
classify_failure_code provider_rate_limited = retryable
classify_failure_code provider_server_error = retryable
classify_failure_code provider_unauthorized = permanent
classify_failure_code provider_invalid_request = permanent
classify_failure_code provider_unknown_error = retryable
classify_failure_code provider_response_unreadable = retryable
classify_failure_code session_missing = permanent
classify_failure_code session_not_ready = retryable
classify_failure_code recipient_not_on_whatsapp = permanent
classify_failure_code recipient_check_failed = retryable
classify_failure_code provider_acknowledgement_error = permanent
classify_failure_code provider_outcome_unknown = retryable
classify_failure_code unknown_outcome_fail_closed = permanent
classify_failure_code maximum_attempts_exhausted = permanent
classify_failure_code delivery_window_expired = permanent
classify_failure_code connection_unavailable = permanent
classify_failure_code connection_paused = retryable
classify_failure_code connection_restricted = permanent
classify_failure_code new_chat_quota_exceeded = permanent

-- The text of a failure, which people read, is left out.
pub record ProviderFailure : Type 0 where
  pub code : ProviderFailureCode
  pub classification : FailureClassification
  pub retry_after_seconds : Option ℕ
  pub provider_status_code : Option ℕ

abbrev pub is_retryable_classification : FailureClassification → Bool
is_retryable_classification retryable = true
is_retryable_classification permanent = false

unfoldable pub is_retryable : ProviderFailure → Bool
is_retryable failure = is_retryable_classification failure.classification

-- `unknownOutcomeCodes`
abbrev pub is_unknown_outcome_code : ProviderFailureCode → Bool
is_unknown_outcome_code c =
    c is provider_connection_lost
    || (c is provider_timeout
        || (c is provider_aborted
            || (c is provider_outcome_unknown || c is provider_response_unreadable)))

unfoldable pub has_unknown_outcome : ProviderFailure → Bool
has_unknown_outcome failure = is_unknown_outcome_code failure.code

unfoldable pub create_provider_failure_with :
    ProviderFailureCode → (retry_after_seconds provider_status_code : Option ℕ) → ProviderFailure
unfolding classify_failure_code
create_provider_failure_with code retry_after status = record {
  code = code;
  classification = classify_failure_code code;
  retry_after_seconds = retry_after;
  provider_status_code = status;
}

-- Without details.
unfoldable pub create_provider_failure : ProviderFailureCode → ProviderFailure
unfolding create_provider_failure_with
create_provider_failure code = create_provider_failure_with code none none
