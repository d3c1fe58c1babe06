-- ===== src/Provider/Classification/Laws.antt =====
-- What the classification of an answer decides: whether a message is tried again, and whether it may
-- have left.
use whatsapp_notification_pl.Prelude.{
  ℕ, ◌≡◌, refl, Bool, true, false, not, ◌&&◌, ◌||◌, Option, some, arith, ◌==◌, if◌then◌else◌, Text,
  text_includes,
}
use whatsapp_notification_pl.Domain.Failure.{
  provider_aborted, provider_timeout, provider_unreachable, provider_connection_lost,
  create_provider_failure, create_provider_failure_with, classify_failure_code, is_retryable,
  has_unknown_outcome,
}
use whatsapp_notification_pl.Provider.Classification.{
  is_about_session_state, is_reachout_timelock, is_message_capping, code_by_status, read_code,
  classify_http_status, TransportError, read_system_error_code, abort_error_names,
  pre_connection_error_codes, includes_code, classify_transport_error,
}

-- The statuses that nothing but an operator or another request can cure.
abbrev is_refused : (status : ℕ) → (about_session : Bool) → Bool
is_refused status about_session =
    status == 401 || (status == 403 || (status == 404 || (status == 422 && not about_session)))

-- An HTTP answer never leaves it open whether the message was sent, carries its status, and is
-- final exactly when WhatsApp refused the message for the reach of the account, or when its status
-- is 401, 403 or 404, or 422 with a message that is not about the state of a session.
pub classify_http_status_lem :
    (number : Text → Option ℕ) (status : ℕ) (message : Text) (retry_after : Option Text)
    → let failure = classify_http_status number status message retry_after in
      (has_unknown_outcome failure ≡ false)
      × (failure.provider_status_code ≡ some status)
      × (is_retryable failure
          ≡ not (
              is_reachout_timelock message
              || (is_message_capping message
                  || is_refused status (is_about_session_state message))))
unfolding classify_http_status read_code code_by_status create_provider_failure_with
    classify_failure_code is_retryable has_unknown_outcome
classify_http_status_lem number status message retry_after = ground arith

-- A transport error is always tried again; it is certain that the message has not left exactly when
-- the request was not aborted, did not time out, and failed before the connection was made.
pub classify_transport_error_lem :
    (thrown : TransportError) (was_aborted : Bool)
    → let failure = classify_transport_error thrown was_aborted in
      (is_retryable failure ≡ true)
      × (has_unknown_outcome failure ≡ (
          was_aborted
          || (text_includes abort_error_names thrown.name
              || not (includes_code pre_connection_error_codes (read_system_error_code thrown)))))
unfolding classify_transport_error create_provider_failure create_provider_failure_with
    classify_failure_code is_retryable has_unknown_outcome
classify_transport_error_lem thrown was_aborted =
    go was_aborted (text_includes abort_error_names thrown.name)
      (includes_code pre_connection_error_codes (read_system_error_code thrown))
  where
    go :
        (a b c : Bool)
        → let failure =
            if a
            then create_provider_failure provider_aborted
            else if b
            then create_provider_failure provider_timeout
            else if c
            then create_provider_failure provider_unreachable
            else create_provider_failure provider_connection_lost in
          (is_retryable failure ≡ true) × (has_unknown_outcome failure ≡ (a || (b || not c)))
    go true b c = (refl, refl)
    go false true c = (refl, refl)
    go false false true = (refl, refl)
    go false false false = (refl, refl)
