-- ===== src/Services/Dispatch/Sending.antt =====
-- dispatch-notification.service.ts: the attempt, the send and what follows from its answer, and
-- `dispatch` itself.
use whatsapp_notification_pl.Prelude.{
  ℕ, Bool, true, false, not, ◌||◌, Option, none, some, ltb, leb, if◌then◌else◌, get_or, length,
  Text,
}
use whatsapp_notification_pl.Database.Records.{
  Notification, EventType, Payload, SendAttemptOutcome, WhatsAppSession, UnknownOutcomePolicy,
  retry_policy, fail_closed, Database,
}
use whatsapp_notification_pl.Database.Notifications
use whatsapp_notification_pl.Database.Notifications.{Changes, no_changes}
use whatsapp_notification_pl.Database.SendAttempts
use whatsapp_notification_pl.Domain.Status.{processing, sent}
use whatsapp_notification_pl.Domain.Failure.{
  ◌is◌ as ◌is_code◌, ProviderFailureCode, session_not_ready, recipient_not_on_whatsapp,
  provider_outcome_unknown, unknown_outcome_fail_closed, maximum_attempts_exhausted,
  connection_restricted, new_chat_quota_exceeded, ProviderFailure, is_retryable,
  has_unknown_outcome, create_provider_failure,
}
use whatsapp_notification_pl.Domain.RetryPolicy.{session_not_ready_minimum_delay_seconds}
use whatsapp_notification_pl.Domain.TypingDuration.{compute_typing_milliseconds}
use whatsapp_notification_pl.Configuration.{Configuration}
use whatsapp_notification_pl.Program.{
  Prog, done, ProviderResult, ResolvedRecipient, ◌>>=◌, ◌>>◌, now, random_port, is_aborted, atomic,
  write, send_text_message, resolve_recipient, show_typing,
}
use whatsapp_notification_pl.Services.Connections.{refresh_status, record_refusal}
use whatsapp_notification_pl.Services.Dispatch.{
  is_session_lost_by_provider, DispatchInput, was_sent, not_claimable, no_detail, worker_stopping,
  DispatchResult, result_of, read_unknown_outcome_policy, retry, fail,
}
use whatsapp_notification_pl.Services.Dispatch.Waiting.{defer_quietly, wait_for_connection}

-- `resolveAttempt`, in a statement of its own.
unfoldable pub resolve_attempt :
    Notification
    → (attempt_number : ℕ) → SendAttemptOutcome
    → Option ProviderFailureCode
    → Prog (Unit {0})
resolve_attempt notification attempt_number outcome code = do
  t ← now
  write (
      SendAttempts.resolve notification.application_id notification.id attempt_number outcome none
        code t)

abbrev pub is_fail_closed : UnknownOutcomePolicy → Bool
is_fail_closed retry_policy = false
is_fail_closed fail_closed = true

-- `failure` is what the provider answered, if it answered.
unfoldable pub resolve_unknown_outcome :
    Notification
    → (attempt_number : ℕ) → UnknownOutcomePolicy
    → DispatchInput
    → (failure : Option ProviderFailure) → Prog DispatchResult
resolve_unknown_outcome notification attempt_number policy input failure = do
  let cause = get_or failure (create_provider_failure provider_outcome_unknown)
  resolve_attempt notification attempt_number SendAttemptOutcome.unknown (some cause.code)
  if is_fail_closed policy
      then fail notification (create_provider_failure unknown_outcome_fail_closed) input
          (some attempt_number)
      else if leb notification.maximum_attempts attempt_number
      then fail notification (create_provider_failure maximum_attempts_exhausted) input
          (some attempt_number)
      else retry notification (create_provider_failure provider_outcome_unknown) input 0
          (some attempt_number)

unfoldable pub note_refusal :
    Configuration → WhatsAppSession → ProviderFailureCode → Prog (Unit {0})
note_refusal config session code =
    if code is_code connection_restricted || code is_code new_chat_quota_exceeded
    then record_refusal config session code
    else done tt

unfoldable pub await_lost_session :
    Configuration → Notification → WhatsAppSession → DispatchInput → Prog DispatchResult
await_lost_session config notification session input = do
  refreshed ← refresh_status config session
  wait_for_connection config notification input

unfoldable pub retry_when_connected :
    Configuration
    → Notification
    → WhatsAppSession
    → (attempt_number : ℕ) → ProviderFailure
    → DispatchInput
    → Prog DispatchResult
retry_when_connected config notification session attempt_number failure input = do
  refreshed ← refresh_status config session
  retry notification failure input session_not_ready_minimum_delay_seconds (some attempt_number)

-- `handleSendFailure` for a failure after which the message certainly was not sent.
unfoldable pub handle_certain_failure :
    Configuration
    → Notification
    → WhatsAppSession
    → (attempt_number : ℕ) → ProviderFailure
    → DispatchInput
    → Prog DispatchResult
handle_certain_failure config notification session attempt_number failure input = do
  resolve_attempt notification attempt_number SendAttemptOutcome.failed (some failure.code)
  note_refusal config session failure.code
  if is_session_lost_by_provider failure
      then await_lost_session config notification session input
      else if not (is_retryable failure)
      then fail notification failure input (some attempt_number)
      else if leb notification.maximum_attempts attempt_number
      then fail notification (create_provider_failure maximum_attempts_exhausted) input
          (some attempt_number)
      else if failure.code is_code session_not_ready
      then retry_when_connected config notification session attempt_number failure input
      else retry notification failure input 0 (some attempt_number)

-- `handleSendFailure` for a failure that leaves the outcome open.
unfoldable pub handle_open_outcome :
    Notification → (attempt_number : ℕ) → ProviderFailure → DispatchInput → Prog DispatchResult
handle_open_outcome notification attempt_number failure input = do
  policy ← read_unknown_outcome_policy notification.application_id
  resolve_unknown_outcome notification attempt_number policy input (some failure)

unfoldable pub handle_send_failure :
    Configuration
    → Notification
    → WhatsAppSession
    → (attempt_number : ℕ) → ProviderFailure
    → DispatchInput
    → Prog DispatchResult
handle_send_failure config notification session attempt_number failure input =
    if has_unknown_outcome failure
    then handle_open_outcome notification attempt_number failure input
    else handle_certain_failure config notification session attempt_number failure input

pub data Resolution : Type 0 where
  chat : Text → Resolution
  settled : DispatchResult → Resolution

abbrev pub settle : Prog DispatchResult → Prog Resolution
settle p = do r ← p; done (settled r)

unfoldable pub handle_unresolved :
    Configuration
    → Notification
    → WhatsAppSession
    → DispatchInput
    → ProviderFailure
    → Prog DispatchResult
handle_unresolved config notification session input failure =
    if is_session_lost_by_provider failure
    then await_lost_session config notification session input
    else if not (is_retryable failure)
    then fail notification failure input none
    else retry notification failure input session_not_ready_minimum_delay_seconds none

abbrev pub chat_of : ResolvedRecipient → Option Text
chat_of found = if not found.is_registered then none else found.chat_identifier

unfoldable pub look_up_recipient :
    Configuration → Notification → WhatsAppSession → DispatchInput → Prog Resolution
look_up_recipient config notification session input = do
  resolved ← resolve_recipient session.provider_session_name notification.recipient_phone_number
  elim resolved [
    | ProviderResult.failed failure ↦
        settle (handle_unresolved config notification session input failure)
    | ProviderResult.succeeded found ↦ elim (chat_of found) [
      | none ↦
          settle (fail notification (create_provider_failure recipient_not_on_whatsapp) input none)
      | some identifier ↦ done (chat identifier)
    ]
  ]

-- `resolveRecipient`
unfoldable pub recipient_of :
    Configuration → Notification → WhatsAppSession → DispatchInput → Prog Resolution
recipient_of config notification session input = elim notification.recipient_chat_identifier [
  | some identifier ↦ done (chat identifier)
  | none ↦ look_up_recipient config notification session input
]

unfoldable pub simulate_typing :
    Configuration → Notification → WhatsAppSession → (chat_identifier : Text) → Prog (Unit {0})
simulate_typing config notification session chat_identifier = do
  random ← random_port
  show_typing session.provider_session_name chat_identifier
      (compute_typing_milliseconds random (length notification.rendered_body))

-- The transaction of `beginAttempt`.
unfoldable pub attempt_transaction :
    Notification
    → (claim_token : ℕ) → (chat_identifier : Text) → (now : ℕ) → Database
    → Database × Option ℕ
attempt_transaction notification claim_token chat_identifier t db =
    let (db', taken) =
      Notifications.begin_attempt notification.application_id notification.id claim_token
        chat_identifier t db in
    elim taken [
      | none ↦ (db', none)
      | some n ↦ (SendAttempts.begin notification.application_id notification.id n t db', some n)
    ]

-- The transaction that records a message as sent, and whether it did. `resolved_at` is the clock as
-- it is read for the ledger.
unfoldable pub sent_transaction :
    Notification
    → (attempt_number : ℕ) → (chat_identifier provider_message_id : Text) → (now resolved_at : ℕ)
    → DispatchInput
    → Database
    → Database × Bool
sent_transaction notification attempt_number chat_identifier message_id t resolved_at input db =
    let (db', transitioned) =
      Notifications.apply_transition notification.application_id notification.id processing sent
        (record no_changes {
          provider_message_id = some (some message_id);
          recipient_chat_identifier = some (some chat_identifier);
          sent_at = some (some t);
          claim_token = some none;
          claimed_at = some none;
          next_attempt_at = some none;
        })
        t db in
    elim transitioned [
      | none ↦ (db', false)
      | some row ↦ (
        Notifications.append_event
            (record {
              application_id = notification.application_id;
              notification_id = notification.id;
              event_type = EventType.sent;
              from_status = some processing;
              to_status = some sent;
              attempt_number = some attempt_number;
              payload = Payload.delivery message_id;
              correlation_id = some input.correlation_id;
            })
            (SendAttempts.resolve notification.application_id notification.id attempt_number
              SendAttemptOutcome.succeeded (some message_id) none resolved_at db'),
        true,
      )
    ]

unfoldable pub record_sent :
    Notification
    → (attempt_number : ℕ) → (chat_identifier provider_message_id : Text) → DispatchInput
    → Prog DispatchResult
record_sent notification attempt_number chat_identifier message_id input = do
  t ← now
  resolved_at ← now
  was_recorded ←
      atomic (
        sent_transaction notification attempt_number chat_identifier message_id t resolved_at input)
  done (if was_recorded then result_of was_sent no_detail else result_of not_claimable no_detail)

-- The send itself, for an attempt within the budget.
unfoldable pub send_attempt :
    Configuration
    → Notification
    → WhatsAppSession
    → (chat_identifier : Text) → DispatchInput
    → (attempt_number : ℕ) → Prog DispatchResult
send_attempt config notification session chat_identifier input attempt_number = do
  answer ← send_text_message (record {
    session_name = session.provider_session_name;
    chat_identifier = chat_identifier;
    text = notification.rendered_body;
    notification_id = notification.id;
  })
  elim answer [
    | ProviderResult.failed failure ↦
        handle_send_failure config notification session attempt_number failure input
    | ProviderResult.succeeded message_id ↦
        record_sent notification attempt_number chat_identifier message_id input
  ]

unfoldable pub use_attempt :
    Configuration
    → Notification
    → WhatsAppSession
    → (chat_identifier : Text) → DispatchInput
    → Option ℕ
    → Prog DispatchResult
use_attempt config notification session chat_identifier input none =
    done (result_of not_claimable no_detail)
use_attempt config notification session chat_identifier input (some n) =
    if ltb notification.maximum_attempts n
    then fail notification (create_provider_failure maximum_attempts_exhausted) input (some n)
    else send_attempt config notification session chat_identifier input n

unfoldable pub start_attempt :
    Configuration
    → Notification
    → WhatsAppSession
    → (claim_token : ℕ) → (chat_identifier : Text) → DispatchInput
    → Prog DispatchResult
start_attempt config notification session claim_token chat_identifier input = do
  t ← now
  attempt ← atomic (attempt_transaction notification claim_token chat_identifier t)
  use_attempt config notification session chat_identifier input attempt

unfoldable pub stop_working : Notification → DispatchInput → Prog DispatchResult
stop_working notification input = do t ← now; defer_quietly notification t input worker_stopping

unfoldable pub deliver_to :
    Configuration
    → Notification
    → WhatsAppSession
    → (claim_token : ℕ) → DispatchInput
    → (chat_identifier : Text) → Prog DispatchResult
deliver_to config notification session claim_token input chat_identifier = do
  if config.simulate_typing
      then simulate_typing config notification session chat_identifier
      else done tt
  stop ← is_aborted
  if stop
      then stop_working notification input
      else start_attempt config notification session claim_token chat_identifier input

unfoldable pub deliver :
    Configuration
    → Notification
    → WhatsAppSession
    → (claim_token : ℕ) → DispatchInput
    → Prog DispatchResult
deliver config notification session claim_token input = do
  recipient ← recipient_of config notification session input
  elim recipient [
    | settled r ↦ done r
    | chat identifier ↦ deliver_to config notification session claim_token input identifier
  ]
