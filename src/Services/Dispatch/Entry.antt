-- ===== src/Services/Dispatch/Entry.antt =====
-- dispatch-notification.service.ts: `dispatch`, from the claim to the send.
use whatsapp_notification_pl.Prelude.{ℕ, none, some, if◌then◌else◌}
use whatsapp_notification_pl.Database.Records.{Notification, SendAttempt, WhatsAppSession}
use whatsapp_notification_pl.Database.SendAttempts
use whatsapp_notification_pl.Database.Sessions
use whatsapp_notification_pl.Domain.Failure.{
  session_missing, delivery_window_expired, create_provider_failure,
}
use whatsapp_notification_pl.Domain.AccountLimits.{is_sending_paused}
use whatsapp_notification_pl.Domain.SessionStatus.{can_session_send}
use whatsapp_notification_pl.Configuration.{Configuration}
use whatsapp_notification_pl.Program.{Prog, done, ◌>>=◌, ◌>>◌, now, random_port, atomic, query}
use whatsapp_notification_pl.Services.Connections.{prepare_to_send}
use whatsapp_notification_pl.Services.Dispatch.{
  DispatchInput, deferred, not_claimable, Detail, no_detail, send_pacing, DispatchResult, result_of,
  claimed, unclaimable, not_due, claim, reschedule, has_outlived_delivery_window,
  read_unknown_outcome_policy, fail,
}
use whatsapp_notification_pl.Services.Dispatch.Waiting.{
  defer_quietly, wait_for_connection, wait_for_pause,
}
use whatsapp_notification_pl.Services.Dispatch.Sending.{resolve_unknown_outcome, deliver}

-- An attempt that was begun and never answered comes first.
unfoldable pub settle_unresolved : Notification → SendAttempt → DispatchInput → Prog DispatchResult
settle_unresolved notification unresolved input = do
  policy ← read_unknown_outcome_policy notification.application_id
  resolve_unknown_outcome notification unresolved.attempt_number policy input none

-- The pacing slot, and the send if it was free. The database draws the interval by its own clock.
unfoldable pub send_in_slot :
    Configuration
    → Notification
    → WhatsAppSession
    → (claim_token : ℕ) → DispatchInput
    → Prog DispatchResult
send_in_slot config notification ready claim_token input = do
  t ← now
  database_now ← now
  random ← random_port
  slot ← atomic (Sessions.reserve_send_slot ready.id t database_now random)
  if slot.0
      then deliver config notification ready claim_token input
      else defer_quietly notification slot.1 input send_pacing

unfoldable pub pause_or_send :
    Configuration
    → Notification
    → WhatsAppSession
    → (claim_token paused_until : ℕ) → DispatchInput
    → Prog DispatchResult
pause_or_send config notification ready claim_token paused_until input = do
  t ← now
  if is_sending_paused (some paused_until) t
      then wait_for_pause config notification paused_until input
      else send_in_slot config notification ready claim_token input

unfoldable pub use_session :
    Configuration
    → Notification
    → WhatsAppSession
    → (claim_token : ℕ) → DispatchInput
    → Prog DispatchResult
use_session config notification session claim_token input = do
  ready ← prepare_to_send config session
  elim ready.sending_paused_until [
    | none ↦ send_in_slot config notification ready claim_token input
    | some paused_until ↦ pause_or_send config notification ready claim_token paused_until input
  ]

unfoldable pub find_session :
    Configuration → Notification → (claim_token : ℕ) → DispatchInput → Prog DispatchResult
find_session config notification claim_token input = do
  session ← query (Sessions.find_by_id notification.application_id notification.whatsapp_session_id)
  elim session [
    | none ↦ fail notification (create_provider_failure session_missing) input none
    | some found ↦
        if can_session_send found.status
        then use_session config notification found claim_token input
        else wait_for_connection config notification input
  ]

unfoldable pub attempt_or_settle :
    Configuration → Notification → (claim_token : ℕ) → DispatchInput → Prog DispatchResult
attempt_or_settle config notification claim_token input = do
  unresolved ← query (SendAttempts.find_unresolved notification.application_id notification.id)
  elim unresolved [
    | some attempt ↦ settle_unresolved notification attempt input
    | none ↦ find_session config notification claim_token input
  ]

unfoldable pub proceed :
    Configuration → Notification → (claim_token : ℕ) → DispatchInput → Prog DispatchResult
proceed config notification claim_token input = do
  is_outlived ← has_outlived_delivery_window config notification
  if is_outlived
      then fail notification (create_provider_failure delivery_window_expired) input none
      else attempt_or_settle config notification claim_token input

unfoldable pub put_off : DispatchInput → (due_at : ℕ) → Detail → Prog DispatchResult
put_off input due_at reason = do reschedule input due_at; done (result_of deferred reason)

unfoldable pub dispatch : Configuration → (claim_token : ℕ) → DispatchInput → Prog DispatchResult
dispatch config claim_token input = do
  outcome ← claim input claim_token
  elim outcome [
    | unclaimable ↦ done (result_of not_claimable no_detail)
    | not_due due_at reason ↦ put_off input due_at reason
    | claimed notification ↦ proceed config notification claim_token input
  ]
