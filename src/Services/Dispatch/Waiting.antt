-- ===== src/Services/Dispatch/Waiting.antt =====
-- dispatch-notification.service.ts: `deferQuietly`, `waitForConnection` and `waitForPause`.
use whatsapp_notification_pl.Prelude.{
  ℕ, ◌+◌, ◌-◌, ◌*◌, ◌/◌, Bool, false, Option, none, some, ltb, if◌then◌else◌,
}
use whatsapp_notification_pl.Database.Records.{Notification, Database}
use whatsapp_notification_pl.Database.Notifications
use whatsapp_notification_pl.Database.Notifications.{Changes, no_changes}
use whatsapp_notification_pl.Domain.Status.{processing, retrying}
use whatsapp_notification_pl.Domain.Failure.{
  ◌is◌ as ◌is_code◌, ProviderFailureCode, session_not_ready, connection_unavailable,
  connection_paused, connection_restricted, create_provider_failure,
}
use whatsapp_notification_pl.Domain.RetryPolicy.{session_not_ready_minimum_delay_seconds}
use whatsapp_notification_pl.Configuration.{Configuration}
use whatsapp_notification_pl.Program.{Prog, done, ◌>>=◌, ◌>>◌, now, integer_between, write}
use whatsapp_notification_pl.Services.Dispatch.{
  pause_resumption_spread_seconds, DispatchInput, deferred, Detail, because_of, DispatchResult,
  result_of, dispatch_job, eligible_since, milliseconds_since_due, retry, fail,
}

-- The transaction of `deferQuietly`: the job is queued whether or not the row was moved.
unfoldable pub deferral : Notification → (until now : ℕ) → DispatchInput → Database → Database
deferral notification until t input db =
    Notifications.hand_to_queue
      (dispatch_job input.correlation_id notification.id notification.application_id (some until))
      (Notifications.apply_transition notification.application_id notification.id processing
        retrying
        (record no_changes {
          next_attempt_at = some (some until);
          claim_token = some none;
          claimed_at = some none;
        })
        t db).0

unfoldable pub defer_quietly :
    Notification → (until : ℕ) → DispatchInput → Detail → Prog DispatchResult
defer_quietly notification until input detail = do
  t ← now
  write (deferral notification until t input)
  done (result_of deferred detail)

abbrev pub has_code : Option ProviderFailureCode → ProviderFailureCode → Bool
has_code none code = false
has_code (some c) code = c is_code code

unfoldable pub check_later : Notification → DispatchInput → Prog DispatchResult
check_later notification input = do
  t ← now
  defer_quietly notification (t + session_not_ready_minimum_delay_seconds * 1000) input
      (because_of session_not_ready)

unfoldable pub wait_for_connection :
    Configuration → Notification → DispatchInput → Prog DispatchResult
wait_for_connection config notification input = do
  age ← milliseconds_since_due notification
  if ltb (config.maximum_connection_wait_minutes * 60_000) age
      then fail notification (create_provider_failure connection_unavailable) input none
      else if has_code notification.failure_code session_not_ready
      then check_later notification input
      else retry notification (create_provider_failure session_not_ready) input
          session_not_ready_minimum_delay_seconds none

-- `Math.ceil((later - earlier) / 1000)`, and 0 where `later` lies behind
abbrev pub seconds_until : (later earlier : ℕ) → ℕ
seconds_until later earlier = (later - earlier + 999) / 1000

unfoldable pub note_pause : Notification → (resume_at : ℕ) → DispatchInput → Prog DispatchResult
note_pause notification resume_at input = do
  t ← now
  retry notification (create_provider_failure connection_paused) input (seconds_until resume_at t)
      none

unfoldable pub hold_for_pause :
    Notification → (paused_until : ℕ) → DispatchInput → Prog DispatchResult
hold_for_pause notification paused_until input = do
  spread ← integer_between 0 pause_resumption_spread_seconds
  let resume_at = paused_until + spread * 1000
  if has_code notification.failure_code connection_paused
      then defer_quietly notification resume_at input (because_of connection_paused)
      else note_pause notification resume_at input

unfoldable pub wait_for_pause :
    Configuration → Notification → (paused_until : ℕ) → DispatchInput → Prog DispatchResult
wait_for_pause config notification paused_until input =
    if ltb (eligible_since notification + config.maximum_connection_wait_minutes * 60_000)
      paused_until
    then fail notification (create_provider_failure connection_restricted) input none
    else hold_for_pause notification paused_until input
