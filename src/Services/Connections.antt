-- ===== src/Services/Connections.antt =====
-- packages/composition/src/whatsapp/connection-limits.service.ts and connection-state.service.ts:
-- what the platform knows about a connection beyond its own records. Logging is left out.
use whatsapp_notification_pl.Prelude.{
  ℕ, ◌-◌, ◌*◌, Bool, false, Option, none, some, ltb, if◌then◌else◌, get_or, is_some,
}
use whatsapp_notification_pl.Database.Records.{forgotten_by_provider, WhatsAppSession}
use whatsapp_notification_pl.Database.Sessions
use whatsapp_notification_pl.Domain.Failure.{
  ◌is◌ as ◌is_code◌, ProviderFailureCode, connection_restricted,
}
use whatsapp_notification_pl.Domain.AccountLimits.{
  AccountLimits, resolve_sending_pause, timelock_of, active_timelock,
}
use whatsapp_notification_pl.Domain.SessionStatus.{◌is◌ as ◌is_session◌, stopped}
use whatsapp_notification_pl.Configuration.{Configuration}
use whatsapp_notification_pl.Program.{
  Prog, done, ProviderResult, ProviderSession, ◌>>=◌, ◌>>◌, now, atomic, write, query,
  provider_session, fetch_account_limits,
}

-- `ConnectionLimitsService.record`
unfoldable pub record_limits :
    Configuration
    → WhatsAppSession
    → Option AccountLimits
    → (restriction_observed : Bool) → Prog (Unit {0})
record_limits config session limits restriction_observed = do
  t ← now
  let pause = resolve_sending_pause (record {
    limits = limits;
    restriction_observed = restriction_observed;
    current_paused_until = session.sending_paused_until;
    now = t;
    fallback_pause_milliseconds = config.restriction_fallback_pause_hours * 3_600_000;
  })
  write (Sessions.record_account_limits session.id limits pause t)

unfoldable pub doubt_reported_limits : (session_id : ℕ) → Prog (Unit {0})
doubt_reported_limits session_id = write (Sessions.invalidate_account_limits session_id)

unfoldable pub reread : WhatsAppSession → Prog WhatsAppSession
reread session =
    query (λ db. get_or (Sessions.find_by_id session.application_id session.id db) session)

abbrev pub reported_limits : ProviderResult (Option ProviderSession) → Option AccountLimits
reported_limits (ProviderResult.failed f) = none
reported_limits (ProviderResult.succeeded none) = none
reported_limits (ProviderResult.succeeded (some live)) = live.account_limits

unfoldable pub read_reported_limits : WhatsAppSession → Prog (Option AccountLimits)
read_reported_limits session = do
  live ← provider_session session.provider_session_name
  done (reported_limits live)

unfoldable pub fetch_limits : WhatsAppSession → Prog (Option AccountLimits)
fetch_limits session = do
  fresh ← fetch_account_limits session.provider_session_name
  elim fresh [
    | ProviderResult.succeeded limits ↦ done (some limits)
    | ProviderResult.failed f ↦ read_reported_limits session
  ]

-- `if (limits !== null) …`
unfoldable pub record_report :
    Configuration → WhatsAppSession → Option AccountLimits → Prog (Unit {0})
record_report config session none = done tt
record_report config session (some limits) = record_limits config session (some limits) false

-- The statement that files a report without touching the pause.
unfoldable pub file_report : WhatsAppSession → Option AccountLimits → Prog (Unit {0})
file_report session none = done tt
file_report session (some limits) = do
  t ← now
  write (Sessions.record_account_limits session.id (some limits) none t)

-- The timelock still holds: a fresh pause, which the expired one is not measured against.
unfoldable pub renew_pause :
    Configuration → WhatsAppSession → Option AccountLimits → Prog WhatsAppSession
renew_pause config session limits = do
  record_limits config (record session { sending_paused_until = none }) limits false
  reread session

unfoldable pub end_pause : WhatsAppSession → ℕ → Option AccountLimits → Prog WhatsAppSession
end_pause session paused_until limits = do
  write (Sessions.end_sending_pause session.id paused_until)
  file_report session limits
  reread session

unfoldable pub settle_over : Configuration → WhatsAppSession → ℕ → Prog WhatsAppSession
settle_over config session paused_until = do
  limits ← fetch_limits session
  if active_timelock (timelock_of limits)
      then renew_pause config session limits
      else end_pause session paused_until limits

unfoldable pub settle_expired_pause : Configuration → WhatsAppSession → Prog WhatsAppSession
settle_expired_pause config session = elim session.sending_paused_until [
  | none ↦ done session
  | some paused_until ↦ do
    t ← now
    if ltb t paused_until then done session else settle_over config session paused_until
]

abbrev pub account_limits_maximum_age_milliseconds : ℕ
account_limits_maximum_age_milliseconds = 10 * 60_000

-- A session that the provider has forgotten counts as stopped.
unfoldable pub note_forgotten : WhatsAppSession → ℕ → Prog (Unit {0})
note_forgotten session t =
    if session.status is_session stopped
    then done tt
    else write (
        Sessions.record_status session.id stopped session.phone_number session.push_name
          (some forgotten_by_provider) t)

unfoldable pub refresh_status : Configuration → WhatsAppSession → Prog WhatsAppSession
refresh_status config session = do
  live ← provider_session session.provider_session_name
  elim live [
    | ProviderResult.failed f ↦ done session
    | ProviderResult.succeeded none ↦ do t ← now; note_forgotten session t; reread session
    | ProviderResult.succeeded (some found) ↦ do
      t ← now
      write
          (Sessions.record_status session.id found.status found.phone_number found.push_name none t)
      record_report config session found.account_limits
      reread session
  ]

-- The part of `prepareToSend` that runs when the refresh is this worker's.
unfoldable pub refresh_limits : Configuration → WhatsAppSession → Prog WhatsAppSession
refresh_limits config settled = do
  limits ←
      (if is_some settled.account_limits_checked_at
        then read_reported_limits settled
        else fetch_limits settled)
  record_report config settled limits
  reread settled

unfoldable pub prepare_to_send : Configuration → WhatsAppSession → Prog WhatsAppSession
prepare_to_send config session = do
  settled ← settle_expired_pause config session
  t ← now
  is_refresh_claimed ← atomic (
      Sessions.claim_account_limits_refresh settled.id t
        (t - account_limits_maximum_age_milliseconds))
  if is_refresh_claimed then refresh_limits config settled else done settled

-- `refusal` is one of WhatsApp's two refusals for reaching out.
unfoldable pub record_refusal :
    Configuration → WhatsAppSession → ProviderFailureCode → Prog (Unit {0})
record_refusal config session refusal = do
  limits ← fetch_limits session
  record_limits config session limits (refusal is_code connection_restricted)
