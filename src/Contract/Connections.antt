-- ===== src/Contract/Connections.antt =====
-- The steps of the connection services.
use whatsapp_notification_pl.Prelude.{ℕ, Bool, false, Option, none, some, ltb, if◌then◌else◌}
use whatsapp_notification_pl.Database.Records.{WhatsAppSession, Database}
use whatsapp_notification_pl.Database.Sessions
use whatsapp_notification_pl.Domain.Failure.{ProviderFailureCode}
use whatsapp_notification_pl.Domain.AccountLimits.{AccountLimits}
use whatsapp_notification_pl.Configuration.{Configuration}
use whatsapp_notification_pl.Program.{done, ProviderResult, SendTextMessageInput, ◌>>=◌, now}
use whatsapp_notification_pl.Program.Logic.{
  Every, >>=-Every, provider_session-Every, fetch_account_limits-Every, steps,
}
use whatsapp_notification_pl.Services.Connections.{
  record_limits, doubt_reported_limits, reread, read_reported_limits, fetch_limits, record_report,
  file_report, renew_pause, end_pause, settle_over, settle_expired_pause, note_forgotten,
  refresh_status, refresh_limits, prepare_to_send, record_refusal,
}
use whatsapp_notification_pl.Contract.{Admits}

module _ {Φ : Database → Database → Type 0} (S : SendTextMessageInput → Type 0) (C : Admits Φ) where
  pub record_limits-Every :
      (config : Configuration) (s : WhatsAppSession) (limits : Option AccountLimits) (b : Bool)
      → Every Φ S (record_limits config s limits b)
  unfolding record_limits Sessions.record_account_limits
  record_limits-Every config s limits b = search (steps, C.sessions)

  pub doubt_reported_limits-Every : (id : ℕ) → Every Φ S (doubt_reported_limits id)
  unfolding doubt_reported_limits Sessions.invalidate_account_limits
  doubt_reported_limits-Every id = search (steps, C.sessions)

  pub reread-Every : (s : WhatsAppSession) → Every Φ S (reread s)
  unfolding reread
  reread-Every s = search (steps, C.stays)

  pub read_reported_limits-Every : (s : WhatsAppSession) → Every Φ S (read_reported_limits s)
  unfolding read_reported_limits
  read_reported_limits-Every s = search steps

  pub fetch_limits-Every : (s : WhatsAppSession) → Every Φ S (fetch_limits s)
  unfolding fetch_limits
  fetch_limits-Every s = >>=-Every Φ S _ _ (fetch_account_limits-Every Φ S _) (elim [
    | ProviderResult.succeeded limits ↦ tt
    | ProviderResult.failed f ↦ read_reported_limits-Every s
  ])

  pub record_report-Every :
      (config : Configuration) (s : WhatsAppSession) (limits : Option AccountLimits)
      → Every Φ S (record_report config s limits)
  unfolding record_report
  record_report-Every config s none = tt
  record_report-Every config s (some limits) = record_limits-Every config s (some limits) false

  pub file_report-Every :
      (s : WhatsAppSession) (limits : Option AccountLimits) → Every Φ S (file_report s limits)
  unfolding file_report Sessions.record_account_limits
  file_report-Every s none = tt
  file_report-Every s (some limits) = search (steps, C.sessions)

  renew_pause-Every :
      (config : Configuration) (s : WhatsAppSession) (limits : Option AccountLimits)
      → Every Φ S (renew_pause config s limits)
  unfolding renew_pause
  renew_pause-Every config s limits = search (steps, record_limits-Every, reread-Every)

  end_pause-Every :
      (s : WhatsAppSession) (t : ℕ) (limits : Option AccountLimits)
      → Every Φ S (end_pause s t limits)
  unfolding end_pause Sessions.end_sending_pause
  end_pause-Every s t limits = search (steps, file_report-Every, reread-Every, C.sessions)

  settle_over-Every :
      (config : Configuration) (s : WhatsAppSession) (t : ℕ) → Every Φ S (settle_over config s t)
  unfolding settle_over
  settle_over-Every config s t =
      search (steps, fetch_limits-Every, renew_pause-Every, end_pause-Every)

  settle_expired_pause-Every :
      (config : Configuration) (s : WhatsAppSession) → Every Φ S (settle_expired_pause config s)
  unfolding settle_expired_pause
  settle_expired_pause-Every config s = go s.sending_paused_until
    where
      go :
          (o : Option ℕ)
          → Every Φ S (elim o [
            | none ↦ done s
            | some paused_until ↦ do
              t ← now
              if ltb t paused_until then done s else settle_over config s paused_until
          ])
      go none = tt
      go (some t) = search (steps, settle_over-Every)

  note_forgotten-Every : (s : WhatsAppSession) (t : ℕ) → Every Φ S (note_forgotten s t)
  unfolding note_forgotten Sessions.record_status
  note_forgotten-Every s t = search (steps, C.sessions)

  pub refresh_status-Every :
      (config : Configuration) (s : WhatsAppSession) → Every Φ S (refresh_status config s)
  unfolding refresh_status Sessions.record_status
  refresh_status-Every config s = >>=-Every Φ S _ _ (provider_session-Every Φ S _) (elim [
    | ProviderResult.failed f ↦ tt
    | ProviderResult.succeeded none ↦ search (steps, note_forgotten-Every, reread-Every)
    | ProviderResult.succeeded (some found) ↦
        search (steps, record_report-Every, reread-Every, C.sessions)
  ])

  refresh_limits-Every :
      (config : Configuration) (s : WhatsAppSession) → Every Φ S (refresh_limits config s)
  unfolding refresh_limits
  refresh_limits-Every config s =
      search
        (steps, read_reported_limits-Every, fetch_limits-Every, record_report-Every, reread-Every)

  pub prepare_to_send-Every :
      (config : Configuration) (s : WhatsAppSession) → Every Φ S (prepare_to_send config s)
  unfolding prepare_to_send Sessions.claim_account_limits_refresh
  prepare_to_send-Every config s =
      search (steps, settle_expired_pause-Every, refresh_limits-Every, C.sessions)

  pub record_refusal-Every :
      (config : Configuration) (s : WhatsAppSession) (code : ProviderFailureCode)
      → Every Φ S (record_refusal config s code)
  unfolding record_refusal
  record_refusal-Every config s code = search (steps, fetch_limits-Every, record_limits-Every)
