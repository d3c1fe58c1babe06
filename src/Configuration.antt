-- ===== src/Configuration.antt =====
-- The settings that the services read, of packages/configuration/src/application-configuration.ts.
use whatsapp_notification_pl.Prelude.{ℕ, Bool}

pub record Configuration : Type 0 where
  pub maximum_lifetime_hours : ℕ
  pub maximum_connection_wait_minutes : ℕ
  pub stuck_claim_timeout_seconds : ℕ
  pub restriction_fallback_pause_hours : ℕ
  pub simulate_typing : Bool
