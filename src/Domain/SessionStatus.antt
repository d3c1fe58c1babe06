-- ===== src/Domain/SessionStatus.antt =====
-- packages/domain/src/provider/whatsapp-provider.port.ts: the states of a WhatsApp session.
use whatsapp_notification_pl.Prelude.{ℕ, Bool, ◌||◌, ◌==◌}

pub data ProviderSessionStatus : Type 0 where
  stopped starting scan_qr_code working failed unknown : ProviderSessionStatus

abbrev pub rank : ProviderSessionStatus → ℕ
rank stopped = 0
rank starting = 1
rank scan_qr_code = 2
rank working = 3
rank failed = 4
rank unknown = 5

infix 50 ◌is◌
abbrev pub ◌is◌ : ProviderSessionStatus → ProviderSessionStatus → Bool
s is t = rank s == rank t

unfoldable pub can_session_send : ProviderSessionStatus → Bool
can_session_send status = status is working

unfoldable pub is_session_connecting : ProviderSessionStatus → Bool
is_session_connecting status = status is starting || status is scan_qr_code
