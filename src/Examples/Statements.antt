-- ===== src/Examples/Statements.antt =====
-- The theorems on the statements of the database at concrete inputs.
use whatsapp_notification_pl.Prelude.{max, ℕ, false, arith, ◌≡◌, refl, none, some, [], ◌∷◌, get_or}
use whatsapp_notification_pl.Database.Records.{
  WhatsAppSession, WebhookDelivery, ProviderEvent, Database,
}
use whatsapp_notification_pl.Domain.AccountLimits.{SendingPause, reachout_timelock}
use whatsapp_notification_pl.Database.Deliveries.{record_delivery}
use whatsapp_notification_pl.Database.Deliveries.Laws.{record_delivery-repeated}
use whatsapp_notification_pl.Database.Sessions.{
  find_by_id_without_tenant_scope, record_account_limits,
}
use whatsapp_notification_pl.Database.Sessions.{reserve_send_slot}
use whatsapp_notification_pl.Database.Sessions.Pacing.{reserve_send_slot-spacing}
use whatsapp_notification_pl.Database.Sessions.Laws.{record_account_limits-longer}
use whatsapp_notification_pl.Examples.{notification, session, database_with}

abbrev delivery : WebhookDelivery
delivery = record {
  id = 9;
  application_id = 7;
  whatsapp_session_id = 3;
  provider_event_id = b'e' ∷ b'1' ∷ [];
  event = ProviderEvent.unsupported;
  received_at = 800;
  processed_at = none;
  processing_attempts = 0;
  outcome = none;
}

abbrev repetition : WebhookDelivery
repetition = record delivery { id = 10; received_at = 900 }

record_delivery-repeated_example :
    record_delivery repetition (record_delivery delivery (database_with notification)).0
    ≡ ((record_delivery delivery (database_with notification)).0, none)
record_delivery-repeated_example =
    record_delivery-repeated delivery repetition (database_with notification) refl refl

abbrev database_with_delivery : Database
database_with_delivery = record (database_with notification) { deliveries = delivery ∷ [] }

abbrev shorter : SendingPause
shorter = record { paused_until = 350; reason = reachout_timelock }

record_account_limits-longer_example :
    (r' : WhatsAppSession) × (find_by_id_without_tenant_scope 3
        (record_account_limits 3 none (some shorter) 300 (database_with notification))
      ≡ some r')
    × (some shorter ≡ none → r'.sending_paused_until ≡ session.sending_paused_until)
    × ((p : SendingPause)
        → some shorter ≡ some p
        → r'.sending_paused_until
          ≡ some (max (get_or session.sending_paused_until 0) p.paused_until))
unfolding find_by_id_without_tenant_scope
record_account_limits-longer_example =
    record_account_limits-longer 3 none (some shorter) 300 (database_with notification) session refl

abbrev lowest_draw : ℕ → ℕ → ℕ
lowest_draw lo hi = lo

reserve_send_slot-spacing_example :
    (reserve_send_slot 3 3900 3950 lowest_draw
      (reserve_send_slot 3 1000 1010 lowest_draw (database_with notification)).0).1.0
    ≡ false
unfolding find_by_id_without_tenant_scope reserve_send_slot
reserve_send_slot-spacing_example =
    reserve_send_slot-spacing 3 1000 1010 3900 3950 lowest_draw lowest_draw
      (database_with notification) session refl refl refl (omega arith)
