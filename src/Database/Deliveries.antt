-- ===== src/Database/Deliveries.antt =====
-- packages/database/src/repositories/webhook-delivery.repository.ts: the inbox of callbacks.
pub mod Laws
use whatsapp_notification_pl.Prelude.{
  ℕ, ◌+◌, Bool, not, ◌&&◌, Option, none, some, [], ◌∷◌, ◌++◌, ◌==◌, if◌then◌else◌, is_some,
  map_option, find?, any, update_where, Text, text_eq,
}
use whatsapp_notification_pl.Database.Records.{WebhookOutcome, WebhookDelivery, Database}

abbrev pub is_same_callback : (session_id : ℕ) → Text → WebhookDelivery → Bool
is_same_callback session_id provider_event_id row =
    row.whatsapp_session_id == session_id && text_eq row.provider_event_id provider_event_id

-- A callback that was seen before is not written again; the result is the row if it was.
unfoldable pub record_delivery : WebhookDelivery → Database → Database × Option WebhookDelivery
record_delivery delivery db =
    if any (is_same_callback delivery.whatsapp_session_id delivery.provider_event_id) db.deliveries
    then (db, none)
    else (record db { deliveries = db.deliveries ++ delivery ∷ [] }, some delivery)

unfoldable pub claim_for_processing :
    (delivery_id : ℕ) → Database → Database × Option WebhookDelivery
claim_for_processing delivery_id db =
    let is_open : WebhookDelivery → Bool =
      λ row. row.id == delivery_id && not (is_some row.processed_at) in
    let count : WebhookDelivery → WebhookDelivery =
      λ row. record row { processing_attempts = row.processing_attempts + 1 } in
    (
      record db { deliveries = update_where is_open count db.deliveries },
      map_option count (find? is_open db.deliveries),
    )

unfoldable pub mark_processed : (delivery_id : ℕ) → WebhookOutcome → (now : ℕ) → Database → Database
mark_processed delivery_id outcome now db = record db {
  deliveries =
      update_where (λ row. row.id == delivery_id)
        (λ row. record row { processed_at = some now; outcome = some outcome }) db.deliveries;
}
