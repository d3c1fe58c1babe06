-- ===== src/Services/Ingestion.antt =====
-- packages/composition/src/webhook/ingest-webhook.service.ts: a callback of the provider is
-- authenticated and filed, and its processing queued, without acting on it. Decryption, the HMAC,
-- and parsing are arguments; parsing gives the event's identifier and what processing will make of
-- what is stored of it.
pub mod Laws
use whatsapp_notification_pl.Prelude.{
  ℕ, not, Option, none, some, List, [], ◌∷◌, ◌++◌, if◌then◌else◌, Text,
}
use whatsapp_notification_pl.Database.Records.{
  WhatsAppSession, ProviderEvent, WebhookDelivery, Database,
}
use whatsapp_notification_pl.Database.Sessions.{find_by_id_without_tenant_scope}
use whatsapp_notification_pl.Database.Deliveries.{record_delivery}
use whatsapp_notification_pl.Provider.Callback.{
  Reading, is_webhook_signature_valid, is_webhook_timestamp_acceptable,
}

pub record IngestWebhookInput : Type 0 where
  pub whatsapp_session_id : ℕ
  pub raw_body : Text
  pub signature : Option Text
  pub timestamp_header : Option Text
  pub correlation_id : ℕ

pub data WebhookIngestionOutcome : Type 0 where
  accepted duplicate rejected malformed : WebhookIngestionOutcome

-- Only the logs tell them apart.
pub data RejectionReason : Type 0 where
  unknown_session missing_signature unreadable_signing_key invalid_signature stale_timestamp :
      RejectionReason

pub record IngestWebhookResult : Type 0 where
  pub outcome : WebhookIngestionOutcome
  pub reason : Option RejectionReason

pub record WebhookEnvelope : Type 0 where
  pub id : Text
  pub event : ProviderEvent

pub record IngestionPorts : Type 0 where
  -- the session's key, where its ciphertext can be decrypted
  pub read_signing_key : (session_id : ℕ) → Option Text
  pub hmac : (signing_key raw_body : Text) → Text
  pub number : Text → Reading
  pub parse_webhook_envelope : (raw_body : Text) → Option WebhookEnvelope
  pub webhook_tolerance_seconds : ℕ

-- A job of the queue `webhookProcess`.
pub record WebhookJob : Type 0 where
  pub correlation_id : ℕ
  pub webhook_delivery_id : ℕ

-- The database, and that queue, which lives in it.
pub record Inbox : Type 0 where
  pub database : Database
  pub webhook_jobs : List WebhookJob

abbrev pub reject : RejectionReason → Inbox → Inbox × IngestWebhookResult
reject reason inbox = (inbox, record { outcome = rejected; reason = some reason })

abbrev pub delivery_of :
    (delivery_id : ℕ) → WhatsAppSession → WebhookEnvelope → (now : ℕ) → WebhookDelivery
delivery_of delivery_id session envelope now = record {
  id = delivery_id;
  application_id = session.application_id;
  whatsapp_session_id = session.id;
  provider_event_id = envelope.id;
  event = envelope.event;
  received_at = now;
  processed_at = none;
  processing_attempts = 0;
  outcome = none;
}

abbrev pub enqueue_recorded :
    (correlation_id : ℕ)
    → Database × Option WebhookDelivery
    → List WebhookJob
    → Inbox × IngestWebhookResult
enqueue_recorded correlation_id (db, none) jobs =
    (record { database = db; webhook_jobs = jobs }, record { outcome = duplicate; reason = none })
enqueue_recorded correlation_id (db, some delivery) jobs = (
  record {
    database = db;
    webhook_jobs =
        jobs ++ record { correlation_id = correlation_id; webhook_delivery_id = delivery.id } ∷ [];
  },
  record { outcome = accepted; reason = none },
)

-- The transaction: the delivery and its job, or neither.
unfoldable pub record_and_enqueue :
    (correlation_id : ℕ) → WebhookDelivery → Inbox → Inbox × IngestWebhookResult
record_and_enqueue correlation_id delivery inbox =
    enqueue_recorded correlation_id (record_delivery delivery inbox.database) inbox.webhook_jobs

abbrev pub file_envelope :
    (correlation_id delivery_id : ℕ)
    → WhatsAppSession
    → Option WebhookEnvelope
    → (now : ℕ) → Inbox
    → Inbox × IngestWebhookResult
file_envelope correlation_id delivery_id session none now inbox =
    (inbox, record { outcome = malformed; reason = none })
file_envelope correlation_id delivery_id session (some envelope) now inbox =
    record_and_enqueue correlation_id (delivery_of delivery_id session envelope now) inbox

module _ (ports : IngestionPorts) (input : IngestWebhookInput) (delivery_id now : ℕ) where
  unfoldable pub ingest_authentic : WhatsAppSession → Inbox → Inbox × IngestWebhookResult
  ingest_authentic session inbox =
      if not (
        is_webhook_timestamp_acceptable ports.number input.timestamp_header now
          ports.webhook_tolerance_seconds)
      then reject stale_timestamp inbox
      else file_envelope input.correlation_id delivery_id session
          (ports.parse_webhook_envelope input.raw_body) now inbox

  abbrev pub ingest_signed :
      WhatsAppSession
      → (signing_key : Option Text) → (signature : Text) → Inbox
      → Inbox × IngestWebhookResult
  ingest_signed session none signature inbox = reject unreadable_signing_key inbox
  ingest_signed session (some signing_key) signature inbox =
      if not (is_webhook_signature_valid ports.hmac input.raw_body signature signing_key)
      then reject invalid_signature inbox
      else ingest_authentic session inbox

  abbrev pub ingest_for :
      WhatsAppSession → (signature : Option Text) → Inbox → Inbox × IngestWebhookResult
  ingest_for session none inbox = reject missing_signature inbox
  ingest_for session (some []) inbox = reject missing_signature inbox
  ingest_for session (some (c ∷ rest)) inbox =
      ingest_signed session (ports.read_signing_key session.id) (c ∷ rest) inbox

  unfoldable pub ingest : Inbox → Inbox × IngestWebhookResult
  ingest inbox = elim (find_by_id_without_tenant_scope input.whatsapp_session_id inbox.database) [
    | none ↦ reject unknown_session inbox
    | some session ↦ ingest_for session input.signature inbox
  ]
