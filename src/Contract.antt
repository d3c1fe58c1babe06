-- ===== src/Contract.antt =====
-- What the services may do to the database, transaction by transaction. A relation that admits each
-- of these is kept by every step of every service, whatever runs between the steps.
pub mod Connections
pub mod Waiting
pub mod Sending
pub mod Dispatch
pub mod Others
pub mod Workers
use whatsapp_notification_pl.Prelude.{ℕ, ◌≡◌, true, Option, some, List, Text}
use whatsapp_notification_pl.Database.Records.{
  Notification, Event, SendAttempt, WhatsAppSession, Job, WebhookDelivery, Database,
}
use whatsapp_notification_pl.Database.Notifications
use whatsapp_notification_pl.Database.SendAttempts
use whatsapp_notification_pl.Database.Sessions
use whatsapp_notification_pl.Domain.Status.{
  processing, retrying, is_cancellable_notification_status,
}
use whatsapp_notification_pl.Program.{now}
use whatsapp_notification_pl.Domain.Acknowledgement.{DeliveryAcknowledgement}
use whatsapp_notification_pl.Domain.Status.Laws.{◌⟶◌}
use whatsapp_notification_pl.Services.Dispatch.{DispatchInput, TransitionStep, record_transition}
use whatsapp_notification_pl.Services.Dispatch.Waiting.{deferral}
use whatsapp_notification_pl.Services.Dispatch.Sending.{attempt_transaction, sent_transaction}
use whatsapp_notification_pl.Services.Maintenance.{release_transaction}
use whatsapp_notification_pl.Services.Queries.{cancel_transaction, cancel_waiting_transaction}
use whatsapp_notification_pl.Services.Webhooks.{acknowledgement_transaction}

-- A step of the dispatcher follows an edge of the lifecycle, and a notification that has to wait is
-- given a job for the very time at which it is due.
pub record IsSound (step : TransitionStep) : Type 0 where
  pub legal : processing ⟶ step.next_status
  pub scheduled_job :
      step.next_status ≡ retrying
      → (at : ℕ) × (step.changes.next_attempt_at ≡ some (some at)) × (step.enqueue_at ≡ some at)

pub record Admits (Φ : Database → Database → Type 0) : Type 0 where
  pub stays : (db : Database) → Φ db db
  pub sessions :
      (rows : List WhatsAppSession) (db : Database) → Φ db (record db { sessions = rows })
  pub attempts : (rows : List SendAttempt) (db : Database) → Φ db (record db { attempts = rows })
  pub deliveries :
      (rows : List WebhookDelivery) (db : Database) → Φ db (record db { deliveries = rows })
  pub event : (e : Event) (db : Database) → Φ db (Notifications.append_event e db)
  pub job : (j : Job) (db : Database) → Φ db (Notifications.hand_to_queue j db)
  pub promote :
      (application_id notification_id now : ℕ) (db : Database)
      → Φ db (Notifications.promote_scheduled application_id notification_id now db).0
  pub claim :
      (application_id notification_id claim_token now : ℕ) (db : Database)
      → Φ db (Notifications.claim_for_dispatch application_id notification_id claim_token now db).0
  pub attempt :
      (n : Notification) (claim_token : ℕ) (chat : Text) (now : ℕ) (db : Database)
      → Φ db (attempt_transaction n claim_token chat now db).0
  pub transition :
      (n : Notification) (step : TransitionStep) (input : DispatchInput) (db : Database)
      → IsSound step
      → Φ db (record_transition n step input db)
  pub deferred :
      (n : Notification) (until now : ℕ) (input : DispatchInput) (db : Database)
      → Φ db (deferral n until now input db)
  pub was_sent :
      (n : Notification) (k : ℕ) (chat message_id : Text) (now resolved_at : ℕ)
      (input : DispatchInput) (db : Database)
      → Φ db (sent_transaction n k chat message_id now resolved_at input db).0
  pub release : (n : Notification) (now : ℕ) (db : Database) → Φ db (release_transaction n now db).0
  pub cancel :
      (n : Notification) (application_id : ℕ) (correlation_id : Option ℕ) (now : ℕ) (db : Database)
      → is_cancellable_notification_status n.status ≡ true
      → Φ db (cancel_transaction n application_id correlation_id now db).0
  pub cancel_waiting :
      (application_id : ℕ) (session_id correlation_id : Option ℕ) (now : ℕ) (db : Database)
      → Φ db (cancel_waiting_transaction application_id session_id correlation_id now db).0
  pub acknowledge :
      (n : Notification) (merged received : DeliveryAcknowledgement) (now : ℕ) (db : Database)
      → Φ db (acknowledgement_transaction n merged received now db)
