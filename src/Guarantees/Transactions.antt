-- ===== src/Guarantees/Transactions.antt =====
-- What each transaction does to the rows of notifications: what its update does.
use whatsapp_notification_pl.Prelude.{ℕ, ◌≡◌, Option, none, some, arith, Text}
use whatsapp_notification_pl.Database.Records.{Notification, Database}
use whatsapp_notification_pl.Database.Notifications.{no_changes}
use whatsapp_notification_pl.Database.SendAttempts
use whatsapp_notification_pl.Domain.Status.{processing, sent, retrying, cancelled}
use whatsapp_notification_pl.Database.Notifications.{
  begin_attempt, apply_transition, append_event, hand_to_queue,
}
use whatsapp_notification_pl.Services.Dispatch.{DispatchInput, TransitionStep, record_transition}
use whatsapp_notification_pl.Services.Dispatch.Sending.{attempt_transaction, sent_transaction}
use whatsapp_notification_pl.Services.Maintenance.{release_transaction}
use whatsapp_notification_pl.Services.Queries.{cancel_transaction}

pub attempt-notifications :
    (n : Notification) (token : ℕ) (chat : Text) (t : ℕ) (db : Database)
    → (attempt_transaction n token chat t db).0.notifications
      ≡ (begin_attempt n.application_id n.id token chat t db).0.notifications
unfolding attempt_transaction SendAttempts.begin
attempt-notifications n token chat t db = ground arith

pub transition-notifications :
    (n : Notification) (step : TransitionStep) (input : DispatchInput) (db : Database)
    → (record_transition n step input db).notifications
      ≡ (apply_transition n.application_id n.id processing step.next_status step.changes step.now
          db).0.notifications
unfolding record_transition append_event hand_to_queue
transition-notifications n step input db = ground arith

pub sent-notifications :
    (n : Notification) (k : ℕ) (chat m : Text) (t u : ℕ) (input : DispatchInput) (db : Database)
    → (sent_transaction n k chat m t u input db).0.notifications
      ≡ (apply_transition n.application_id n.id processing sent
          (record no_changes {
            provider_message_id = some (some m);
            recipient_chat_identifier = some (some chat);
            sent_at = some (some t);
            claim_token = some none;
            claimed_at = some none;
            next_attempt_at = some none;
          })
          t
          db).0.notifications
unfolding sent_transaction append_event SendAttempts.resolve
sent-notifications n k chat m t u input db = ground arith

pub release-notifications :
    (n : Notification) (t : ℕ) (db : Database)
    → (release_transaction n t db).0.notifications
      ≡ (apply_transition n.application_id n.id processing retrying
          (record no_changes {
            next_attempt_at = some (some t);
            claim_token = some none;
            claimed_at = some none;
          })
          t
          db).0.notifications
unfolding release_transaction append_event hand_to_queue
release-notifications n t db = ground arith

pub cancel-notifications :
    (n : Notification) (a : ℕ) (c : Option ℕ) (t : ℕ) (db : Database)
    → (cancel_transaction n a c t db).0.notifications
      ≡ (apply_transition a n.id n.status cancelled
          (record no_changes { cancelled_at = some (some t) })
          t
          db).0.notifications
unfolding cancel_transaction append_event
cancel-notifications n a c t db = ground arith
