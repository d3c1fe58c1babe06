-- ===== src/Guarantees/Retries/Waits.antt =====
-- The other transactions keep every retry awaited, and so all of them do.
use whatsapp_notification_pl.Prelude.{
  ℕ, ◌≡◌, refl, ◌∙◌, inl, inr, ◌&&◌, Option, none, some, [], ◌∷◌, ◌++◌, arith, Option-cases, find?,
  Text,
}
use whatsapp_notification_pl.Database.Records.{Notification, Database}
use whatsapp_notification_pl.Database.Notifications.{Changes, no_changes}
use whatsapp_notification_pl.Database.SendAttempts
use whatsapp_notification_pl.Domain.Status.{
  NotificationStatus, processing, sent, retrying, cancelled, ◌is◌,
}
use whatsapp_notification_pl.Database.Notifications.{
  apply_transition, apply_changes, append_event, append_events, hand_to_queue, has_key, is_waiting,
  cancel_waiting,
}
use whatsapp_notification_pl.Domain.Acknowledgement.{DeliveryAcknowledgement}
use whatsapp_notification_pl.Services.Dispatch.{DispatchInput, dispatch_job}
use whatsapp_notification_pl.Services.Dispatch.Waiting.{deferral}
use whatsapp_notification_pl.Services.Dispatch.Sending.{sent_transaction}
use whatsapp_notification_pl.Services.Maintenance.{release_transaction}
use whatsapp_notification_pl.Services.Queries.{cancel_transaction, cancel_waiting_transaction}
use whatsapp_notification_pl.Services.Webhooks.{
  acknowledgement_transaction, resolve_status, acknowledgement_changes,
}
use whatsapp_notification_pl.Contract.{Admits}
use whatsapp_notification_pl.Guarantees.Transactions.{
  sent-notifications, release-notifications, cancel-notifications,
}
use whatsapp_notification_pl.Services.Maintenance.{repair_job}
use whatsapp_notification_pl.Guarantees.Retries.Awaits.{
  Awaited, Keeps, Awaited-more, All-map, All-update, update-none, transition-Awaits, leaves-Awaits,
  waits-Awaits,
}
use whatsapp_notification_pl.Guarantees.Retries.Claims.{
  is_job_for-same, sent_differs, cancelled_differs, promote-Keeps, claim-Keeps, attempt-Keeps,
  transition-Keeps,
}

deferral-Keeps :
    (n : Notification) (until t : ℕ) (input : DispatchInput) (db : Database)
    → Keeps db (deferral n until t input db)
unfolding deferral apply_transition hand_to_queue
deferral-Keeps n until t input db =
    waits-Awaits n.application_id n.id processing retrying
      (record no_changes {
        next_attempt_at = some (some until);
        claim_token = some none;
        claimed_at = some none;
      })
      t until (dispatch_job input.correlation_id n.id n.application_id (some until))
      db.notifications db.jobs refl
      (is_job_for-same n.id until
        (dispatch_job input.correlation_id n.id n.application_id (some until)) refl refl)

sent-jobs :
    (n : Notification) (k : ℕ) (chat m : Text) (t u : ℕ) (input : DispatchInput) (db : Database)
    → (sent_transaction n k chat m t u input db).0.jobs ≡ db.jobs
unfolding sent_transaction append_event SendAttempts.resolve apply_transition
sent-jobs n k chat m t u input db = ground arith

abbrev sent_changes : (chat m : Text) (t : ℕ) → Changes
sent_changes chat m t = record no_changes {
  provider_message_id = some (some m);
  recipient_chat_identifier = some (some chat);
  sent_at = some (some t);
  claim_token = some none;
  claimed_at = some none;
  next_attempt_at = some none;
}

sent-Keeps :
    (n : Notification) (k : ℕ) (chat m : Text) (t u : ℕ) (input : DispatchInput) (db : Database)
    → Keeps db (sent_transaction n k chat m t u input db).0
unfolding apply_transition
sent-Keeps n k chat m t u input db =
    rw (sent-notifications n k chat m t u input db, sent-jobs n k chat m t u input db)
      (leaves-Awaits n.application_id n.id processing sent (sent_changes chat m t) t
        db.notifications db.jobs sent_differs)

release-jobs-none :
    (n : Notification) (t : ℕ) (db : Database)
    → find? (λ r. has_key n.application_id n.id r && r.status is processing) db.notifications ≡ none
    → (release_transaction n t db).0.jobs ≡ db.jobs
unfolding release_transaction append_event hand_to_queue apply_transition
release-jobs-none n t db h = ground arith

release-jobs-some :
    (n : Notification) (t : ℕ) (db : Database) (r : Notification)
    → find? (λ s. has_key n.application_id n.id s && s.status is processing) db.notifications
      ≡ some r
    → (release_transaction n t db).0.jobs ≡ db.jobs ++ repair_job n t ∷ []
unfolding release_transaction append_event hand_to_queue apply_transition
release-jobs-some n t db r h = ground arith

abbrev release_changes : ℕ → Changes
release_changes t = record no_changes {
  next_attempt_at = some (some t);
  claim_token = some none;
  claimed_at = some none;
}

release-Keeps : (n : Notification) (t : ℕ) (db : Database) → Keeps db (release_transaction n t db).0
unfolding apply_transition
release-Keeps n t db h =
    elim (Option-cases
      (find? (λ r. has_key n.application_id n.id r && r.status is processing) db.notifications)) [
        | inl absent ↦ rw (release-notifications n t db) (
            rw (release-jobs-none n t db absent)
              (rw (update-none _ (apply_changes retrying t _) db.notifications absent) h))
        | inr (r, found) ↦ rw (release-notifications n t db) (
            rw (release-jobs-some n t db r found) (
              waits-Awaits n.application_id n.id processing retrying (release_changes t) t t
                (repair_job n t) db.notifications db.jobs refl
                (is_job_for-same n.id t (repair_job n t) refl refl) h))
      ]

cancel-jobs :
    (n : Notification) (a : ℕ) (c : Option ℕ) (t : ℕ) (db : Database)
    → (cancel_transaction n a c t db).0.jobs ≡ db.jobs
unfolding cancel_transaction append_event apply_transition
cancel-jobs n a c t db = ground arith

cancel-Keeps :
    (n : Notification) (a : ℕ) (c : Option ℕ) (t : ℕ) (db : Database)
    → Keeps db (cancel_transaction n a c t db).0
unfolding apply_transition
cancel-Keeps n a c t db =
    rw (cancel-notifications n a c t db, cancel-jobs n a c t db)
      (leaves-Awaits a n.id n.status cancelled (record no_changes { cancelled_at = some (some t) })
        t db.notifications db.jobs cancelled_differs)

cancel_waiting-Keeps :
    (a : ℕ) (o c : Option ℕ) (t : ℕ) (db : Database)
    → Keeps db (cancel_waiting_transaction a o c t db).0
unfolding cancel_waiting_transaction append_events cancel_waiting
cancel_waiting-Keeps a o c t db =
    All-update (Awaited db.jobs) (Awaited db.jobs) (is_waiting a o)
      (λ r. record r {
        status = cancelled;
        cancelled_at = some t;
        updated_at = t;
        next_attempt_at = none;
      })
      db.notifications (λ r p. p) (λ r e p h. absurd (cancelled_differs h))

resolve_status-retrying :
    (s : NotificationStatus) (a : DeliveryAcknowledgement)
    → resolve_status s a ≡ retrying
    → s ≡ retrying
unfolding resolve_status
resolve_status-retrying s a h = ground arith

acknowledge-Keeps :
    (n : Notification) (m r : DeliveryAcknowledgement) (t : ℕ) (db : Database)
    → Keeps db (acknowledgement_transaction n m r t db)
unfolding acknowledgement_transaction append_event apply_transition acknowledgement_changes
acknowledge-Keeps n m r t db =
    transition-Awaits n.application_id n.id n.status (resolve_status n.status m)
      (acknowledgement_changes n m t) t db.notifications db.jobs db.jobs (λ r p. p)
      (λ r e₁ e₂ p h. p (e₂ ∙ resolve_status-retrying n.status m h))

pub Keeps-admits : Admits Keeps
unfolding append_event hand_to_queue
Keeps-admits = record {
  stays = λ db h. h;
  sessions = λ rows db h. h;
  attempts = λ rows db h. h;
  deliveries = λ rows db h. h;
  event = λ e db h. h;
  job = λ j db. All-map _ _ db.notifications (Awaited-more db.jobs (j ∷ []));
  promote = promote-Keeps;
  claim = claim-Keeps;
  attempt = attempt-Keeps;
  transition = transition-Keeps;
  deferred = deferral-Keeps;
  was_sent = sent-Keeps;
  release = release-Keeps;
  cancel = λ n a c t db _. cancel-Keeps n a c t db;
  cancel_waiting = cancel_waiting-Keeps;
  acknowledge = acknowledge-Keeps;
}
