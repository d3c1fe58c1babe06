-- ===== src/Examples/Creation.antt =====
-- The theorems on the creation of notifications at concrete inputs.
use whatsapp_notification_pl.Prelude.{
  ℕ, ◌+◌, ◌≡◌, refl, true, false, Option, none, some, List, [], ◌∷◌, ◌++◌, leb, length, Text, codes,
}
use whatsapp_notification_pl.Database.Records.{Database}
use whatsapp_notification_pl.Database.Transaction.{Result, ok, error}
use whatsapp_notification_pl.Database.IdempotencyKeys.{
  claimed_row, complete_row, reap, claim, complete,
}
use whatsapp_notification_pl.Database.Notifications.{
  find_by_id, insert, append_event, hand_to_queue,
}
use whatsapp_notification_pl.Database.Sessions.{list_for_application}
use whatsapp_notification_pl.Domain.PhoneNumber.{
  parse_phone_number, is_valid_phone_number, normalize_phone_number,
}
use whatsapp_notification_pl.Domain.SessionStatus.{can_session_send}
use whatsapp_notification_pl.Services.Creation.Requests.{
  NotificationRequest, Environment, Generated, CreationError, idempotency_key_reused,
  foreign_key_violation, fingerprint_request,
}
use whatsapp_notification_pl.Services.Creation.Claiming.{
  read_or_fail, read_all_or_fail, resolve_session, claim_idempotency_key,
}
use whatsapp_notification_pl.Services.Creation.Writing.{
  Draft, drafted_notification, creation_event, creation_job, insert_notification,
  write_notification, write_notifications,
}
use whatsapp_notification_pl.Services.Creation.{
  CreateNotificationResult, CreateNotificationBatchResult, replay, create_draft, create_transaction,
  create,
}
use whatsapp_notification_pl.Services.Creation.{
  create_drafts, replay_batch, create_batch_transaction,
}
use whatsapp_notification_pl.Guarantees.Creation.Once.{
  LeavesAllOrNothing, create-all_or_nothing, create-replays, create-rejects_reuse,
}
use whatsapp_notification_pl.Guarantees.Creation.Race.{create-race}
use whatsapp_notification_pl.Guarantees.Creation.BatchOnce.{
  BatchOutcome, create_batch_transaction-once,
}
use whatsapp_notification_pl.Examples.{notification, session, database_with}

abbrev env : Environment
env = record {
  digest = λ canonical. canonical.body;
  locale_le = λ left right. leb (length left) (length right);
}

abbrev generated_from : (base : ℕ) → (reaped : Option ℕ) → Generated
generated_from base reaped = record {
  notification_id = λ i. base + i;
  context_correlation_id = none;
  correlation_id = base + 50;
  lock_token = base + 60;
  idempotency_key_id = base + 70;
  current_time = 5000;
  reaped = reaped;
}

abbrev request_of : Text → NotificationRequest
request_of body = record {
  application_id = 7;
  body = body;
  whatsapp_session_id = none;
  scheduled_at = some 9000;
  maximum_attempts = none;
  metadata = [];
  idempotency_key = some (codes "k1");
  request_path = codes "/v1/notifications";
}

abbrev phone : Text
phone = codes "+5511999990000"

abbrev before : Database
before = database_with notification

abbrev created : Database × Result CreationError CreateNotificationResult
created = create env (generated_from 100 none) 4000 (request_of (codes "hi")) phone before

abbrev created_draft : Draft
created_draft = record {
  id = 100;
  recipient = phone;
  session_id = 3;
  idempotency_key_id = some 170;
  correlation_id = 150;
  created_at = 5000;
  request = request_of (codes "hi");
}

create-all_or_nothing_example :
    LeavesAllOrNothing
      (generated_from 100 none)
      (request_of (codes "hi"))
      phone
      before
      created.0
      created.1
create-all_or_nothing_example =
    create-all_or_nothing env (generated_from 100 none) 4000 (request_of (codes "hi")) phone before
      refl

create-replays_example :
    create env (generated_from 300 none) 8000 (request_of (codes "hi")) phone created.0 ≡ (
      created.0,
      ok (record { notification = drafted_notification created_draft; was_replayed = true }),
    )
unfolding create create_transaction create_draft resolve_session claim_idempotency_key
    write_notification insert_notification read_or_fail claim complete find_by_id insert
    append_event hand_to_queue list_for_application fingerprint_request replay parse_phone_number
    is_valid_phone_number normalize_phone_number can_session_send
create-replays_example =
    create-replays env (generated_from 100 none) (generated_from 300 none) 4000 8000
      (request_of (codes "hi")) phone (codes "k1") before created.0
      (record { notification = drafted_notification created_draft; was_replayed = false }) refl refl
      refl refl refl

create-rejects_reuse_example :
    create env (generated_from 300 none) 8000 (request_of (codes "hi!")) phone created.0
    ≡ (created.0, error idempotency_key_reused)
unfolding create create_transaction create_draft resolve_session claim_idempotency_key
    write_notification insert_notification read_or_fail claim complete find_by_id insert
    append_event hand_to_queue list_for_application fingerprint_request replay parse_phone_number
    is_valid_phone_number normalize_phone_number can_session_send
create-rejects_reuse_example =
    create-rejects_reuse env (generated_from 100 none) (generated_from 300 none) 4000 8000
      (request_of (codes "hi")) (request_of (codes "hi!")) phone phone phone (codes "k1") before
      created.0 (record { notification = drafted_notification created_draft; was_replayed = false })
      session refl refl refl refl refl refl (λ same. cc same) refl refl refl

create-race_example :
    create env (generated_from 300 (some 170)) 8000 (request_of (codes "hi")) phone created.0
    ≡ (reap (some 170) created.0, error foreign_key_violation)
unfolding create create_transaction create_draft resolve_session claim_idempotency_key
    write_notification insert_notification read_or_fail claim complete find_by_id insert
    append_event hand_to_queue list_for_application fingerprint_request replay parse_phone_number
    is_valid_phone_number normalize_phone_number can_session_send
create-race_example =
    create-race env (generated_from 300 (some 170)) 8000 170 (request_of (codes "hi")) phone phone
      (codes "k1") created.0
      (complete_row none (some 100) (
        claimed_row 170 (record {
          application_id = 7;
          key = codes "k1";
          request_path = codes "/v1/notifications";
          request_fingerprint = codes "hi";
          lock_token = 160;
          expires_at = 86_404_000;
        })))
      session refl refl refl refl refl refl refl refl refl

abbrev batch_result : CreateNotificationBatchResult
batch_result = record {
  notifications =
      drafted_notification created_draft
      ∷ drafted_notification (record created_draft { id = 101; recipient = codes "+5511999990001" })
      ∷ [];
  was_replayed = false;
}

abbrev phones : List Text
phones = phone ∷ codes "+5511999990001" ∷ []

abbrev after_batch : Database
after_batch = record before {
  notifications = before.notifications ++ batch_result.notifications;
  events =
      before.events
      ++ creation_event created_draft
        ∷ creation_event (record created_draft { id = 101; recipient = codes "+5511999990001" })
        ∷ [];
  jobs =
      before.jobs
      ++ creation_job created_draft
        ∷ creation_job (record created_draft { id = 101; recipient = codes "+5511999990001" })
        ∷ [];
  idempotency_keys =
      complete_row (some (100 ∷ 101 ∷ [])) none (
        claimed_row 170 (record {
          application_id = 7;
          key = codes "k1";
          request_path = codes "/v1/notifications";
          request_fingerprint = codes "f";
          lock_token = 160;
          expires_at = 86_404_000;
        }))
      ∷ [];
}

create_batch_transaction-once_example :
    BatchOutcome
      (generated_from 100 none)
      (request_of (codes "hi"))
      phones
      before
      after_batch
      batch_result
    × (create_batch_transaction
          (generated_from 300 none)
          (request_of (codes "hi"))
          phones
          (codes "f")
          8000
          after_batch
        ≡ ok (
          after_batch,
          record { notifications = batch_result.notifications; was_replayed = true },
        ))
unfolding create_batch_transaction create_drafts resolve_session claim_idempotency_key
    write_notifications write_notification insert_notification read_or_fail read_all_or_fail claim
    complete find_by_id insert append_event hand_to_queue list_for_application replay_batch
    can_session_send
create_batch_transaction-once_example =
    create_batch_transaction-once (generated_from 100 none) (generated_from 300 none) 4000 8000
      (request_of (codes "hi")) phones (codes "f") (codes "k1") before after_batch batch_result refl
      refl refl refl
