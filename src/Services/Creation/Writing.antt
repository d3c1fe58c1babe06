-- ===== src/Services/Creation/Writing.antt =====
-- packages/composition/src/notification/create-notification.service.ts: writing one notification, its
-- first event and its dispatch job, and completing the key.
use whatsapp_notification_pl.Prelude.{
  ℕ, Bool, true, not, ◌&&◌, Option, none, some, List, [], ◌∷◌, ◌==◌, if◌then◌else◌, get_or, is_some,
  any, Text, length, leb,
}
use whatsapp_notification_pl.Database.Records.{
  Notification, EventType, Payload, Event, Job, WhatsAppSession, IdempotencyKey, Database,
}
use whatsapp_notification_pl.Database.Transaction.{ok, error, ◌>>◌, return, write}
use whatsapp_notification_pl.Database.IdempotencyKeys
use whatsapp_notification_pl.Database.Notifications
use whatsapp_notification_pl.Domain.Acknowledgement.{Value}
use whatsapp_notification_pl.Domain.PhoneNumber.{mask_phone_number_for_log}
use whatsapp_notification_pl.Domain.Status.{NotificationStatus, scheduled, queued}
use whatsapp_notification_pl.Services.Creation.Requests.{
  NotificationRequest, primary_key_violation, foreign_key_violation, check_violation,
}
use whatsapp_notification_pl.Services.Creation.Claiming.{CreationStep}

pub record Draft : Type 0 where
  pub id : ℕ
  pub recipient : Text
  pub session_id : ℕ
  pub idempotency_key_id : Option ℕ
  pub correlation_id : ℕ
  pub created_at : ℕ
  pub request : NotificationRequest

abbrev pub initial_status : Option ℕ → NotificationStatus
initial_status scheduled_at = if is_some scheduled_at then scheduled else queued

abbrev pub drafted_notification : Draft → Notification
drafted_notification draft = record {
  id = draft.id;
  application_id = draft.request.application_id;
  whatsapp_session_id = draft.session_id;
  status = initial_status draft.request.scheduled_at;
  recipient_phone_number = draft.recipient;
  recipient_chat_identifier = none;
  rendered_body = draft.request.body;
  scheduled_at = draft.request.scheduled_at;
  attempt_count = 0;
  maximum_attempts = get_or draft.request.maximum_attempts 5;
  next_attempt_at = none;
  claim_token = none;
  claimed_at = none;
  provider_message_id = none;
  provider_acknowledgement = Value.at 0;
  sent_at = none;
  delivered_at = none;
  read_at = none;
  failed_at = none;
  cancelled_at = none;
  failure_code = none;
  failure_classification = none;
  idempotency_key_id = draft.idempotency_key_id;
  correlation_id = some draft.correlation_id;
  metadata = draft.request.metadata;
  created_at = draft.created_at;
  updated_at = draft.created_at;
}

abbrev pub creation_event : Draft → Event
creation_event draft = record {
  application_id = draft.request.application_id;
  notification_id = draft.id;
  event_type = EventType.created;
  from_status = none;
  to_status = some (initial_status draft.request.scheduled_at);
  attempt_number = none;
  payload =
      Payload.creation (mask_phone_number_for_log draft.recipient)
        (is_some draft.request.scheduled_at);
  correlation_id = some draft.correlation_id;
}

abbrev pub creation_job : Draft → Job
creation_job draft = record {
  correlation_id = draft.correlation_id;
  notification_id = draft.id;
  application_id = draft.request.application_id;
  singleton_key = draft.id;
  start_after = draft.request.scheduled_at;
}

-- `notifications_idempotency_key_fkey` of packages/database/src/schema/notifications.ts
abbrev pub references_key : (application_id : ℕ) → Option ℕ → Database → Bool
references_key application_id none db = true
references_key application_id (some id) db =
    any (λ (row : IdempotencyKey). row.id == id && row.application_id == application_id)
      db.idempotency_keys

-- `notifications_session_fkey`
abbrev pub references_session : (application_id session_id : ℕ) → Database → Bool
references_session application_id session_id db =
    any (λ (row : WhatsAppSession). row.id == session_id && row.application_id == application_id)
      db.sessions

-- `notifications_body_length_check` and `notifications_maximum_attempts_check`: the checks on what a
-- caller decides, the characters of a body being the elements of its text. The other checks hold of
-- every drafted row.
abbrev pub is_within_checks : Notification → Bool
is_within_checks row =
    (leb 1 (length row.rendered_body) && leb (length row.rendered_body) 4096)
    && (leb 1 row.maximum_attempts && leb row.maximum_attempts 10)

-- The insertion, with the constraints that it can violate, in the order of the schema: which of
-- several that are violated the database reports is its own business.
unfoldable pub insert_notification : Notification → CreationStep (Unit {0})
insert_notification row db =
    if any (λ (other : Notification). other.id == row.id) db.notifications
    then error primary_key_violation
    else if not (references_key row.application_id row.idempotency_key_id db)
    then error foreign_key_violation
    else if not (references_session row.application_id row.whatsapp_session_id db)
    then error foreign_key_violation
    else if not (is_within_checks row)
    then error check_violation
    else ok (Notifications.insert row db, tt)

unfoldable pub write_notification : Draft → CreationStep (Unit {0})
write_notification draft = do
  insert_notification (drafted_notification draft)
  write (Notifications.append_event (creation_event draft))
  write (Notifications.hand_to_queue (creation_job draft))

unfoldable pub write_notifications : List Draft → CreationStep (Unit {0})
write_notifications [] = return tt
write_notifications (draft ∷ drafts) = write_notification draft >> write_notifications drafts

abbrev pub complete_key :
    (idempotency_key_id : Option ℕ)
    → (lock_token : ℕ) → (notification_ids : Option (List ℕ)) → (resource_id : Option ℕ)
    → CreationStep (Unit {0})
complete_key none lock_token notification_ids resource_id = return tt
complete_key (some id) lock_token notification_ids resource_id =
    write (IdempotencyKeys.complete id lock_token notification_ids resource_id)
