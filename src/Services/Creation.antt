-- ===== src/Services/Creation.antt =====
-- packages/composition/src/notification/create-notification.service.ts: one notification, or one for
-- each recipient, with its first event, its dispatch job and the idempotency key, in one
-- transaction. The digest (SHA-256 over JSON) and the locale's order of texts are arguments, and so
-- is what the identifier generator and the database's defaults give.
pub mod Requests
pub mod Claiming
pub mod Writing
use whatsapp_notification_pl.Prelude.{
  ℕ, suc, Bool, true, false, Option, none, some, List, [], ◌∷◌, map, leb, if◌then◌else◌, get_or,
  map_option, Text,
}
use whatsapp_notification_pl.Database.Records.{Notification, Database}
use whatsapp_notification_pl.Database.Transaction.{
  Result, error, ◌>>=◌, ◌>>◌, return, throw, settle,
}
use whatsapp_notification_pl.Database.IdempotencyKeys.{reap}
use whatsapp_notification_pl.Domain.PhoneNumber.{parse_phone_number}
use whatsapp_notification_pl.Services.Creation.Requests.{
  NotificationRequest, to_recipient, to_recipients, Environment, Generated, CreationError,
  invalid_phone_number, invalid_schedule, no_notification_recorded, no_notifications_recorded,
  fingerprint_request,
}
use whatsapp_notification_pl.Services.Creation.Claiming.{
  CreationStep, ClaimResult, fresh, completed_claim, read_or_fail, read_all_or_fail,
  resolve_session, claim_idempotency_key,
}
use whatsapp_notification_pl.Services.Creation.Writing.{
  Draft, write_notification, write_notifications, complete_key,
}

pub record CreateNotificationResult : Type 0 where
  pub notification : Notification
  pub was_replayed : Bool

pub record CreateNotificationBatchResult : Type 0 where
  pub notifications : List Notification
  pub was_replayed : Bool

-- What `assertScheduleIsInTheFuture` throws for.
abbrev pub is_schedule_past : Option ℕ → (now : ℕ) → Bool
is_schedule_past none now = false
is_schedule_past (some at) now = leb at now

abbrev pub draft_of :
    Generated
    → NotificationRequest
    → (index : ℕ) → (recipient : Text) → (session_id : ℕ) → (idempotency_key_id : Option ℕ) → Draft
draft_of generated request index recipient session_id idempotency_key_id = record {
  id = generated.notification_id index;
  recipient = recipient;
  session_id = session_id;
  idempotency_key_id = idempotency_key_id;
  correlation_id = get_or generated.context_correlation_id generated.correlation_id;
  created_at = generated.current_time;
  request = request;
}

unfoldable pub replay :
    (application_id : ℕ) → (resource_id : Option ℕ) → CreationStep CreateNotificationResult
replay application_id none = throw no_notification_recorded
replay application_id (some id) = do
  notification ← read_or_fail application_id id
  return (record { notification = notification; was_replayed = true })

unfoldable pub create_draft : Draft → (lock_token : ℕ) → CreationStep CreateNotificationResult
create_draft draft lock_token = do
  write_notification draft
  complete_key draft.idempotency_key_id lock_token none (some draft.id)
  notification ← read_or_fail draft.request.application_id draft.id
  return (record { notification = notification; was_replayed = false })

abbrev pub create_claimed :
    Generated
    → NotificationRequest
    → (recipient : Text) → (session_id : ℕ) → ClaimResult
    → CreationStep CreateNotificationResult
create_claimed generated request recipient session_id (completed_claim resource_id ids) =
    replay request.application_id resource_id
create_claimed generated request recipient session_id (fresh key_id lock_token) =
    create_draft (draft_of generated request 0 recipient session_id key_id) lock_token

unfoldable pub create_transaction :
    Generated
    → NotificationRequest
    → (recipient : Text) → (fingerprint : Text) → (now : ℕ) → CreationStep CreateNotificationResult
create_transaction generated request recipient fingerprint now = do
  session ← resolve_session request.application_id request.whatsapp_session_id
  claim ← claim_idempotency_key generated request fingerprint now
  create_claimed generated request recipient session.id claim

unfoldable pub create :
    Environment
    → Generated
    → (now : ℕ) → NotificationRequest
    → (recipient : Text) → Database
    → Database × Result CreationError CreateNotificationResult
create env generated now request recipient db = elim (parse_phone_number recipient) [
  | none ↦ (db, error invalid_phone_number)
  | some phone ↦
      if is_schedule_past request.scheduled_at now
      then (db, error invalid_schedule)
      else settle (reap generated.reaped db) (
          create_transaction generated request phone
            (fingerprint_request env request (to_recipient recipient)) now db)
]

unfoldable pub replay_batch :
    (application_id : ℕ)
    → (notification_ids : Option (List ℕ)) → CreationStep CreateNotificationBatchResult
replay_batch application_id none = throw no_notifications_recorded
replay_batch application_id (some ids) = do
  notifications ← read_all_or_fail application_id ids
  return (record { notifications = notifications; was_replayed = true })

abbrev pub parse_all : (recipients : List Text) → Option (List Text)
parse_all [] = some []
parse_all (recipient ∷ recipients) = elim (parse_phone_number recipient) [
  | none ↦ none
  | some phone ↦ map_option (λ (phones : List Text). phone ∷ phones) (parse_all recipients)
]

abbrev pub drafts_from :
    Generated
    → NotificationRequest
    → (index : ℕ) → (recipients : List Text) → (session_id : ℕ) → (idempotency_key_id : Option ℕ)
    → List Draft
drafts_from generated request index [] session_id key_id = []
drafts_from generated request index (recipient ∷ recipients) session_id key_id =
    draft_of generated request index recipient session_id key_id
    ∷ drafts_from generated request (suc index) recipients session_id key_id

unfoldable pub create_drafts :
    (application_id : ℕ)
    → List Draft
    → (idempotency_key_id : Option ℕ) → (lock_token : ℕ)
    → CreationStep CreateNotificationBatchResult
create_drafts application_id drafts key_id lock_token =
    let ids = map (λ (draft : Draft). draft.id) drafts in
    do
      write_notifications drafts
      complete_key key_id lock_token (some ids) none
      notifications ← read_all_or_fail application_id ids
      return (record { notifications = notifications; was_replayed = false })

abbrev pub create_batch_claimed :
    Generated
    → NotificationRequest
    → (recipients : List Text) → (session_id : ℕ) → ClaimResult
    → CreationStep CreateNotificationBatchResult
create_batch_claimed generated request recipients session_id (completed_claim resource_id ids) =
    replay_batch request.application_id ids
create_batch_claimed generated request recipients session_id (fresh key_id lock_token) =
    create_drafts request.application_id
      (drafts_from generated request 0 recipients session_id key_id) key_id lock_token

unfoldable pub create_batch_transaction :
    Generated
    → NotificationRequest
    → (recipients : List Text) → (fingerprint : Text) → (now : ℕ)
    → CreationStep CreateNotificationBatchResult
create_batch_transaction generated request recipients fingerprint now = do
  session ← resolve_session request.application_id request.whatsapp_session_id
  claim ← claim_idempotency_key generated request fingerprint now
  create_batch_claimed generated request recipients session.id claim

unfoldable pub create_batch :
    Environment
    → Generated
    → (now : ℕ) → NotificationRequest
    → (recipients : List Text) → Database
    → Database × Result CreationError CreateNotificationBatchResult
create_batch env generated now request recipients db = elim (parse_all recipients) [
  | none ↦ (db, error invalid_phone_number)
  | some phones ↦
      if is_schedule_past request.scheduled_at now
      then (db, error invalid_schedule)
      else settle (reap generated.reaped db) (
          create_batch_transaction generated request phones
            (fingerprint_request env request (to_recipients recipients)) now db)
]
