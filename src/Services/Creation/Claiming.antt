-- ===== src/Services/Creation/Claiming.antt =====
-- packages/composition/src/notification/create-notification.service.ts: reading back, the choice of
-- the session, and the claim of the idempotency key.
use whatsapp_notification_pl.Prelude.{
  ℕ, ◌+◌, ◌*◌, not, Option, none, some, List, [], ◌∷◌, ◌==◌, if◌then◌else◌, find?, find_last?,
  last?, Text, text_eq,
}
use whatsapp_notification_pl.Database.Records.{
  Notification, WhatsAppSession, IdempotencyKey, in_flight, completed,
}
use whatsapp_notification_pl.Database.Transaction.{
  Transaction, ◌>>=◌, ◌>>◌, return, throw, query, write, statement,
}
use whatsapp_notification_pl.Database.IdempotencyKeys.{IdempotencyClaim, claimed, exists_already}
use whatsapp_notification_pl.Database.IdempotencyKeys
use whatsapp_notification_pl.Database.Notifications
use whatsapp_notification_pl.Database.Sessions
use whatsapp_notification_pl.Domain.SessionStatus.{can_session_send, is_session_connecting}
use whatsapp_notification_pl.Services.Creation.Requests.{
  NotificationRequest, Generated, CreationError, whatsapp_session_not_found, no_whatsapp_session,
  idempotency_key_reused, idempotency_key_in_flight, notification_unreadable,
}

abbrev pub CreationStep : Type 0 → Type 0
CreationStep A = Transaction CreationError A

abbrev pub or_throw : {A : Type 0} → CreationError → Option A → CreationStep A
or_throw e none = throw e
or_throw e (some a) = return a

unfoldable pub read_or_fail : (application_id notification_id : ℕ) → CreationStep Notification
read_or_fail application_id notification_id =
    query (Notifications.find_by_id application_id notification_id)
    >>= or_throw notification_unreadable

unfoldable pub read_all_or_fail : (application_id : ℕ) → List ℕ → CreationStep (List Notification)
unfolding read_or_fail
read_all_or_fail application_id [] = return []
read_all_or_fail application_id (id ∷ ids) = do
  notification ← read_or_fail application_id id
  notifications ← read_all_or_fail application_id ids
  return (notification ∷ notifications)

abbrev pub first_some : {A : Type 0} → Option A → Option A → Option A
first_some none later = later
first_some (some a) later = some a

abbrev pub choose_session : List WhatsAppSession → Option WhatsAppSession
choose_session sessions =
    first_some (find? (λ (s : WhatsAppSession). can_session_send s.status) sessions) (
      first_some (find_last? (λ (s : WhatsAppSession). is_session_connecting s.status) sessions)
        (last? sessions))

abbrev pub select_session :
    (requested : Option ℕ) → List WhatsAppSession → CreationStep WhatsAppSession
select_session none sessions = or_throw no_whatsapp_session (choose_session sessions)
select_session (some id) sessions =
    or_throw whatsapp_session_not_found (find? (λ (s : WhatsAppSession). s.id == id) sessions)

unfoldable pub resolve_session :
    (application_id : ℕ) → (requested : Option ℕ) → CreationStep WhatsAppSession
resolve_session application_id requested =
    query (Sessions.list_for_application application_id) >>= select_session requested

pub data ClaimResult : Type 0 where
  fresh : (idempotency_key_id : Option ℕ) → (lock_token : ℕ) → ClaimResult
  completed_claim : (resource_id : Option ℕ) → (notification_ids : Option (List ℕ)) → ClaimResult

abbrev pub idempotency_window_hours : ℕ
idempotency_window_hours = 24

-- What an existing claim means.
abbrev pub read_existing : (fingerprint : Text) → IdempotencyKey → CreationStep ClaimResult
read_existing fingerprint row =
    if not (text_eq row.request_fingerprint fingerprint)
    then throw idempotency_key_reused
    else elim row.state [
      | completed ↦ return (completed_claim row.resource_id row.notification_ids)
      | in_flight ↦ throw idempotency_key_in_flight
    ]

abbrev pub read_claim : (fingerprint : Text) → IdempotencyClaim → CreationStep ClaimResult
read_claim fingerprint (claimed id lock_token) = return (fresh (some id) lock_token)
read_claim fingerprint (exists_already row) = read_existing fingerprint row

abbrev pub claim_key :
    Generated
    → NotificationRequest
    → (fingerprint : Text) → (now : ℕ) → Option Text
    → CreationStep ClaimResult
claim_key generated request fingerprint now none =
    write (IdempotencyKeys.reap generated.reaped) >> return (fresh none generated.lock_token)
claim_key generated request fingerprint now (some key) =
    statement (
      IdempotencyKeys.claim generated.idempotency_key_id generated.reaped (record {
        application_id = request.application_id;
        key = key;
        request_path = request.request_path;
        request_fingerprint = fingerprint;
        lock_token = generated.lock_token;
        expires_at = now + idempotency_window_hours * 3_600_000;
      }))
    >>= read_claim fingerprint

unfoldable pub claim_idempotency_key :
    Generated → NotificationRequest → (fingerprint : Text) → (now : ℕ) → CreationStep ClaimResult
claim_idempotency_key generated request fingerprint now =
    claim_key generated request fingerprint now request.idempotency_key
