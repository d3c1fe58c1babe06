-- ===== src/Services/Creation/Requests.antt =====
-- packages/composition/src/notification/create-notification.service.ts: what is asked for, its
-- digest, and what the generator of identifiers and the database's defaults give.
use whatsapp_notification_pl.Prelude.{ℕ, Bool, Option, List, [], ◌∷◌, if◌then◌else◌, Text}

pub record NotificationRequest : Type 0 where
  pub application_id : ℕ
  pub body : Text
  pub whatsapp_session_id : Option ℕ
  pub scheduled_at : Option ℕ
  pub maximum_attempts : Option ℕ
  pub metadata : List (Text × Text)
  pub idempotency_key : Option Text
  pub request_path : Text

pub data Addressing : Type 0 where
  to_recipient : Text → Addressing
  to_recipients : List Text → Addressing

-- What is written as JSON for the digest.
pub record CanonicalRequest : Type 0 where
  pub application_id : ℕ
  pub addressing : Addressing
  pub body : Text
  pub whatsapp_session_id : Option ℕ
  pub scheduled_at : Option ℕ
  pub maximum_attempts : Option ℕ
  pub metadata : List (Text × Text)

pub record Environment : Type 0 where
  pub digest : CanonicalRequest → Text
  -- `left.localeCompare(right) <= 0`
  pub locale_le : (left right : Text) → Bool

-- What is generated during one request, and the correlation id of its context, if it has one.
pub record Generated : Type 0 where
  pub notification_id : ℕ → ℕ
  pub context_correlation_id : Option ℕ
  pub correlation_id : ℕ
  pub lock_token : ℕ
  pub idempotency_key_id : ℕ
  pub current_time : ℕ
  -- a deletion of an expired key at the same moment
  pub reaped : Option ℕ

-- `toSorted`, stable
abbrev pub insert_entry :
    (Text → Text → Bool) → Text × Text → List (Text × Text) → List (Text × Text)
insert_entry le entry [] = entry ∷ []
insert_entry le entry (next ∷ entries) =
    let later = insert_entry le entry entries in
    if le entry.0 next.0 then entry ∷ next ∷ entries else next ∷ later

abbrev pub sort_entries : (Text → Text → Bool) → List (Text × Text) → List (Text × Text)
sort_entries le [] = []
sort_entries le (entry ∷ entries) = insert_entry le entry (sort_entries le entries)

unfoldable pub fingerprint_request : Environment → NotificationRequest → Addressing → Text
fingerprint_request env request addressing = env.digest (record {
  application_id = request.application_id;
  addressing = addressing;
  body = request.body;
  whatsapp_session_id = request.whatsapp_session_id;
  scheduled_at = request.scheduled_at;
  maximum_attempts = request.maximum_attempts;
  metadata = sort_entries env.locale_le request.metadata;
})

pub data CreationError : Type 0 where
  invalid_phone_number invalid_schedule whatsapp_session_not_found no_whatsapp_session :
      CreationError
  idempotency_key_reused idempotency_key_in_flight : CreationError
  notification_unreadable no_notification_recorded no_notifications_recorded : CreationError
  primary_key_violation foreign_key_violation check_violation : CreationError
