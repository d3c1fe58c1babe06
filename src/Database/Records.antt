-- ===== src/Database/Records.antt =====
-- The rows of the tables, after packages/database/src/repositories and schema. An identifier and
-- a token is a number, a Date its number of milliseconds, a text the list of its code units.
-- Columns that nothing modelled reads and texts made for people are left out: templates,
-- priority, failure reasons, and the surrogate keys of events and attempts.
use whatsapp_notification_pl.Prelude.{ℕ, Bool, Option, List, Text}
use whatsapp_notification_pl.Domain.Status.{NotificationStatus}
use whatsapp_notification_pl.Domain.Acknowledgement.{DeliveryAcknowledgement, Value}
use whatsapp_notification_pl.Domain.Failure.{FailureClassification, ProviderFailureCode}
use whatsapp_notification_pl.Domain.AccountLimits.{AccountLimits, SendingPauseReason}
use whatsapp_notification_pl.Domain.SessionStatus.{ProviderSessionStatus}

pub record Notification : Type 0 where
  pub id : ℕ
  pub application_id : ℕ
  pub whatsapp_session_id : ℕ
  pub status : NotificationStatus
  pub recipient_phone_number : Text
  pub recipient_chat_identifier : Option Text
  pub rendered_body : Text
  pub scheduled_at : Option ℕ
  pub attempt_count : ℕ
  pub maximum_attempts : ℕ
  pub next_attempt_at : Option ℕ
  pub claim_token : Option ℕ
  pub claimed_at : Option ℕ
  pub provider_message_id : Option Text
  pub provider_acknowledgement : Value
  pub sent_at : Option ℕ
  pub delivered_at : Option ℕ
  pub read_at : Option ℕ
  pub failed_at : Option ℕ
  pub cancelled_at : Option ℕ
  pub failure_code : Option ProviderFailureCode
  pub failure_classification : Option FailureClassification
  pub idempotency_key_id : Option ℕ
  pub correlation_id : Option ℕ
  pub metadata : List (Text × Text)
  pub created_at : ℕ
  pub updated_at : ℕ

pub data EventType : Type 0 where
  created was_queued sent retry_scheduled failed claim_reaped acknowledged was_cancelled : EventType

-- What an event carries besides its columns.
pub data Payload : Type 0 where
  empty : Payload
  creation : (recipient : Text) (is_scheduled : Bool) → Payload
  delivery : (provider_message_id : Text) → Payload
  retry :
      (next_attempt_at : ℕ)
      → ProviderFailureCode
      → FailureClassification
      → (status : Option ℕ) → Payload
  failure :
      (recipient : Text)
      → ProviderFailureCode
      → FailureClassification
      → (status : Option ℕ) → Payload
  reaping : (claimed_at : Option ℕ) → Payload
  receipt : (acknowledgement highest_acknowledgement : DeliveryAcknowledgement) → Payload

pub record Event : Type 0 where
  pub application_id : ℕ
  pub notification_id : ℕ
  pub event_type : EventType
  pub from_status : Option NotificationStatus
  pub to_status : Option NotificationStatus
  pub attempt_number : Option ℕ
  pub payload : Payload
  pub correlation_id : Option ℕ

pub data SendAttemptOutcome : Type 0 where
  succeeded failed unknown : SendAttemptOutcome

pub record SendAttempt : Type 0 where
  pub application_id : ℕ
  pub notification_id : ℕ
  pub attempt_number : ℕ
  pub request_started_at : ℕ
  pub request_finished_at : Option ℕ
  pub outcome : Option SendAttemptOutcome
  pub provider_message_id : Option Text
  pub failure_code : Option ProviderFailureCode

-- Why a session cannot be used, where the platform found out itself.
pub data LastError : Type 0 where
  forgotten_by_provider : LastError

pub record WhatsAppSession : Type 0 where
  pub id : ℕ
  pub application_id : ℕ
  pub provider : Text
  pub provider_session_name : Text
  pub display_name : Text
  pub webhook_signing_key_ciphertext : Text
  pub status : ProviderSessionStatus
  pub phone_number : Option Text
  pub push_name : Option Text
  pub send_pacing_minimum_seconds : ℕ
  pub send_pacing_maximum_seconds : ℕ
  pub next_send_allowed_at : ℕ
  pub sending_paused_until : Option ℕ
  pub sending_paused_reason : Option SendingPauseReason
  pub account_limits : Option AccountLimits
  pub account_limits_checked_at : Option ℕ
  pub last_status_at : ℕ
  pub last_error : Option LastError
  pub updated_at : ℕ

-- What the platform does when a send's outcome cannot be determined.
pub data UnknownOutcomePolicy : Type 0 where
  retry_policy fail_closed : UnknownOutcomePolicy

pub record Application : Type 0 where
  pub id : ℕ
  pub archived_at : Option ℕ
  pub unknown_outcome_policy : UnknownOutcomePolicy

-- A dispatch job as it is handed to the queue.
pub record Job : Type 0 where
  pub correlation_id : ℕ
  pub notification_id : ℕ
  pub application_id : ℕ
  pub singleton_key : ℕ
  pub start_after : Option ℕ

pub data WebhookOutcome : Type 0 where
  applied ignored unmatched : WebhookOutcome

-- A callback as the provider's envelope is understood: `ProviderEvent` of
-- packages/domain/src/provider/provider-event.ts.
pub data ProviderEvent : Type 0 where
  message_acknowledgement :
      (provider_message_id : Text) → DeliveryAcknowledgement → (from_us : Bool) → ProviderEvent
  session_status :
      ProviderSessionStatus
      → (phone_number push_name : Option Text) → Option AccountLimits
      → ProviderEvent
  unsupported : ProviderEvent

pub record WebhookDelivery : Type 0 where
  pub id : ℕ
  pub application_id : ℕ
  pub whatsapp_session_id : ℕ
  pub provider_event_id : Text
  pub event : ProviderEvent
  pub received_at : ℕ
  pub processed_at : Option ℕ
  pub processing_attempts : ℕ
  pub outcome : Option WebhookOutcome

pub data KeyState : Type 0 where
  in_flight completed : KeyState

pub record IdempotencyKey : Type 0 where
  pub id : ℕ
  pub application_id : ℕ
  pub key : Text
  pub request_path : Text
  pub request_fingerprint : Text
  pub state : KeyState
  pub lock_token : ℕ
  -- `responseBody.notificationIds`, which only a batch records
  pub notification_ids : Option (List ℕ)
  pub resource_id : Option ℕ
  pub expires_at : ℕ

-- The tables, and what was handed to the queue, which lives in the same database.
pub record Database : Type 0 where
  pub applications : List Application
  pub notifications : List Notification
  pub events : List Event
  pub attempts : List SendAttempt
  pub sessions : List WhatsAppSession
  pub deliveries : List WebhookDelivery
  pub idempotency_keys : List IdempotencyKey
  pub jobs : List Job
