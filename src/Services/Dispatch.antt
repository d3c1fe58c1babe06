-- ===== src/Services/Dispatch.antt =====
-- packages/composition/src/notification/dispatch-notification.service.ts: delivering one
-- notification. Logging and the correlation context are left out, and the texts of failures. Here the
-- claim and the transitions; the children have the waits, the send and the whole dispatch.
pub mod Waiting
pub mod Sending
pub mod Entry
use whatsapp_notification_pl.Prelude.{
  ℕ, ◌-◌, ◌*◌, max, Bool, ◌&&◌, Option, none, some, ltb, if◌then◌else◌, get_or, is_some,
}
use whatsapp_notification_pl.Database.Records.{
  Notification, EventType, Payload, UnknownOutcomePolicy, retry_policy, Job, Database,
}
use whatsapp_notification_pl.Database.Notifications
use whatsapp_notification_pl.Database.Notifications.{Changes, no_changes}
use whatsapp_notification_pl.Database.SendAttempts
use whatsapp_notification_pl.Database.Sessions
use whatsapp_notification_pl.Domain.Status.{
  NotificationStatus, scheduled, queued, processing, retrying, failed, ◌is◌,
}
use whatsapp_notification_pl.Domain.Failure.{
  ◌is◌ as ◌is_code◌, ProviderFailureCode, session_missing, ProviderFailure,
}
use whatsapp_notification_pl.Domain.RetryPolicy.{default_retry_policy, compute_next_attempt_at}
use whatsapp_notification_pl.Domain.PhoneNumber.{mask_phone_number_for_log}
use whatsapp_notification_pl.Configuration.{Configuration}
use whatsapp_notification_pl.Program.{
  Prog, done, ◌>>=◌, ◌>>◌, now, random_port, atomic, write, query,
}

abbrev pub pause_resumption_spread_seconds : ℕ
pause_resumption_spread_seconds = 60

unfoldable pub is_session_lost_by_provider : ProviderFailure → Bool
is_session_lost_by_provider failure =
    failure.code is_code session_missing && is_some failure.provider_status_code

pub record DispatchInput : Type 0 where
  pub application_id : ℕ
  pub notification_id : ℕ
  pub correlation_id : ℕ

pub data DispatchOutcome : Type 0 where
  was_sent retry_scheduled has_failed deferred not_claimable : DispatchOutcome

pub data Detail : Type 0 where
  no_detail not_yet_scheduled not_yet_due worker_stopping send_pacing : Detail
  because_of : ProviderFailureCode → Detail

pub record DispatchResult : Type 0 where
  pub outcome : DispatchOutcome
  pub detail : Detail

abbrev pub result_of : DispatchOutcome → Detail → DispatchResult
result_of outcome detail = record { outcome = outcome; detail = detail }

pub data ClaimResult : Type 0 where
  claimed : Notification → ClaimResult
  unclaimable : ClaimResult
  not_due : (due_at : ℕ) → Detail → ClaimResult

pub record TransitionStep : Type 0 where
  pub next_status : NotificationStatus
  pub event_type : EventType
  pub attempt_number : Option ℕ
  pub changes : Changes
  pub payload : Payload
  pub enqueue_at : Option ℕ
  pub now : ℕ

abbrev pub dispatch_job : (correlation_id notification_id application_id : ℕ) → Option ℕ → Job
dispatch_job correlation_id notification_id application_id start_after = record {
  correlation_id = correlation_id;
  notification_id = notification_id;
  application_id = application_id;
  singleton_key = notification_id;
  start_after = start_after;
}

-- `status === expected && column !== null && column > now`, and the column
abbrev pub waits_until : NotificationStatus → NotificationStatus → Option ℕ → ℕ → Option ℕ
waits_until status expected none t = none
waits_until status expected (some due) t =
    if status is expected && ltb t due then some due else none

unfoldable pub explain_failed_claim : Option Notification → (now : ℕ) → ClaimResult
explain_failed_claim none t = unclaimable
explain_failed_claim (some existing) t =
    elim (waits_until existing.status scheduled existing.scheduled_at t) [
      | some due ↦ not_due due not_yet_scheduled
      | none ↦ elim (waits_until existing.status retrying existing.next_attempt_at t) [
        | some due ↦ not_due due not_yet_due
        | none ↦ unclaimable
      ]
    ]

-- The event of a promotion, a statement of its own.
unfoldable pub note_promotion : DispatchInput → Option Notification → Prog (Unit {0})
note_promotion input none = done tt
note_promotion input (some promoted) = write (
    Notifications.append_event (record {
      application_id = input.application_id;
      notification_id = input.notification_id;
      event_type = EventType.was_queued;
      from_status = some scheduled;
      to_status = some queued;
      attempt_number = none;
      payload = Payload.empty;
      correlation_id = some input.correlation_id;
    }))

unfoldable pub claim : DispatchInput → (claim_token : ℕ) → Prog ClaimResult
claim input claim_token = do
  t ← now
  promoted ← atomic (Notifications.promote_scheduled input.application_id input.notification_id t)
  note_promotion input promoted
  taken ←
      atomic
        (Notifications.claim_for_dispatch input.application_id input.notification_id claim_token t)
  elim taken [
    | some notification ↦ done (claimed notification)
    | none ↦ do
      existing ← query (Notifications.find_by_id input.application_id input.notification_id)
      done (explain_failed_claim existing t)
  ]

unfoldable pub reschedule : DispatchInput → (due_at : ℕ) → Prog (Unit {0})
reschedule input due_at = write (
    Notifications.hand_to_queue
      (dispatch_job input.correlation_id input.notification_id input.application_id (some due_at)))

-- Since when the notification has been free to go out.
abbrev pub eligible_since : Notification → ℕ
eligible_since notification = get_or notification.scheduled_at notification.created_at

-- Negative in the source when the clock is behind; every caller asks whether it exceeds a bound.
unfoldable pub milliseconds_since_due : Notification → Prog ℕ
milliseconds_since_due notification = do t ← now; done (t - eligible_since notification)

unfoldable pub has_outlived_delivery_window : Configuration → Notification → Prog Bool
has_outlived_delivery_window config notification = do
  age ← milliseconds_since_due notification
  done (ltb (config.maximum_lifetime_hours * 3_600_000) age)

unfoldable pub read_unknown_outcome_policy : (application_id : ℕ) → Prog UnknownOutcomePolicy
read_unknown_outcome_policy application_id =
    query (λ db. get_or (SendAttempts.find_delivery_settings application_id db) retry_policy)

-- The transaction of `transitionAndRecord`.
unfoldable pub record_transition :
    Notification → TransitionStep → DispatchInput → Database → Database
record_transition notification step input db =
    let (db', transitioned) =
      Notifications.apply_transition notification.application_id notification.id processing
        step.next_status step.changes step.now db in
    elim transitioned [
      | none ↦ db'
      | some row ↦
          let noted =
            Notifications.append_event
              (record {
                application_id = notification.application_id;
                notification_id = notification.id;
                event_type = step.event_type;
                from_status = some processing;
                to_status = some step.next_status;
                attempt_number = step.attempt_number;
                payload = step.payload;
                correlation_id = some input.correlation_id;
              })
              db' in
          elim step.enqueue_at [
            | none ↦ noted
            | some start_after ↦
                Notifications.hand_to_queue
                  (dispatch_job input.correlation_id notification.id notification.application_id
                    (some start_after))
                  noted
          ]
    ]

unfoldable pub retry :
    Notification
    → ProviderFailure
    → DispatchInput
    → (minimum_delay_seconds : ℕ) → (attempt_number : Option ℕ) → Prog DispatchResult
retry notification failure input minimum_delay_seconds attempt_number = do
  t ← now
  random ← random_port
  let floor = max minimum_delay_seconds (get_or failure.retry_after_seconds 0)
  let next_attempt_at =
      compute_next_attempt_at random default_retry_policy
        (max (get_or attempt_number notification.attempt_count) 1) t floor
  write (
      record_transition notification
        (record {
          next_status = retrying;
          event_type = EventType.retry_scheduled;
          attempt_number = attempt_number;
          changes = record no_changes {
            next_attempt_at = some (some next_attempt_at);
            failure_code = some (some failure.code);
            failure_classification = some (some failure.classification);
            claim_token = some none;
            claimed_at = some none;
          };
          payload =
              Payload.retry next_attempt_at failure.code failure.classification
                failure.provider_status_code;
          enqueue_at = some next_attempt_at;
          now = t;
        })
        input)
  done (result_of retry_scheduled (because_of failure.code))

unfoldable pub fail :
    Notification
    → ProviderFailure
    → DispatchInput
    → (attempt_number : Option ℕ) → Prog DispatchResult
fail notification failure input attempt_number = do
  t ← now
  write (
      record_transition notification
        (record {
          next_status = failed;
          event_type = EventType.failed;
          attempt_number = attempt_number;
          changes = record no_changes {
            failed_at = some (some t);
            failure_code = some (some failure.code);
            failure_classification = some (some failure.classification);
            claim_token = some none;
            claimed_at = some none;
            next_attempt_at = some none;
          };
          payload =
              Payload.failure (mask_phone_number_for_log notification.recipient_phone_number)
                failure.code failure.classification failure.provider_status_code;
          enqueue_at = none;
          now = t;
        })
        input)
  done (result_of has_failed (because_of failure.code))
