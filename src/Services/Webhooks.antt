-- ===== src/Services/Webhooks.antt =====
-- packages/composition/src/webhook/process-webhook.service.ts: applying a recorded callback. The
-- callback is taken as the event that the adapter reads it as; details for people are left out.
use whatsapp_notification_pl.Prelude.{
  ℕ, ◌-◌, Bool, true, false, not, ◌&&◌, Option, none, some, ltb, if◌then◌else◌, get_or, is_some,
  Text,
}
use whatsapp_notification_pl.Database.Records.{
  Notification, EventType, Payload, WhatsAppSession, WebhookOutcome, applied, ignored, unmatched,
  ProviderEvent, WebhookDelivery, Database,
}
use whatsapp_notification_pl.Database.Notifications
use whatsapp_notification_pl.Database.Notifications.{Changes, no_changes}
use whatsapp_notification_pl.Database.Sessions
use whatsapp_notification_pl.Domain.Status.{NotificationStatus, sent, delivered, failed, ◌is◌}
use whatsapp_notification_pl.Domain.Failure.{FailureClassification, provider_acknowledgement_error}
use whatsapp_notification_pl.Domain.AccountLimits.{AccountLimits}
use whatsapp_notification_pl.Domain.SessionStatus.{ProviderSessionStatus}
use whatsapp_notification_pl.Configuration.{Configuration}
use whatsapp_notification_pl.Program.{Prog, done, ◌>>=◌, ◌>>◌, now, atomic, write, query}
use whatsapp_notification_pl.Database.Deliveries
use whatsapp_notification_pl.Domain.Acknowledgement.{
  DeliveryAcknowledgement, pending, value, value_eq, ◌is◌ as ◌is_acknowledgement◌,
  to_delivery_acknowledgement, merge_acknowledgements, is_delivered_acknowledgement,
  is_read_acknowledgement, is_failure_acknowledgement,
}
use whatsapp_notification_pl.Services.Connections.{record_limits, doubt_reported_limits}

abbrev pub unmatched_grace_milliseconds : ℕ
unmatched_grace_milliseconds = 60_000

-- `thrown` hands the job back to the queue.
pub data ProcessResult : Type 0 where
  returned : WebhookOutcome → ProcessResult
  thrown : ProcessResult

unfoldable pub note_session_limits :
    Configuration → AccountLimits → Option WhatsAppSession → Prog (Unit {0})
note_session_limits config reported none = done tt
note_session_limits config reported (some session) =
    record_limits config session (some reported) false

unfoldable pub report_limits :
    Configuration → WebhookDelivery → Option AccountLimits → Prog (Unit {0})
report_limits config delivery none = done tt
report_limits config delivery (some reported) = do
  session ← query (Sessions.find_by_id_without_tenant_scope delivery.whatsapp_session_id)
  note_session_limits config reported session

unfoldable pub apply_session_status :
    Configuration
    → WebhookDelivery
    → ProviderSessionStatus
    → (phone_number push_name : Option Text) → Option AccountLimits
    → Prog ProcessResult
apply_session_status config delivery status phone_number push_name limits = do
  t ← now
  write (Sessions.record_status delivery.whatsapp_session_id status phone_number push_name none t)
  report_limits config delivery limits
  done (returned applied)

unfoldable pub resolve_status : NotificationStatus → DeliveryAcknowledgement → NotificationStatus
resolve_status current merged =
    if not (current is sent)
    then current
    else if is_failure_acknowledgement merged
    then failed
    else if is_delivered_acknowledgement merged
    then delivered
    else current

-- `condition && column === null && { column: now }`
abbrev pub stamp : Bool → Option ℕ → ℕ → Option (Option ℕ)
stamp condition column t = if condition && not (is_some column) then some (some t) else none

unfoldable pub acknowledgement_changes :
    Notification → DeliveryAcknowledgement → (now : ℕ) → Changes
acknowledgement_changes notification merged t = record no_changes {
  provider_acknowledgement = some (value merged);
  delivered_at = stamp (is_delivered_acknowledgement merged) notification.delivered_at t;
  read_at = stamp (is_read_acknowledgement merged) notification.read_at t;
  failed_at = if is_failure_acknowledgement merged then some (some t) else none;
  failure_code =
      if is_failure_acknowledgement merged
      then some (some provider_acknowledgement_error)
      else none;
  failure_classification =
      if is_failure_acknowledgement merged
      then some (some FailureClassification.permanent)
      else none;
}

-- The transaction of `recordAcknowledgement`: the event is written whether or not the row was moved.
unfoldable pub acknowledgement_transaction :
    Notification → (merged received : DeliveryAcknowledgement) → (now : ℕ) → Database → Database
acknowledgement_transaction notification merged received t db =
    Notifications.append_event
      (record {
        application_id = notification.application_id;
        notification_id = notification.id;
        event_type = EventType.acknowledged;
        from_status = some notification.status;
        to_status = some (resolve_status notification.status merged);
        attempt_number = some notification.attempt_count;
        payload = Payload.receipt received merged;
        correlation_id = notification.correlation_id;
      })
      (Notifications.apply_transition notification.application_id notification.id
        notification.status (resolve_status notification.status merged)
        (acknowledgement_changes notification merged t) t db).0

-- The acknowledgement that a stored value stands for.
abbrev pub stored_acknowledgement : Notification → DeliveryAcknowledgement
stored_acknowledgement notification =
    get_or (to_delivery_acknowledgement notification.provider_acknowledgement) pending

unfoldable pub advance : Notification → (received : DeliveryAcknowledgement) → Prog ProcessResult
advance notification received =
    let current = stored_acknowledgement notification in
    let merged = merge_acknowledgements current received in
    if merged is_acknowledgement current
      && value_eq notification.provider_acknowledgement (value current)
    then done (returned ignored)
    else do
      t ← now
      write (acknowledgement_transaction notification merged received t)
      done (returned applied)

unfoldable pub report_unmatched : WebhookDelivery → Prog ProcessResult
report_unmatched delivery = do
  t ← now
  done (
      if ltb (t - delivery.received_at) unmatched_grace_milliseconds
      then thrown
      else returned unmatched)

unfoldable pub apply_acknowledgement :
    WebhookDelivery
    → (provider_message_id : Text) → DeliveryAcknowledgement
    → (from_us : Bool) → Prog ProcessResult
apply_acknowledgement delivery message_id acknowledgement false = done (returned ignored)
apply_acknowledgement delivery message_id acknowledgement true = do
  if is_failure_acknowledgement acknowledgement
      then doubt_reported_limits delivery.whatsapp_session_id
      else done tt
  notification ←
      query (Notifications.find_by_provider_message_id delivery.whatsapp_session_id message_id)
  elim notification [
    | none ↦ report_unmatched delivery
    | some found ↦ advance found acknowledgement
  ]

unfoldable pub apply_event : Configuration → WebhookDelivery → ProviderEvent → Prog ProcessResult
apply_event config delivery (ProviderEvent.message_acknowledgement message_id ack from_us) =
    apply_acknowledgement delivery message_id ack from_us
apply_event config delivery (ProviderEvent.session_status status phone_number push_name limits) =
    apply_session_status config delivery status phone_number push_name limits
apply_event config delivery ProviderEvent.unsupported = done (returned ignored)

unfoldable pub finish : (delivery_id : ℕ) → ProcessResult → Prog ProcessResult
finish delivery_id thrown = done thrown
finish delivery_id (returned outcome) = do
  t ← now
  write (Deliveries.mark_processed delivery_id outcome t)
  done (returned outcome)

unfoldable pub process : Configuration → (delivery_id : ℕ) → Prog ProcessResult
process config delivery_id = do
  delivery ← atomic (Deliveries.claim_for_processing delivery_id)
  elim delivery [
    | none ↦ done (returned ignored)
    | some claimed ↦ do result ← apply_event config claimed claimed.event; finish delivery_id result
  ]
