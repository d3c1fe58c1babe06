-- ===== src/Contract/Others.antt =====
-- The steps of maintenance, of callbacks and of cancelling.
use whatsapp_notification_pl.Prelude.{
  ℕ, ◌+◌, inl, inr, Bool, true, false, Option, none, some, List, [], ◌∷◌, if◌then◌else◌, Bool-cases,
  Text,
}
use whatsapp_notification_pl.Database.Records.{
  Notification, WhatsAppSession, Job, ProviderEvent, WebhookDelivery, Database,
}
use whatsapp_notification_pl.Database.Sessions
use whatsapp_notification_pl.Domain.Status.{is_cancellable_notification_status}
use whatsapp_notification_pl.Domain.AccountLimits.{AccountLimits}
use whatsapp_notification_pl.Domain.SessionStatus.{ProviderSessionStatus}
use whatsapp_notification_pl.Configuration.{Configuration}
use whatsapp_notification_pl.Program.{SendTextMessageInput}
use whatsapp_notification_pl.Database.Records.{Database}
use whatsapp_notification_pl.Program.Logic.{
  Every, if-Every, >>=-Every, >>-Every, now-Every, atomic-Every, query-Every, steps,
}
use whatsapp_notification_pl.Contract.{Admits}
use whatsapp_notification_pl.Contract.Connections.{record_limits-Every, doubt_reported_limits-Every}
use whatsapp_notification_pl.Database.Deliveries
use whatsapp_notification_pl.Domain.Acknowledgement.{
  DeliveryAcknowledgement, is_failure_acknowledgement,
}
use whatsapp_notification_pl.Services.Maintenance.{
  release_all, reap_stuck_claims, requeue_all, requeue_due_notifications, run_once,
}
use whatsapp_notification_pl.Services.Webhooks.{
  ProcessResult, returned, thrown, note_session_limits, report_limits, apply_session_status,
  advance, report_unmatched, apply_acknowledgement, apply_event, finish, process,
}
use whatsapp_notification_pl.Services.Queries.{
  cancel_now, cancel_existing, cancel, cancel_all, cancel_waiting,
}

module _ {Φ : Database → Database → Type 0} (S : SendTextMessageInput → Type 0) (C : Admits Φ) where
  release_all-Every : (t k : ℕ) (ns : List Notification) → Every Φ S (release_all t k ns)
  unfolding release_all
  release_all-Every t k [] = tt
  release_all-Every t k (n ∷ ns) =
      >>=-Every Φ S _ _ (atomic-Every Φ S _ (C.release n t))
        (λ b. release_all-Every t (if b then k + 1 else k) ns)

  reap_stuck_claims-Every : (config : Configuration) → Every Φ S (reap_stuck_claims config)
  unfolding reap_stuck_claims
  reap_stuck_claims-Every config = search (steps, C.stays, release_all-Every)

  requeue_all-Every :
      (accepts : List Job → Job → Bool) (t k : ℕ) (ns : List Notification)
      → Every Φ S (requeue_all accepts t k ns)
  unfolding requeue_all whatsapp_notification_pl.Database.Notifications.enqueue_in_transaction
  requeue_all-Every accepts t k [] = tt
  requeue_all-Every accepts t k (n ∷ ns) =
      >>=-Every Φ S _ _ (atomic-Every Φ S _ (C.job _))
        (λ b. requeue_all-Every accepts t (if b then k + 1 else k) ns)

  requeue_due_notifications-Every :
      (accepts : List Job → Job → Bool) → Every Φ S (requeue_due_notifications accepts)
  unfolding requeue_due_notifications
  requeue_due_notifications-Every accepts = search (steps, C.stays, requeue_all-Every)

  pub run_once-Every :
      (accepts : List Job → Job → Bool) (config : Configuration)
      → Every Φ S (run_once accepts config)
  unfolding run_once
  run_once-Every accepts config =
      search (steps, reap_stuck_claims-Every, requeue_due_notifications-Every)

  advance-Every :
      (n : Notification) (received : DeliveryAcknowledgement) → Every Φ S (advance n received)
  unfolding advance
  advance-Every n received = search (steps, C.acknowledge)

  report_unmatched-Every : (d : WebhookDelivery) → Every Φ S (report_unmatched d)
  unfolding report_unmatched
  report_unmatched-Every d = search steps

  apply_acknowledgement-Every :
      (d : WebhookDelivery) (m : Text) (ack : DeliveryAcknowledgement) (b : Bool)
      → Every Φ S (apply_acknowledgement d m ack b)
  unfolding apply_acknowledgement
  apply_acknowledgement-Every d m ack false = tt
  apply_acknowledgement-Every d m ack true =
      >>-Every Φ S _ _
        (if-Every Φ S (is_failure_acknowledgement ack) _ _ (doubt_reported_limits-Every S C _) tt)
        (>>=-Every Φ S _ _ (query-Every Φ S _ C.stays)
          (elim [ none ↦ report_unmatched-Every d | some n ↦ advance-Every n ack ]))

  finish-Every : (id : ℕ) (r : ProcessResult) → Every Φ S (finish id r)
  unfolding finish Deliveries.mark_processed
  finish-Every id thrown = tt
  finish-Every id (returned o) = search (steps, C.deliveries)

  note_session_limits-Every :
      (config : Configuration) (limits : AccountLimits) (o : Option WhatsAppSession)
      → Every Φ S (note_session_limits config limits o)
  unfolding note_session_limits
  note_session_limits-Every config limits none = tt
  note_session_limits-Every config limits (some s) =
      record_limits-Every S C config s (some limits) false

  report_limits-Every :
      (config : Configuration) (d : WebhookDelivery) (o : Option AccountLimits)
      → Every Φ S (report_limits config d o)
  unfolding report_limits
  report_limits-Every config d none = tt
  report_limits-Every config d (some limits) = search (steps, C.stays, note_session_limits-Every)

  apply_session_status-Every :
      (config : Configuration) (d : WebhookDelivery) (status : ProviderSessionStatus)
      (phone_number push_name : Option Text) (limits : Option AccountLimits)
      → Every Φ S (apply_session_status config d status phone_number push_name limits)
  unfolding apply_session_status Sessions.record_status
  apply_session_status-Every config d status phone_number push_name limits =
      search (steps, C.sessions, report_limits-Every)

  apply_event-Every :
      (config : Configuration) (d : WebhookDelivery) (e : ProviderEvent)
      → Every Φ S (apply_event config d e)
  unfolding apply_event
  apply_event-Every config d (ProviderEvent.message_acknowledgement m ack from_us) =
      apply_acknowledgement-Every d m ack from_us
  apply_event-Every config d (ProviderEvent.session_status status phone push limits) =
      apply_session_status-Every config d status phone push limits
  apply_event-Every config d ProviderEvent.unsupported = tt

  pub process-Every :
      (config : Configuration) (delivery_id : ℕ) → Every Φ S (process config delivery_id)
  unfolding process Deliveries.claim_for_processing
  process-Every config id =
      >>=-Every Φ S _ _ (atomic-Every Φ S _ (λ db. C.deliveries _ db))
        (elim [ none ↦ tt | some d ↦ search (steps, apply_event-Every, finish-Every) ])

  cancel_existing-Every :
      (n : Notification) (application_id : ℕ) (correlation_id : Option ℕ)
      → Every Φ S (cancel_existing n application_id correlation_id)
  unfolding cancel_existing cancel_now
  cancel_existing-Every n a c = elim (Bool-cases (is_cancellable_notification_status n.status)) [
    | inl can ↦ rw can (
        >>=-Every Φ S _ _ (now-Every Φ S) (λ t. atomic-Every Φ S _ (λ db. C.cancel n a c t db can)))
    | inr cannot ↦ rw cannot tt
  ]

  pub cancel-Every :
      (application_id notification_id : ℕ) (correlation_id : Option ℕ)
      → Every Φ S (cancel application_id notification_id correlation_id)
  unfolding cancel
  cancel-Every a i c =
      >>=-Every Φ S _ _ (query-Every Φ S _ C.stays)
        (elim [ none ↦ tt | some n ↦ cancel_existing-Every n a c ])

  cancel_all-Every :
      (application_id : ℕ) (session_id correlation_id : Option ℕ)
      → Every Φ S (cancel_all application_id session_id correlation_id)
  unfolding cancel_all
  cancel_all-Every a s c = search (steps, C.cancel_waiting) depth 7

  pub cancel_waiting-Every :
      (application_id : ℕ) (session_id correlation_id : Option ℕ)
      → Every Φ S (cancel_waiting application_id session_id correlation_id)
  unfolding cancel_waiting
  cancel_waiting-Every a none c = cancel_all-Every a none c
  cancel_waiting-Every a (some s) c =
      >>=-Every Φ S _ _ (query-Every Φ S _ C.stays)
        (elim [ none ↦ tt | some found ↦ cancel_all-Every a (some s) c ])
