-- ===== src/Services/Maintenance.antt =====
-- packages/composition/src/notification/notification-maintenance.service.ts: releasing the claims
-- of dead workers and re-sending lost jobs. Pruning the rate limiter, a call of another service, is
-- left out.
use whatsapp_notification_pl.Prelude.{
  ℕ, ◌+◌, ◌-◌, ◌*◌, Bool, true, false, none, some, List, [], ◌∷◌, if◌then◌else◌, get_or,
}
use whatsapp_notification_pl.Database.Records.{Notification, EventType, Payload, Job, Database}
use whatsapp_notification_pl.Database.Notifications
use whatsapp_notification_pl.Database.Notifications.{Changes, no_changes}
use whatsapp_notification_pl.Domain.Status.{processing, retrying}
use whatsapp_notification_pl.Configuration.{Configuration}
use whatsapp_notification_pl.Program.{Prog, done, ◌>>=◌, now, atomic, query}
use whatsapp_notification_pl.Services.Dispatch.{dispatch_job}

abbrev pub maintenance_batch_size : ℕ
maintenance_batch_size = 200

abbrev pub repair_job : Notification → (start_after : ℕ) → Job
repair_job notification start_after =
    dispatch_job (get_or notification.correlation_id notification.id) notification.id
      notification.application_id (some start_after)

-- The transaction of `releaseClaim`, and whether it released anything.
unfoldable pub release_transaction : Notification → (now : ℕ) → Database → Database × Bool
release_transaction notification t db =
    let (db', released) =
      Notifications.apply_transition notification.application_id notification.id processing retrying
        (record no_changes {
          next_attempt_at = some (some t);
          claim_token = some none;
          claimed_at = some none;
        })
        t db in
    elim released [
      | none ↦ (db', false)
      | some row ↦ (
        Notifications.hand_to_queue (repair_job notification t) (
            Notifications.append_event
              (record {
                application_id = notification.application_id;
                notification_id = notification.id;
                event_type = EventType.claim_reaped;
                from_status = some processing;
                to_status = some retrying;
                attempt_number = some notification.attempt_count;
                payload = Payload.reaping notification.claimed_at;
                correlation_id = notification.correlation_id;
              })
              db'),
        true,
      )
    ]

unfoldable pub release_all : (now reaped : ℕ) → List Notification → Prog ℕ
release_all t reaped [] = done reaped
release_all t reaped (notification ∷ stuck) = do
  is_released ← atomic (release_transaction notification t)
  release_all t (if is_released then reaped + 1 else reaped) stuck

unfoldable pub reap_stuck_claims : Configuration → Prog ℕ
reap_stuck_claims config = do
  t ← now
  stuck ← query (
      Notifications.find_stuck_claims (t - config.stuck_claim_timeout_seconds * 1000)
        maintenance_batch_size)
  release_all t 0 stuck

-- Whether the queue takes a job on top of those that it was given is for the queue to say.
module _ (accepts : List Job → Job → Bool) where
  unfoldable pub requeue_all : (now requeued : ℕ) → List Notification → Prog ℕ
  requeue_all t requeued [] = done requeued
  requeue_all t requeued (notification ∷ due) = do
    is_accepted ← atomic (Notifications.enqueue_in_transaction accepts (repair_job notification t))
    requeue_all t (if is_accepted then requeued + 1 else requeued) due

  unfoldable pub requeue_due_notifications : Prog ℕ
  requeue_due_notifications = do
    t ← now
    due ← query (Notifications.find_due_for_dispatch t maintenance_batch_size)
    requeue_all t 0 due

  -- The numbers of claims released and of jobs that the queue took. The pruning that ends the run is
  -- Services.RateLimits.prune, on a table that nothing here reads.
  unfoldable pub run_once : Configuration → Prog (ℕ × ℕ)
  run_once config = do
    reaped_claims ← reap_stuck_claims config
    requeued_notifications ← requeue_due_notifications
    done (reaped_claims, requeued_notifications)
