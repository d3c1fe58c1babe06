-- ===== src/Guarantees/Retries/Claims.antt =====
-- The claim, the attempt and the transitions of the dispatcher keep every retry awaited.
use whatsapp_notification_pl.Prelude.{
  ℕ, ◌≡◌, refl, ◌≢◌, ◌⊎◌, inl, inr, true, false, ◌&&◌, none, some, [], ◌∷◌, ◌++◌, arith, ◌==◌,
  Bool-cases, Option-cases, find?, Text,
}
use mathlib.Core.Path.{subst}
use whatsapp_notification_pl.Database.Records.{Notification, Job, Database}
use whatsapp_notification_pl.Database.SendAttempts
use whatsapp_notification_pl.Domain.Status.{
  NotificationStatus, scheduled, queued, processing, sent, retrying, cancelled, ◌is◌,
}
use whatsapp_notification_pl.Database.Notifications.{
  promote_scheduled, claim_for_dispatch, begin_attempt, apply_transition, apply_changes,
  append_event, hand_to_queue, has_key, is_due, is_claimable,
}
use whatsapp_notification_pl.Services.Dispatch.{
  DispatchInput, TransitionStep, record_transition, dispatch_job,
}
use whatsapp_notification_pl.Services.Dispatch.Sending.{attempt_transaction}
use whatsapp_notification_pl.Contract.{IsSound}
use whatsapp_notification_pl.Guarantees.Rows.{is-eq}
use whatsapp_notification_pl.Guarantees.Transactions.{
  attempt-notifications, transition-notifications,
}
use whatsapp_notification_pl.Guarantees.Retries.Awaits.{
  is_job_for, Awaited, Keeps, Awaited-more, All-map, All-update, update-none, leaves-Awaits,
  waits-Awaits,
}

pub ==-refl : (n : ℕ) → (n == n) ≡ true
==-refl n = ground arith

pub is_job_for-same :
    (n t : ℕ) (j : Job) → j.notification_id ≡ n → j.start_after ≡ some t → is_job_for n t j ≡ true
is_job_for-same n t j e f = rw (e, f) (rw (==-refl n, ==-refl t) refl)

pub queued_differs : queued ≢ retrying
queued_differs h = cc

pub processing_differs : processing ≢ retrying
processing_differs h = cc

pub sent_differs : sent ≢ retrying
sent_differs h = cc

pub cancelled_differs : cancelled ≢ retrying
cancelled_differs h = cc

pub differs : (s : NotificationStatus) → (s is retrying) ≡ false → s ≢ retrying
differs s h e = cc (subst (λ x. (x is retrying) ≡ false) e h)

pub promote-Keeps : (a n t : ℕ) (db : Database) → Keeps db (promote_scheduled a n t db).0
unfolding promote_scheduled
promote-Keeps a n t db =
    All-update _ _ (λ r. has_key a n r && (r.status is scheduled && is_due r.scheduled_at t))
      (λ r. record r { status = queued; updated_at = t }) db.notifications (λ r p. p)
      (λ r e p h. absurd (queued_differs h))

pub claim-Keeps : (a n token t : ℕ) (db : Database) → Keeps db (claim_for_dispatch a n token t db).0
unfolding claim_for_dispatch
claim-Keeps a n token t db =
    All-update _ _ (λ r. has_key a n r && is_claimable t r)
      (λ r. record r {
        status = processing;
        claim_token = some token;
        claimed_at = some t;
        updated_at = t;
      })
      db.notifications (λ r p. p) (λ r e p h. absurd (processing_differs h))

pub attempt-jobs :
    (n : Notification) (token : ℕ) (chat : Text) (t : ℕ) (db : Database)
    → (attempt_transaction n token chat t db).0.jobs ≡ db.jobs
unfolding attempt_transaction SendAttempts.begin begin_attempt
attempt-jobs n token chat t db = ground arith

pub attempt-Keeps :
    (n : Notification) (token : ℕ) (chat : Text) (t : ℕ) (db : Database)
    → Keeps db (attempt_transaction n token chat t db).0
unfolding begin_attempt
attempt-Keeps n token chat t db =
    rw (attempt-notifications n token chat t db, attempt-jobs n token chat t db)
      (All-update (Awaited db.jobs) (Awaited db.jobs) _ _ db.notifications (λ r p. p) (λ r e p. p))

pub transition-jobs-none :
    (n : Notification) (step : TransitionStep) (input : DispatchInput) (db : Database)
    → (step.enqueue_at ≡ none)
      ⊎ (find? (λ r. has_key n.application_id n.id r && r.status is processing) db.notifications
          ≡ none)
    → (record_transition n step input db).jobs ≡ db.jobs
unfolding record_transition apply_transition append_event hand_to_queue
transition-jobs-none n step input db h = ground arith

pub transition-jobs-some :
    (n : Notification) (step : TransitionStep) (input : DispatchInput) (db : Database) (t : ℕ)
    (r : Notification)
    → step.enqueue_at ≡ some t
    → find? (λ r. has_key n.application_id n.id r && r.status is processing) db.notifications
      ≡ some r
    → (record_transition n step input db).jobs
      ≡ db.jobs ++ dispatch_job input.correlation_id n.id n.application_id (some t) ∷ []
unfolding record_transition apply_transition append_event hand_to_queue
transition-jobs-some n step input db t r e f = ground arith

module _ (n : Notification) (step : TransitionStep) (input : DispatchInput) (db : Database) where
  transition-absent :
      find? (λ r. has_key n.application_id n.id r && r.status is processing) db.notifications ≡ none
      → Keeps db (record_transition n step input db)
  unfolding apply_transition
  transition-absent absent h = rw (transition-notifications n step input db) (
      rw (transition-jobs-none n step input db (inr absent)) (
        rw
          (update-none _ (apply_changes step.next_status step.now step.changes) db.notifications
            absent)
          h))

  transition-away :
      step.next_status ≢ retrying
      → (r : Notification)
      → find? (λ s. has_key n.application_id n.id s && s.status is processing) db.notifications
        ≡ some r
      → Keeps db (record_transition n step input db)
  unfolding apply_transition
  transition-away away r found h = elim (Option-cases step.enqueue_at) [
    | inl e ↦ rw (transition-notifications n step input db) (
        rw (transition-jobs-none n step input db (inl e)) (
          leaves-Awaits _ _ processing step.next_status step.changes step.now db.notifications _
            away h))
    | inr (t, e) ↦ rw (transition-notifications n step input db) (
        rw (transition-jobs-some n step input db t r e found) (
          All-map _ _ _ (Awaited-more db.jobs _) (
            leaves-Awaits _ _ processing step.next_status step.changes step.now db.notifications _
              away h)))
  ]

  transition-retrying :
      (t : ℕ)
      → step.changes.next_attempt_at ≡ some (some t)
      → step.enqueue_at ≡ some t
      → (r : Notification)
      → find? (λ s. has_key n.application_id n.id s && s.status is processing) db.notifications
        ≡ some r
      → Keeps db (record_transition n step input db)
  unfolding apply_transition
  transition-retrying t e f r found h = rw (transition-notifications n step input db) (
      rw (transition-jobs-some n step input db t r f found) (
        waits-Awaits _ _ processing step.next_status step.changes step.now t _ db.notifications _ e
          (is_job_for-same n.id t (dispatch_job input.correlation_id n.id n.application_id (some t))
            refl refl)
          h))

  pub transition-Keeps : IsSound step → Keeps db (record_transition n step input db)
  transition-Keeps sound =
      elim (Option-cases
        (find? (λ r. has_key n.application_id n.id r && r.status is processing) db.notifications)) [
          | inl absent ↦ transition-absent absent
          | inr (r, found) ↦ elim (Bool-cases (step.next_status is retrying)) [
            | inl same ↦
                let (t, e, f) = sound.scheduled_job (is-eq step.next_status retrying same) in
                transition-retrying t e f r found
            | inr other ↦ transition-away (λ h. differs step.next_status other h) r found
          ]
        ]
