-- ===== src/Services/Queries.antt =====
-- packages/composition/src/notification/notification-query.service.ts: cancelling. Reading back and
-- the signed cursors are left out.
use whatsapp_notification_pl.Prelude.{ℕ, Option, none, some, map, if◌then◌else◌, length}
use whatsapp_notification_pl.Database.Records.{Notification, EventType, Payload, Event, Database}
use whatsapp_notification_pl.Database.Notifications
use whatsapp_notification_pl.Database.Notifications.{Changes, no_changes}
use whatsapp_notification_pl.Database.Sessions
use whatsapp_notification_pl.Domain.Status.{
  NotificationStatus, cancelled, is_cancellable_notification_status,
}
use whatsapp_notification_pl.Program.{Prog, done, ◌>>=◌, now, atomic, query}

pub data CancelResult : Type 0 where
  cancelled_row : Notification → CancelResult
  notification_not_found : CancelResult
  notification_not_cancellable : CancelResult

-- The update and its event; nothing of the two is seen before both are committed.
unfoldable pub cancel_transaction :
    Notification
    → (application_id : ℕ) → (correlation_id : Option ℕ) → (now : ℕ) → Database
    → Database × CancelResult
cancel_transaction existing application_id correlation_id t db =
    let (db', moved) =
      Notifications.apply_transition application_id existing.id existing.status cancelled
        (record no_changes { cancelled_at = some (some t) }) t db in
    elim moved [
      | none ↦ (db', notification_not_cancellable)
      | some row ↦ (
        Notifications.append_event
            (record {
              application_id = application_id;
              notification_id = existing.id;
              event_type = EventType.was_cancelled;
              from_status = some existing.status;
              to_status = some cancelled;
              attempt_number = none;
              payload = Payload.empty;
              correlation_id = correlation_id;
            })
            db',
        cancelled_row row,
      )
    ]

unfoldable pub cancel_now :
    Notification → (application_id : ℕ) → (correlation_id : Option ℕ) → Prog CancelResult
cancel_now existing application_id correlation_id = do
  t ← now
  atomic (cancel_transaction existing application_id correlation_id t)

unfoldable pub cancel_existing :
    Notification → (application_id : ℕ) → (correlation_id : Option ℕ) → Prog CancelResult
cancel_existing existing application_id correlation_id =
    if is_cancellable_notification_status existing.status
    then cancel_now existing application_id correlation_id
    else done notification_not_cancellable

unfoldable pub cancel :
    (application_id notification_id : ℕ) → (correlation_id : Option ℕ) → Prog CancelResult
cancel application_id notification_id correlation_id = do
  existing ← query (Notifications.find_by_id application_id notification_id)
  elim existing [
    | none ↦ done notification_not_found
    | some found ↦ cancel_existing found application_id correlation_id
  ]

-- The timeline entries of one cancellation of many.
abbrev pub cancelled_event : (application_id : ℕ) → Option ℕ → ℕ × NotificationStatus → Event
cancelled_event application_id correlation_id row = record {
  application_id = application_id;
  notification_id = row.0;
  event_type = EventType.was_cancelled;
  from_status = some row.1;
  to_status = some cancelled;
  attempt_number = none;
  payload = Payload.empty;
  correlation_id = correlation_id;
}

-- The number of notifications cancelled.
unfoldable pub cancel_waiting_transaction :
    (application_id : ℕ)
    → (session_id correlation_id : Option ℕ) → (now : ℕ) → Database
    → Database × ℕ
cancel_waiting_transaction application_id session_id correlation_id t db =
    let (db', rows) = Notifications.cancel_waiting application_id session_id t db in
    (
      Notifications.append_events (map (cancelled_event application_id correlation_id) rows) db',
      length rows,
    )

unfoldable pub cancel_all :
    (application_id : ℕ) → (session_id correlation_id : Option ℕ) → Prog (Option ℕ)
cancel_all application_id session_id correlation_id = do
  t ← now
  count ← atomic (cancel_waiting_transaction application_id session_id correlation_id t)
  done (some count)

-- `none` is the error that the connection does not exist.
unfoldable pub cancel_waiting :
    (application_id : ℕ) → (session_id correlation_id : Option ℕ) → Prog (Option ℕ)
cancel_waiting application_id none correlation_id = cancel_all application_id none correlation_id
cancel_waiting application_id (some session_id) correlation_id = do
  session ← query (Sessions.find_by_id application_id session_id)
  elim session [
    | none ↦ done none
    | some found ↦ cancel_all application_id (some session_id) correlation_id
  ]
