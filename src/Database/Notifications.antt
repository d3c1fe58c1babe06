-- ===== src/Database/Notifications.antt =====
-- packages/database/src/repositories/notification.repository.ts: the statements on notifications
-- and their events, and the queue's `enqueueInTransaction` (packages/queue/src). An update is the
-- function that the statement applies to the rows that meet its condition; the row that it returns
-- is the first of them as changed.
use whatsapp_notification_pl.Prelude.{
  ℕ, ◌+◌, Bool, false, ◌&&◌, ◌||◌, Option, none, some, List, [], ◌∷◌, ◌++◌, map, leb, ◌==◌, get_or,
  is_just, is_before, matches_session, map_option, is_text, take, find?, filter, order_by,
  update_where, Text,
}
use whatsapp_notification_pl.Database.Records.{Notification, Event, Job, Database}
use whatsapp_notification_pl.Domain.Status.{
  NotificationStatus, scheduled, queued, processing, retrying, cancelled, ◌is◌,
}
use whatsapp_notification_pl.Domain.Acknowledgement.{Value}
use whatsapp_notification_pl.Domain.Failure.{FailureClassification, ProviderFailureCode}

-- `undefined` leaves a column alone; `null` in a nullable column is `some none`.
pub record Changes : Type 0 where
  pub next_attempt_at : Option (Option ℕ)
  pub claim_token : Option (Option ℕ)
  pub claimed_at : Option (Option ℕ)
  pub recipient_chat_identifier : Option (Option Text)
  pub provider_message_id : Option (Option Text)
  pub provider_acknowledgement : Option Value
  pub sent_at : Option (Option ℕ)
  pub delivered_at : Option (Option ℕ)
  pub read_at : Option (Option ℕ)
  pub failed_at : Option (Option ℕ)
  pub cancelled_at : Option (Option ℕ)
  pub failure_code : Option (Option ProviderFailureCode)
  pub failure_classification : Option (Option FailureClassification)

abbrev pub no_changes : Changes
no_changes = record {
  next_attempt_at = none;
  claim_token = none;
  claimed_at = none;
  recipient_chat_identifier = none;
  provider_message_id = none;
  provider_acknowledgement = none;
  sent_at = none;
  delivered_at = none;
  read_at = none;
  failed_at = none;
  cancelled_at = none;
  failure_code = none;
  failure_classification = none;
}

-- `{ ...row, status, updatedAt, ...changes }`
abbrev pub apply_changes : NotificationStatus → ℕ → Changes → Notification → Notification
apply_changes next_status now c row = record row {
  status = next_status;
  updated_at = now;
  next_attempt_at = get_or c.next_attempt_at row.next_attempt_at;
  claim_token = get_or c.claim_token row.claim_token;
  claimed_at = get_or c.claimed_at row.claimed_at;
  recipient_chat_identifier = get_or c.recipient_chat_identifier row.recipient_chat_identifier;
  provider_message_id = get_or c.provider_message_id row.provider_message_id;
  provider_acknowledgement = get_or c.provider_acknowledgement row.provider_acknowledgement;
  sent_at = get_or c.sent_at row.sent_at;
  delivered_at = get_or c.delivered_at row.delivered_at;
  read_at = get_or c.read_at row.read_at;
  failed_at = get_or c.failed_at row.failed_at;
  cancelled_at = get_or c.cancelled_at row.cancelled_at;
  failure_code = get_or c.failure_code row.failure_code;
  failure_classification = get_or c.failure_classification row.failure_classification;
}

-- `UPDATE notifications SET change WHERE condition RETURNING *`
abbrev pub update_returning :
    (Notification → Bool)
    → (Notification → Notification)
    → Database
    → Database × Option Notification
update_returning condition change db = (
  record db { notifications = update_where condition change db.notifications },
  map_option change (find? condition db.notifications),
)

abbrev pub has_key : (application_id notification_id : ℕ) → Notification → Bool
has_key application_id notification_id row =
    row.id == notification_id && row.application_id == application_id

unfoldable pub find_by_id : (application_id notification_id : ℕ) → Database → Option Notification
find_by_id application_id notification_id db =
    find? (has_key application_id notification_id) db.notifications

unfoldable pub find_by_provider_message_id :
    (session_id : ℕ) → Text → Database → Option Notification
find_by_provider_message_id session_id provider_message_id db =
    find?
      (λ row.
        row.whatsapp_session_id == session_id
        && is_text row.provider_message_id provider_message_id)
      db.notifications

unfoldable pub insert : Notification → Database → Database
insert row db = record db { notifications = db.notifications ++ row ∷ [] }

unfoldable pub append_event : Event → Database → Database
append_event event db = record db { events = db.events ++ event ∷ [] }

-- The batches that the statement is split into are one list.
unfoldable pub append_events : List Event → Database → Database
append_events events db = record db { events = db.events ++ events }

-- What the callers that ignore the answer do: `jobs` is the sequence of what was handed to
-- `boss.send`, also of what the queue did not keep.
unfoldable pub hand_to_queue : Job → Database → Database
hand_to_queue job db = record db { jobs = db.jobs ++ job ∷ [] }

-- With the answer: whether the queue takes a job on top of those that it was given. A queue that
-- keeps one waiting job of each notification refuses another, and `boss.send` returns null.
unfoldable pub enqueue_in_transaction :
    (accepts : List Job → Job → Bool) → Job → Database → Database × Bool
enqueue_in_transaction accepts job db = (hand_to_queue job db, accepts db.jobs job)

-- `lte(column, now)`, which no null meets
abbrev pub is_due : Option ℕ → ℕ → Bool
is_due none now = false
is_due (some at) now = leb at now

abbrev pub is_claimable : ℕ → Notification → Bool
is_claimable now row =
    row.status is queued || (row.status is retrying && is_due row.next_attempt_at now)

unfoldable pub claim_for_dispatch :
    (application_id notification_id claim_token now : ℕ) → Database → Database × Option Notification
claim_for_dispatch application_id notification_id claim_token now =
    update_returning (λ row. has_key application_id notification_id row && is_claimable now row)
      (λ row. record row {
        status = processing;
        claim_token = some claim_token;
        claimed_at = some now;
        updated_at = now;
      })

abbrev pub attempt_count_of : Notification → ℕ
attempt_count_of row = row.attempt_count

unfoldable pub begin_attempt :
    (application_id notification_id claim_token : ℕ)
    → (recipient_chat_identifier : Text) → (now : ℕ) → Database
    → Database × Option ℕ
begin_attempt application_id notification_id claim_token chat now db =
    let (db', updated) =
      update_returning
        (λ row.
          has_key application_id notification_id row
          && (is_just row.claim_token claim_token && row.status is processing))
        (λ row. record row {
          attempt_count = row.attempt_count + 1;
          recipient_chat_identifier = some chat;
          updated_at = now;
        })
        db in
    (db', map_option attempt_count_of updated)

unfoldable pub promote_scheduled :
    (application_id notification_id now : ℕ) → Database → Database × Option Notification
promote_scheduled application_id notification_id now =
    update_returning
      (λ row.
        has_key application_id notification_id row
        && (row.status is scheduled && is_due row.scheduled_at now))
      (λ row. record row { status = queued; updated_at = now })

unfoldable pub find_stuck_claims : (claimed_before limit : ℕ) → Database → List Notification
find_stuck_claims claimed_before limit db = take limit (
    order_by (λ row. get_or row.claimed_at 0)
      (filter (λ row. row.status is processing && is_before row.claimed_at claimed_before)
        db.notifications))

unfoldable pub find_due_for_dispatch : (now limit : ℕ) → Database → List Notification
find_due_for_dispatch now limit db = take limit (
    order_by (λ row. row.created_at)
      (filter
        (λ row. is_claimable now row || (row.status is scheduled && is_due row.scheduled_at now))
        db.notifications))

unfoldable pub apply_transition :
    (application_id notification_id : ℕ)
    → (expected_status next_status : NotificationStatus) → Changes
    → (now : ℕ) → Database
    → Database × Option Notification
apply_transition application_id notification_id expected_status next_status changes now =
    update_returning
      (λ row. has_key application_id notification_id row && row.status is expected_status)
      (apply_changes next_status now changes)

abbrev pub is_waiting : (application_id : ℕ) (session_id : Option ℕ) → Notification → Bool
is_waiting application_id session_id row =
    row.application_id == application_id
    && ((row.status is queued || row.status is retrying)
        && matches_session session_id row.whatsapp_session_id)

-- Rows that are locked are skipped; between statements no row is. The result is each cancelled row
-- with the status that it had.
unfoldable pub cancel_waiting :
    (application_id : ℕ)
    → (session_id : Option ℕ) → (now : ℕ) → Database
    → Database × List (ℕ × NotificationStatus)
cancel_waiting application_id session_id now db = (
  record db {
    notifications =
        update_where (is_waiting application_id session_id)
          (λ row. record row {
            status = cancelled;
            cancelled_at = some now;
            updated_at = now;
            next_attempt_at = none;
          })
          db.notifications;
  },
  map (λ row. (row.id, row.status))
      (filter (is_waiting application_id session_id) db.notifications),
)
