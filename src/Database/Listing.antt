-- ===== src/Database/Listing.antt =====
-- packages/database/src/repositories/notification.repository.ts: the pages of the list. The database
-- keeps microseconds, a Date milliseconds: `micro` tells how many a row's time of creation has over
-- its milliseconds. The filter on templates, whose column is left out, is not modelled.
pub mod Laws
pub mod Pages
use whatsapp_notification_pl.Prelude.{
  ℕ, suc, ◌+◌, ◌*◌, Bool, true, ◌&&◌, ◌||◌, Option, none, some, List, [], ◌∷◌, ltb, ◌==◌,
  if◌then◌else◌, map_option, length, take, filter, any, last?, Text, text_eq,
}
use whatsapp_notification_pl.Prelude.Sorting.{sort}
use whatsapp_notification_pl.Database.Records.{Notification, Event, Database}
use whatsapp_notification_pl.Domain.Status.{NotificationStatus, ◌is◌}

pub record NotificationListFilters : Type 0 where
  pub statuses : Option (List NotificationStatus)
  pub recipient_phone_number : Option Text
  pub created_before : Option ℕ

-- `{ createdAt, id }`
pub record Cursor : Type 0 where
  pub created_at : ℕ
  pub id : ℕ

pub record NotificationPage : Type 0 where
  pub items : List Notification
  pub next_cursor : Option Cursor

-- The column of the time of creation, in microseconds.
abbrev pub stored_at : (micro : Notification → ℕ) → Notification → ℕ
stored_at micro row = row.created_at * 1000 + micro row

-- No filter where there are no statuses.
abbrev pub has_status : Option (List NotificationStatus) → Notification → Bool
has_status none row = true
has_status (some []) row = true
has_status (some (status ∷ statuses)) row = any (λ s. row.status is s) (status ∷ statuses)

abbrev pub has_recipient : Option Text → Notification → Bool
has_recipient none row = true
has_recipient (some phone_number) row = text_eq row.recipient_phone_number phone_number

abbrev pub is_created_before : (micro : Notification → ℕ) → Option ℕ → Notification → Bool
is_created_before micro none row = true
is_created_before micro (some bound) row = ltb (stored_at micro row) (bound * 1000)

-- Strictly after the cursor in the order of the list.
abbrev pub is_after_cursor : (micro : Notification → ℕ) → Option Cursor → Notification → Bool
is_after_cursor micro none row = true
is_after_cursor micro (some cursor) row =
    ltb (stored_at micro row) (cursor.created_at * 1000)
    || (stored_at micro row == cursor.created_at * 1000 && ltb row.id cursor.id)

abbrev pub matches :
    (micro : Notification → ℕ)
    → (application_id : ℕ) → NotificationListFilters
    → Notification
    → Bool
matches micro application_id filters row =
    row.application_id == application_id
    && (has_status filters.statuses row
        && (has_recipient filters.recipient_phone_number row
            && is_created_before micro filters.created_before row))

-- `desc(createdAt), desc(id)`
abbrev pub is_listed_before : (micro : Notification → ℕ) → (x y : Notification) → Bool
is_listed_before micro x y =
    ltb (stored_at micro y) (stored_at micro x)
    || (stored_at micro y == stored_at micro x && ltb y.id x.id)

-- All rows that the conditions leave, in order.
unfoldable pub listed :
    (micro : Notification → ℕ)
    → (application_id : ℕ) → NotificationListFilters
    → Option Cursor
    → Database
    → List Notification
listed micro application_id filters cursor db = sort (is_listed_before micro) (
    filter (λ row. is_after_cursor micro cursor row && matches micro application_id filters row)
      db.notifications)

abbrev pub cursor_of : Notification → Cursor
cursor_of row = record { created_at = row.created_at; id = row.id }

abbrev pub next_cursor_of : (rows items : List Notification) → (limit : ℕ) → Option Cursor
next_cursor_of rows items limit =
    if ltb limit (length rows) then map_option cursor_of (last? items) else none

unfoldable pub list :
    (micro : Notification → ℕ)
    → (application_id : ℕ) → NotificationListFilters
    → Option Cursor
    → (limit : ℕ) → Database
    → NotificationPage
list micro application_id filters cursor limit db =
    let rows = take (suc limit) (listed micro application_id filters cursor db) in
    let items = take limit rows in
    record { items = items; next_cursor = next_cursor_of rows items limit }

-- The table of events is kept in the order of their times.
unfoldable pub list_events : (application_id notification_id : ℕ) → Database → List Event
list_events application_id notification_id db =
    filter
      (λ (event : Event).
        event.notification_id == notification_id && event.application_id == application_id)
      db.events

unfoldable pub exists_for_session : (application_id session_id : ℕ) → Database → Bool
exists_for_session application_id session_id db =
    any
      (λ (row : Notification).
        row.application_id == application_id && row.whatsapp_session_id == session_id)
      db.notifications
