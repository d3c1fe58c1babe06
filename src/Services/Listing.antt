-- ===== src/Services/Listing.antt =====
-- packages/composition/src/notification/notification-query.service.ts: reading one notification, its
-- events, and the pages of the list with their signed cursors. The HMAC, and writing a cursor as the
-- Base64 of its JSON and reading it, are arguments.
pub mod Laws
use whatsapp_notification_pl.Prelude.{
  ℕ, Option, none, some, List, [], ◌∷◌, ◌++◌, ◌==◌, if◌then◌else◌, map_option, Text, text_eq,
}
use whatsapp_notification_pl.Database.Records.{Notification, Event, Database}
use whatsapp_notification_pl.Database.Transaction.{Result, ok, error}
use whatsapp_notification_pl.Database.Notifications
use whatsapp_notification_pl.Database.Listing
use whatsapp_notification_pl.Database.Listing.{NotificationListFilters, Cursor, NotificationPage}
use whatsapp_notification_pl.Domain.Status.{NotificationStatus}

pub data QueryError : Type 0 where
  invalid_cursor notification_not_found unreadable_cursor : QueryError

pub record NotificationListQuery : Type 0 where
  pub statuses : Option (List NotificationStatus)
  pub recipient : Option Text
  pub cursor : Option Text
  pub limit : ℕ

pub record NotificationListResult : Type 0 where
  pub items : List Notification
  pub next_cursor : Option Text

pub record CursorCodec : Type 0 where
  pub sign : Text → Text
  pub write_payload : Cursor → Text
  pub read_payload : Text → Option Cursor

abbrev pub dot : ℕ
dot = b'.'

-- The first part of a text that is split at the dots.
abbrev pub first_segment : Text → Text
first_segment [] = []
first_segment (c ∷ rest) = let later = first_segment rest in if c == dot then [] else c ∷ later

abbrev pub after_dot : Text → Option Text
after_dot [] = none
after_dot (c ∷ rest) = let later = after_dot rest in if c == dot then some rest else later

unfoldable pub encode_cursor : CursorCodec → Cursor → Text
encode_cursor codec cursor =
    codec.write_payload cursor ++ dot ∷ codec.sign (codec.write_payload cursor)

abbrev pub read_signed : CursorCodec → (encoded : Text) → Result QueryError (Option Cursor)
read_signed codec encoded = elim (codec.read_payload encoded) [
  | none ↦ error unreadable_cursor
  | some cursor ↦ ok (some cursor)
]

abbrev pub check_signature :
    CursorCodec → (encoded : Text) → (signature : Option Text) → Result QueryError (Option Cursor)
check_signature codec encoded none = error invalid_cursor
check_signature codec encoded (some signature) =
    if text_eq signature (codec.sign encoded)
    then read_signed codec encoded
    else error invalid_cursor

unfoldable pub decode_cursor : CursorCodec → Option Text → Result QueryError (Option Cursor)
decode_cursor codec none = ok none
decode_cursor codec (some text) =
    check_signature codec (first_segment text) (map_option first_segment (after_dot text))

unfoldable pub get_or_fail :
    (application_id notification_id : ℕ) → Database → Result QueryError Notification
get_or_fail application_id notification_id db =
    elim (Notifications.find_by_id application_id notification_id db) [
      | none ↦ error notification_not_found
      | some found ↦ ok found
    ]

unfoldable pub list_events :
    (application_id notification_id : ℕ) → Database → Result QueryError (List Event)
unfolding get_or_fail
list_events application_id notification_id db =
    elim (get_or_fail application_id notification_id db) [
      | error e ↦ error e
      | ok found ↦ ok (Listing.list_events application_id notification_id db)
    ]

abbrev pub filters_of : NotificationListQuery → NotificationListFilters
filters_of query = record {
  statuses = query.statuses;
  recipient_phone_number = query.recipient;
  created_before = none;
}

abbrev pub result_of : CursorCodec → NotificationPage → NotificationListResult
result_of codec page = record {
  items = page.items;
  next_cursor = map_option (encode_cursor codec) page.next_cursor;
}

unfoldable pub list :
    CursorCodec
    → (micro : Notification → ℕ) → (application_id : ℕ) → NotificationListQuery
    → Database
    → Result QueryError NotificationListResult
list codec micro application_id query db = elim (decode_cursor codec query.cursor) [
  | error e ↦ error e
  | ok cursor ↦
      ok (
        result_of codec
          (Listing.list micro application_id (filters_of query) cursor query.limit db))
]
