-- ===== src/Examples/Listing.antt =====
-- The theorems on the list at concrete inputs: a batch of three, in pages of two.
use whatsapp_notification_pl.Prelude.{
  ◌+◌, ◌-◌, ◌≡◌, refl, inl, inr, ◌≤◌, filter, drop, none, some, [], ◌∷◌, arith, length, All,
}
use whatsapp_notification_pl.Database.Records.{Notification, Database}
use whatsapp_notification_pl.Database.Listing.{NotificationListFilters, listed, list}
use whatsapp_notification_pl.Database.Listing.Laws.{HasToldTimes, is_still_read}
use whatsapp_notification_pl.Database.Listing.Pages.{pages, pages_complete, pages-skip}
use whatsapp_notification_pl.Database.Transaction.{ok}
use whatsapp_notification_pl.Services.Listing.{CursorCodec, encode_cursor, decode_cursor}
use whatsapp_notification_pl.Services.Listing.Laws.{decode_cursor-encode_cursor}
use whatsapp_notification_pl.Examples.{notification, database_with}

abbrev batch : Database
batch = record (database_with notification) {
  notifications =
      notification ∷ record notification { id = 2 } ∷ record notification { id = 4 } ∷ [];
}

abbrev no_filters : NotificationListFilters
no_filters = record { statuses = none; recipient_phone_number = none; created_before = none }

-- Three that were created in different milliseconds, each some microseconds over its own.
abbrev one_by_one : Database
one_by_one = record (database_with notification) {
  notifications =
      notification
      ∷ record notification { id = 2; created_at = 501 }
      ∷ record notification { id = 4; created_at = 502 }
      ∷ [];
}

told : HasToldTimes (λ row. 456) one_by_one.notifications
told = (
  (
    omega arith,
    (inl refl, (inr (inl (λ e. omega (arith, e))), (inr (inl (λ e. omega (arith, e))), tt))),
  ),
  (
    (
      omega arith,
      (inr (inl (λ e. omega (arith, e))), (inl refl, (inr (inl (λ e. omega (arith, e))), tt))),
    ),
    (
      (
        omega arith,
        (inr (inl (λ e. omega (arith, e))), (inr (inl (λ e. omega (arith, e))), (inl refl, tt))),
      ),
      tt,
    ),
  ),
)

pages_complete_example :
    pages (λ row. 456) 7 no_filters 2 one_by_one 5 none
    ≡ record notification { id = 4; created_at = 502 }
      ∷ record notification { id = 2; created_at = 501 }
      ∷ notification
      ∷ []
unfolding listed
pages_complete_example =
    pages_complete (λ row. 456) 7 no_filters 2 one_by_one 5 none
      (((λ e. cc e), ((λ e. cc e), tt)), (((λ e. cc e), tt), (tt, tt))) told (omega arith)
      (omega arith)

-- The third of the batch, stored 456 microseconds later than the cursor says, is lost.
pages-skip_example :
    (listed (λ row. 456) 7 no_filters (some (record { created_at = 500; id = 2 })) batch
      ≡ filter
          (is_still_read (λ row. 456) (record notification { id = 2 }))
          (drop 2 (listed (λ row. 456) 7 no_filters none batch)))
    × All
        (λ (x : Notification). ¬ ((x.created_at ≡ 500) × (1 ≤ 456)))
        (pages (λ row. 456) 7 no_filters 2 batch 5 (some (record { created_at = 500; id = 2 })))
unfolding listed
pages-skip_example =
    pages-skip (λ row. 456) 7 no_filters 2 batch 5 none (record notification { id = 2 })
      (((λ e. cc e), ((λ e. cc e), tt)), (((λ e. cc e), tt), (tt, tt)))
      (omega arith, (omega arith, (omega arith, tt))) refl

third_is_lost :
    pages (λ row. 456) 7 no_filters 2 batch 5 none
    ≡ record notification { id = 4 } ∷ record notification { id = 2 } ∷ []
unfolding list listed
third_is_lost = refl

-- A payload of two characters, signed by its length.
abbrev codec : CursorCodec
codec = record {
  sign = λ payload. (b'0' + length payload) ∷ [];
  write_payload = λ cursor. (b'a' + cursor.created_at) ∷ (b'a' + cursor.id) ∷ [];
  read_payload = λ payload. elim payload [
    | [] ↦ none
    | c ∷ rest ↦ elim rest [
      | [] ↦ none
      | d ∷ more ↦ some (record { created_at = c - b'a'; id = d - b'a' })
    ]
  ];
}

decode_cursor-encode_cursor_example :
    decode_cursor codec (some (encode_cursor codec (record { created_at = 3; id = 5 })))
    ≡ ok (some (record { created_at = 3; id = 5 }))
decode_cursor-encode_cursor_example =
    decode_cursor-encode_cursor codec (record { created_at = 3; id = 5 }) refl refl refl
