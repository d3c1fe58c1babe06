-- ===== src/Database/Listing/Pages.antt =====
-- What a client reads who follows the cursors of the list.
use whatsapp_notification_pl.Prelude.{
  ℕ, zero, suc, ◌*◌, ◌≤◌, ◌<◌, ◌≡◌, refl, ap, ◌∙◌, Bool, true, false, ◌&&◌, Option, none, some,
  List, [], ◌∷◌, ◌++◌, arith, ltb, if◌then◌else◌, ltb→lt, map_option, length, take, drop, filter,
  last?, All,
}
use mathlib.Core.List.{append-nil}
use whatsapp_notification_pl.Prelude.Sorting.{
  All-last, All-map, All-sort, take-append-drop, take-all, take_page,
}
use whatsapp_notification_pl.Database.Records.{Notification, Database}
use whatsapp_notification_pl.Database.Listing.{
  NotificationListFilters, Cursor, stored_at, matches, is_after_cursor, is_listed_before, listed,
  cursor_of, list,
}
use whatsapp_notification_pl.Database.Listing.Laws.{
  HasDistinctIds, HasToldTimes, is_still_read, listed_trans, listed_asym, filter-holds, listed-next,
  listed-skip,
}

-- What a client reads who follows the cursors, page by page.
abbrev pub pages :
    (micro : Notification → ℕ)
    → (application_id : ℕ) → NotificationListFilters
    → (limit : ℕ) → Database
    → (fuel : ℕ) → Option Cursor
    → List Notification
pages micro application_id filters limit db zero cursor = []
pages micro application_id filters limit db (suc fuel) cursor =
    let page = list micro application_id filters cursor limit db in
    page.items ++ elim page.next_cursor [
      | none ↦ []
      | some next ↦ pages micro application_id filters limit db fuel (some next)
    ]

more-take : (k : ℕ) (xs : List Notification) → ltb k (length (take (suc k) xs)) ≡ ltb k (length xs)
more-take zero [] = refl
more-take zero (x ∷ xs) = ground arith
more-take (suc k) [] = refl
more-take (suc k) (x ∷ xs) = ground (arith, more-take k xs)

last-take :
    (k : ℕ) (xs : List Notification)
    → 1 ≤ k
    → k < length xs
    → (y : Notification) × (last? (take k xs) ≡ some y)
last-take zero xs h l = absurd (omega (arith, h))
last-take (suc k) [] h l = absurd (omega (arith, l))
last-take (suc k) (x ∷ xs) h l = go (last? (take k xs))
  where
    go :
        (o : Option Notification)
        → (y : Notification) × (elim o as (λ _. Option Notification) [
          | none ↦ some x
          | some z ↦ some z
        ]
            ≡ some y)
    go none = (x, refl)
    go (some z) = (z, refl)

length-drop_lt :
    (k : ℕ) (xs : List Notification) → 1 ≤ k → k < length xs → length (drop k xs) < length xs
length-drop_lt zero xs h l = absurd (omega (arith, h))
length-drop_lt (suc k) [] h l = absurd (omega (arith, l))
length-drop_lt (suc zero) (x ∷ xs) h l = omega arith
length-drop_lt (suc (suc k)) (x ∷ xs) h l =
    omega (arith, length-drop_lt (suc k) xs (omega arith) (omega (arith, l)))

-- Where identifiers are distinct, a row has fewer than a thousand microseconds over its millisecond,
-- and any two rows are of different milliseconds or both stored at the very start of one, a client who follows the cursors, over a table that does not change, reads
-- every row that the filters leave exactly once and in order, whatever the size of the pages, and
-- comes to the end.
pub pages_complete :
    (micro : Notification → ℕ) (application_id : ℕ) (filters : NotificationListFilters) (limit : ℕ)
    (db : Database) (fuel : ℕ) (cursor : Option Cursor)
    → HasDistinctIds db.notifications
    → HasToldTimes micro db.notifications
    → 1 ≤ limit
    → length (listed micro application_id filters cursor db) < fuel
    → pages micro application_id filters limit db fuel cursor
      ≡ listed micro application_id filters cursor db
unfolding list
pages_complete micro application_id filters limit db zero cursor distinct told h l =
    absurd (omega (arith, l))
pages_complete micro application_id filters limit db (suc fuel) cursor distinct told h l =
    ap (λ (items : List Notification). page_then items (ltb limit (length (take (suc limit) rows))))
      (take_page limit rows)
    ∙ ap (page_then (take limit rows)) (more-take limit rows)
    ∙ go (ltb limit (length rows)) refl (λ next bound.
      pages_complete micro application_id filters limit db fuel next distinct told h bound)
  where
    rows : List Notification
    rows = listed micro application_id filters cursor db

    page_then : (items : List Notification) → (more : Bool) → List Notification
    page_then items more =
        items
        ++ elim (if more then map_option cursor_of (last? items) else none)
            as (λ _. List Notification) [
              | none ↦ []
              | some next ↦ pages micro application_id filters limit db fuel (some next)
            ]

    go :
        (more : Bool)
        → ltb limit (length rows) ≡ more
        → ((next : Option Cursor)
            → length (listed micro application_id filters next db) < fuel
            → pages micro application_id filters limit db fuel next
              ≡ listed micro application_id filters next db)
        → page_then (take limit rows) more ≡ rows
    go true e later =
        let (y, last) = last-take limit rows h (ltb→lt limit (length rows) e) in
        let next = listed-next micro application_id filters db distinct cursor limit y last told in
        ap
          (λ (o : Option Notification).
            take limit rows ++ elim (map_option cursor_of o) as (λ _. List Notification) [
              | none ↦ []
              | some c ↦ pages micro application_id filters limit db fuel (some c)
            ])
          last
        ∙ ap (λ (rest : List Notification). take limit rows ++ rest)
            (later (some (cursor_of y)) (
                omega (
                  arith,
                  ap length next,
                  length-drop_lt limit rows h (ltb→lt limit (length rows) e),
                  l,
                ))
              ∙ next)
        ∙ take-append-drop limit rows
    go false e later = append-nil (take limit rows) ∙ take-all limit rows (ground arith)

-- No later than the cursor's milliseconds.
abbrev pub IsUpTo : (micro : Notification → ℕ) → Cursor → Notification → Type 0
IsUpTo micro cursor row = stored_at micro row ≤ cursor.created_at * 1000

All-append :
    (P : Notification → Type 0) (xs ys : List Notification) → All P xs → All P ys → All P (xs ++ ys)
All-append P [] ys h k = k
All-append P (x ∷ xs) ys (h, hs) k = (h, All-append P xs ys hs k)

All-take :
    (P : Notification → Type 0) (k : ℕ) (xs : List Notification) → All P xs → All P (take k xs)
All-take P zero xs h = tt
All-take P (suc k) [] h = tt
All-take P (suc k) (x ∷ xs) (h, hs) = (h, All-take P k xs hs)

after_cursor_bound :
    (micro : Notification → ℕ) (cursor : Cursor) (row : Notification) (b : Bool)
    → (is_after_cursor micro (some cursor) row && b) ≡ true
    → IsUpTo micro cursor row
after_cursor_bound micro cursor row b h = ground arith

listed_bound :
    (micro : Notification → ℕ) (application_id : ℕ) (filters : NotificationListFilters)
    (cursor : Cursor) (db : Database)
    → All (IsUpTo micro cursor) (listed micro application_id filters (some cursor) db)
unfolding listed
listed_bound micro application_id filters cursor db =
    All-sort (is_listed_before micro) (listed_trans micro) (listed_asym micro) (IsUpTo micro cursor)
      (filter
        (λ row. is_after_cursor micro (some cursor) row && matches micro application_id filters row)
        db.notifications)
      (All-map
        (filter
          (λ row.
            is_after_cursor micro (some cursor) row && matches micro application_id filters row)
          db.notifications)
        (λ row h. after_cursor_bound micro cursor row (matches micro application_id filters row) h)
        (filter-holds
          (λ row.
            is_after_cursor micro (some cursor) row && matches micro application_id filters row)
          db.notifications))

later_bound :
    (micro : Notification → ℕ) (application_id : ℕ) (filters : NotificationListFilters) (limit : ℕ)
    (db : Database) (fuel : ℕ) (cursor : Cursor)
    → All (IsUpTo micro cursor) (pages micro application_id filters limit db fuel (some cursor))
unfolding list
later_bound micro application_id filters limit db zero cursor = tt
later_bound micro application_id filters limit db (suc fuel) cursor =
    All-append (IsUpTo micro cursor) (take limit rows) _
      (All-take (IsUpTo micro cursor) limit rows bounded)
      (go (ltb limit (length rows)) (last? (take limit rows)) refl
        (λ next. later_bound micro application_id filters limit db fuel next))
  where
    rows : List Notification
    rows = take (suc limit) (listed micro application_id filters (some cursor) db)

    bounded : All (IsUpTo micro cursor) rows
    bounded =
        All-take (IsUpTo micro cursor) (suc limit)
          (listed micro application_id filters (some cursor) db)
          (listed_bound micro application_id filters cursor db)

    go :
        (more : Bool) (o : Option Notification)
        → last? (take limit rows) ≡ o
        → ((next : Cursor)
            → All
                (IsUpTo micro next)
                (pages micro application_id filters limit db fuel (some next)))
        → All
            (IsUpTo micro cursor)
            (elim (if more then map_option cursor_of o else none) as (λ _. List Notification) [
              | none ↦ []
              | some next ↦ pages micro application_id filters limit db fuel (some next)
            ])
    go false o e later = tt
    go true none e later = tt
    go true (some y) e later =
        All-map (pages micro application_id filters limit db fuel (some (cursor_of y)))
          (λ x h. omega (arith, h, All-last (IsUpTo micro cursor) limit rows y bounded e))
          (later (cursor_of y))

-- A cursor has lost the microseconds. Where identifiers are distinct, and a row has fewer than a
-- thousand microseconds over its millisecond, what is listed behind the cursor of the last row of a
-- page is exactly this of what comes after that page: the rows of earlier milliseconds, and of the
-- same millisecond only those at its very start with a smaller identifier. And whoever goes on from
-- that cursor reads, on no page, a row of the same millisecond that is stored over its start, such as
-- one of the same stored time that the page had no room for.
pub pages-skip :
    (micro : Notification → ℕ) (application_id : ℕ) (filters : NotificationListFilters) (limit : ℕ)
    (db : Database) (fuel : ℕ) (cursor : Option Cursor) (y : Notification)
    → HasDistinctIds db.notifications
    → All (λ (x : Notification). micro x < 1000) db.notifications
    → last? (take limit (listed micro application_id filters cursor db)) ≡ some y
    → (listed micro application_id filters (some (cursor_of y)) db
        ≡ filter
            (is_still_read micro y)
            (drop limit (listed micro application_id filters cursor db)))
      × All
          (λ (x : Notification). ¬ ((x.created_at ≡ y.created_at) × (1 ≤ micro x)))
          (pages micro application_id filters limit db fuel (some (cursor_of y)))
pages-skip micro application_id filters limit db fuel cursor y distinct small last = (
  listed-skip micro application_id filters db distinct cursor limit y last small,
  All-map (pages micro application_id filters limit db fuel (some (cursor_of y)))
      (λ x h k. omega (arith, h, k.0, k.1))
      (later_bound micro application_id filters limit db fuel (cursor_of y)),
)
