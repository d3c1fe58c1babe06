-- ===== src/Database/Listing/Laws.antt =====
-- Following the cursors of the list.
use whatsapp_notification_pl.Prelude.{
  ltb, ◌==◌, ◌||◌, ℕ, ◌<◌, ◌≡◌, ◌⊎◌, inl, inr, refl, sym, ap, ◌∙◌, ◌≢◌, Bool, true, false, ◌&&◌,
  Option, none, some, List, [], ◌∷◌, arith, if◌then◌else◌, take, drop, filter, last?, All,
}
use whatsapp_notification_pl.Prelude.Sorting.{
  sort, All-tabulate, All-map, All-zip, IsApart, IsComparable, sort-IsSorted, filter-sort,
  filter-page, filter-IsApart, filter-filter, All-last, All-sort, All-filter,
}
use whatsapp_notification_pl.Database.Records.{Notification, Database}
use whatsapp_notification_pl.Database.Listing.{
  NotificationListFilters, Cursor, matches, is_after_cursor, is_listed_before, listed, cursor_of,
}

-- No two rows have one identifier.
abbrev pub HasDistinctIds : List Notification → Type 0
HasDistinctIds [] = Unit
HasDistinctIds (x ∷ xs) = All (λ (y : Notification). x.id ≢ y.id) xs × HasDistinctIds xs

-- Whether a cursor, which keeps milliseconds, can stand between two rows: they are of different
-- milliseconds, or both are stored at the very start of one.
abbrev pub IsToldApart : (micro : Notification → ℕ) → (x y : Notification) → Type 0
IsToldApart micro x y = (x ≡ y) ⊎ (x.created_at ≢ y.created_at) ⊎ ((micro x ≡ 0) × (micro y ≡ 0))

abbrev pub HasToldTimes : (micro : Notification → ℕ) → List Notification → Type 0
HasToldTimes micro rows =
    All (λ (x : Notification). (micro x < 1000) × All (IsToldApart micro x) rows) rows

-- Of the rows listed behind `y`, those that the cursor of `y` does not lose: the rows of earlier
-- milliseconds, and of the same millisecond only those at its very start with a smaller identifier.
abbrev pub is_still_read : (micro : Notification → ℕ) → (y x : Notification) → Bool
is_still_read micro y x =
    ltb x.created_at y.created_at
    || (x.created_at == y.created_at && (micro x == 0 && ltb x.id y.id))

module _ (micro : Notification → ℕ) where
  pub listed_trans :
      (x y z : Notification)
      → is_listed_before micro x y ≡ true
      → is_listed_before micro y z ≡ true
      → is_listed_before micro x z ≡ true
  listed_trans x y z h k = ground arith

  pub listed_asym :
      (x y : Notification) → is_listed_before micro x y ≡ true → is_listed_before micro y x ≡ false
  listed_asym x y h = ground arith

  comparable :
      (x y : Notification)
      → x.id ≢ y.id
      → IsComparable (is_listed_before micro) listed_trans listed_asym x y
  comparable x y h = ground arith

  comparable_rows :
      (xs : List Notification)
      → HasDistinctIds xs
      → IsApart (is_listed_before micro) listed_trans listed_asym xs
  comparable_rows [] h = tt
  comparable_rows (x ∷ xs) (h, hs) = (apart_from xs h, comparable_rows xs hs)
    where
      apart_from :
          (ys : List Notification)
          → All (λ (y : Notification). x.id ≢ y.id) ys
          → All (IsComparable (is_listed_before micro) listed_trans listed_asym x) ys
      apart_from [] k = tt
      apart_from (y ∷ ys) (k, ks) = (comparable x y k, apart_from ys ks)

  after_cursor_of :
      (x y : Notification)
      → micro x < 1000
      → micro y < 1000
      → IsToldApart micro y x
      → is_after_cursor micro (some (cursor_of y)) x ≡ is_listed_before micro y x
  after_cursor_of x y hx hy (inl e) = ground (
    arith,
    ap micro e,
    ap (λ (r : Notification). r.created_at) e,
    ap (λ (r : Notification). r.id) e,
  )
  after_cursor_of x y hx hy (inr (inl apart)) = ground (arith, hx, hy, apart)
  after_cursor_of x y hx hy (inr (inr (kx, ky))) = ground (arith, kx, ky)

  still_read_before :
      (x y : Notification)
      → micro x < 1000
      → is_still_read micro y x ≡ true
      → is_listed_before micro y x ≡ true
  still_read_before x y small h = ground (arith, small, h)

  still_read_after :
      (x y : Notification)
      → micro x < 1000
      → is_still_read micro y x ≡ is_after_cursor micro (some (cursor_of y)) x
  still_read_after x y small = ground (arith, small)

  after_cursor_trans :
      (cursor : Option Cursor) (x y : Notification)
      → is_after_cursor micro cursor y ≡ true
      → is_listed_before micro y x ≡ true
      → is_after_cursor micro cursor x ≡ true
  after_cursor_trans none x y h k = refl
  after_cursor_trans (some cursor) x y h k = ground arith

pub filter-holds :
    (p : Notification → Bool) (xs : List Notification)
    → All (λ (x : Notification). p x ≡ true) (filter p xs)
filter-holds p [] = tt
filter-holds p (x ∷ xs) = go (p x) refl (filter-holds p xs)
  where
    go :
        (b : Bool)
        → p x ≡ b
        → All (λ (x : Notification). p x ≡ true) (filter p xs)
        → All (λ (x : Notification). p x ≡ true) (if b then x ∷ filter p xs else filter p xs)
    go true e later = (e, later)
    go false e later = later

and_trans : (a b c : Bool) → (a ≡ true → b ≡ true) → (a && (b && c)) ≡ (a && c)
and_trans true b c h = rw (h refl)
and_trans false b c h = refl

and_left : (a b : Bool) → (a && b) ≡ true → a ≡ true
and_left true b h = refl
and_left false b h = h

module _ (micro : Notification → ℕ) (application_id : ℕ) (filters : NotificationListFilters)
    (db : Database) (distinct : HasDistinctIds db.notifications) (cursor : Option Cursor) (k : ℕ)
    (y : Notification)
    (last : last? (take k (listed micro application_id filters cursor db)) ≡ some y) where
  abbrev before : Notification → Notification → Bool
  before = is_listed_before micro

  abbrev condition : Option Cursor → Notification → Bool
  condition at row = is_after_cursor micro at row && matches micro application_id filters row

  abbrev rows : List Notification
  rows = filter (condition cursor) db.notifications

  abbrev next : Option Cursor
  next = some (cursor_of y)

  apart : IsApart (is_listed_before micro) (listed_trans micro) (listed_asym micro) rows
  apart =
      filter-IsApart before (listed_trans micro) (listed_asym micro) (condition cursor)
        db.notifications (comparable_rows micro db.notifications distinct)

  -- What holds for every row of the table holds for the last of the page.
  last_of_page : (P : Notification → Type 0) → All P rows → P y
  unfolding listed
  last_of_page P h =
      All-last P k (sort before rows) y
        (All-sort before (listed_trans micro) (listed_asym micro) P rows h) last

  last_after : is_after_cursor micro cursor y ≡ true
  last_after = and_left (is_after_cursor micro cursor y) (matches micro application_id filters y) (
      last_of_page (λ (x : Notification). condition cursor x ≡ true)
        (filter-holds (condition cursor) db.notifications))

  -- What comes after the page is what is listed behind its last row.
  rest_of_page :
      drop k (listed micro application_id filters cursor db) ≡ sort before (filter (before y) rows)
  unfolding listed
  rest_of_page =
      sym (
        filter-page before (listed_trans micro) (listed_asym micro) k (sort before rows) y
          (sort-IsSorted before (listed_trans micro) (listed_asym micro) rows apart) last)
      ∙ filter-sort before (listed_trans micro) (listed_asym micro) (before y) rows apart

  behind_condition :
      (x : Notification)
      → (before y x && condition cursor x) ≡ (before y x && matches micro application_id filters x)
  behind_condition x =
      and_trans (before y x) (is_after_cursor micro cursor x)
        (matches micro application_id filters x) (after_cursor_trans micro cursor x y last_after)

  rest_rows :
      filter (before y) rows
      ≡ filter (λ x. before y x && matches micro application_id filters x) db.notifications
  rest_rows =
      filter-filter (before y) (condition cursor)
        (λ x. before y x && matches micro application_id filters x) db.notifications
        (All-tabulate db.notifications behind_condition)

  -- The page after a page begins where that one ended.
  pub listed-next :
      HasToldTimes micro db.notifications
      → listed micro application_id filters (some (cursor_of y)) db
        ≡ drop k (listed micro application_id filters cursor db)
  unfolding listed
  listed-next told =
      ap (sort before) (
        sym (
          filter-filter (before y) (condition cursor) (condition next) db.notifications (
            All-zip db.notifications same_condition (last_told.1)
              (All-map db.notifications (λ x h. h.0) told))))
      ∙ sym rest_of_page
    where
      last_told : (micro y < 1000) × All (IsToldApart micro y) db.notifications
      last_told =
          last_of_page
            (λ (x : Notification). (micro x < 1000) × All (IsToldApart micro x) db.notifications)
            (All-filter _ (condition cursor) db.notifications told)

      same_condition :
          (x : Notification)
          → IsToldApart micro y x
          → micro x < 1000
          → (before y x && condition cursor x) ≡ condition next x
      same_condition x apart small =
          behind_condition x
          ∙ ap (λ (b : Bool). b && matches micro application_id filters x)
              (sym (after_cursor_of micro x y small last_told.0 apart))

  -- The list behind the cursor of a row that came from a page is what comes after that page, less
  -- the rows that are lost.
  pub listed-skip :
      All (λ (x : Notification). micro x < 1000) db.notifications
      → listed micro application_id filters (some (cursor_of y)) db
        ≡ filter (is_still_read micro y) (drop k (listed micro application_id filters cursor db))
  unfolding listed
  listed-skip small =
      ap (sort before) (
        sym (
          filter-filter (is_still_read micro y)
            (λ x. before y x && matches micro application_id filters x) (condition next)
            db.notifications (All-map db.notifications same_condition small))
        ∙ sym (ap (filter (is_still_read micro y)) rest_rows))
      ∙ sym (
          ap (filter (is_still_read micro y)) rest_of_page
          ∙ filter-sort before (listed_trans micro) (listed_asym micro) (is_still_read micro y)
              (filter (before y) rows)
              (filter-IsApart before (listed_trans micro) (listed_asym micro) (before y) rows
                apart))
    where
      same_condition :
          (x : Notification)
          → micro x < 1000
          → (is_still_read micro y x && (before y x && matches micro application_id filters x))
            ≡ condition next x
      same_condition x small =
          and_trans (is_still_read micro y x) (before y x) (matches micro application_id filters x)
            (still_read_before micro x y small)
          ∙ ap (λ (b : Bool). b && matches micro application_id filters x)
              (still_read_after micro x y small)
