-- ===== src/Guarantees/Budget/Attempts.antt =====
-- The attempts that the rows of one notification count, up to its maximum.
use whatsapp_notification_pl.Prelude.{
  ℕ, ◌+◌, ◌*◌, ◌≤◌, min, ◌≡◌, refl, sym, ap, ◌∙◌, Bool, true, false, some, List, [], ◌∷◌, arith,
  ◌==◌, if◌then◌else◌, get_or, find?, update_where, All,
}
use mathlib.Core.Path.{subst}
use whatsapp_notification_pl.Database.Records.{Notification}
use whatsapp_notification_pl.Guarantees.Rows.{row_of, Follows, Moves, row_of-here, row_of-there}

abbrev pub one_if : Bool → ℕ
one_if true = 1
one_if false = 0

module _ (id : ℕ) where
  -- How many rows the notification has: one, since its identifier is the primary key.
  abbrev pub rows_of : List Notification → ℕ
  rows_of [] = 0
  rows_of (r ∷ rows) = one_if (r.id == id) + rows_of rows

  module _ (maximum : ℕ) where
    abbrev pub capped : Notification → ℕ
    capped r = if r.id == id then min r.attempt_count maximum else 0

    abbrev pub cap : List Notification → ℕ
    cap [] = 0
    cap (r ∷ rows) = capped r + cap rows

    abbrev pub SameMaximum : List Notification → Type 0
    SameMaximum rows = All (λ r. r.id ≡ id → r.maximum_attempts ≡ maximum) rows

    Follows-capped : (r r' : Notification) → Follows r r' → capped r ≤ capped r'
    Follows-capped r r' f = ground (arith, f.same_id, f.attempts_grow)

    pub Moves-cap : (rows rows' : List Notification) → Moves rows rows' → cap rows ≤ cap rows'
    Moves-cap [] [] m = omega arith
    Moves-cap [] (r' ∷ rows') m = absurd m
    Moves-cap (r ∷ rows) [] m = absurd m
    Moves-cap (r ∷ rows) (r' ∷ rows') (f, m) =
        omega (arith, Follows-capped r r' f, Moves-cap rows rows' m)

    pub Moves-SameMaximum :
        (rows rows' : List Notification) → Moves rows rows' → SameMaximum rows → SameMaximum rows'
    Moves-SameMaximum [] [] m h = tt
    Moves-SameMaximum [] (r' ∷ rows') m h = absurd m
    Moves-SameMaximum (r ∷ rows) [] m h = tt
    Moves-SameMaximum (r ∷ rows) (r' ∷ rows') (f, m) (g, h) =
        ((λ e. f.same_maximum ∙ g (sym f.same_id ∙ e)), Moves-SameMaximum rows rows' m h)

    pub find-SameMaximum :
        (c : Notification → Bool) (rows : List Notification) (r : Notification)
        → SameMaximum rows
        → find? c rows ≡ some r
        → r.id ≡ id
        → r.maximum_attempts ≡ maximum
    find-SameMaximum c [] r h e = cc
    find-SameMaximum c (s ∷ rows) r (g, h) e = go (find-SameMaximum c rows r h) (c s) refl
      where
        go :
            (find? c rows ≡ some r → r.id ≡ id → r.maximum_attempts ≡ maximum)
            → (b : Bool) → c s ≡ b
            → r.id ≡ id
            → r.maximum_attempts ≡ maximum
        go later true k =
            subst (λ x. x.id ≡ id → x.maximum_attempts ≡ maximum)
              (ap (λ o. get_or o s) {x = some s} {y = some r} (sym (rw k refl) ∙ e)) g
        go later false k = later (sym (rw k refl) ∙ e)

    capped-more :
        (s s' : Notification)
        → s'.id ≡ s.id
        → s'.attempt_count ≡ s.attempt_count + 1
        → s.id ≡ id
        → s.attempt_count + 1 ≤ maximum
        → capped s + 1 ≤ capped s'
    capped-more s s' same more h le = ground arith

    capped-grows :
        (s s' : Notification)
        → s'.id ≡ s.id
        → s'.attempt_count ≡ s.attempt_count + 1
        → capped s ≤ capped s'
    capped-grows s s' same more = ground arith

    update-cap :
        (c : Notification → Bool) (f : Notification → Notification) (rows : List Notification)
        → ((s : Notification) → (f s).id ≡ s.id)
        → ((s : Notification) → (f s).attempt_count ≡ s.attempt_count + 1)
        → cap rows ≤ cap (update_where c f rows)
    update-cap c f [] same more = omega arith
    update-cap c f (s ∷ rows) same more =
        ground (arith, capped-grows s (f s) (same s) (more s), update-cap c f rows same more)

    -- An attempt more within the maximum is counted.
    pub attempt-cap :
        (c : Notification → Bool) (f : Notification → Notification) (rows : List Notification)
        (r : Notification)
        → ((s : Notification) → (f s).id ≡ s.id)
        → ((s : Notification) → (f s).attempt_count ≡ s.attempt_count + 1)
        → find? c rows ≡ some r
        → r.id ≡ id
        → r.attempt_count + 1 ≤ maximum
        → cap rows + 1 ≤ cap (update_where c f rows)
    attempt-cap c f [] r same more e h le = cc
    attempt-cap c f (s ∷ rows) r same more e h le = go (attempt-cap c f rows r same more) (c s) refl
      where
        go :
            (find? c rows ≡ some r
              → r.id ≡ id
              → r.attempt_count + 1 ≤ maximum
              → cap rows + 1 ≤ cap (update_where c f rows))
            → (b : Bool) → c s ≡ b
            → cap (s ∷ rows) + 1 ≤ cap (update_where c f (s ∷ rows))
        go later true k =
            let is_r = ap (λ o. get_or o s) {x = some s} {y = some r} (sym (rw k refl) ∙ e) in
            let counted =
              capped-more s (f s) (same s) (more s) (subst (λ x. x.id ≡ id) (sym is_r) h)
                (subst (λ x. x.attempt_count + 1 ≤ maximum) (sym is_r) le) in
            rw k (omega (arith, counted, update-cap c f rows same more))
        go later false k = rw k (omega (arith, later (sym (rw k refl) ∙ e) h le))

    pub cap-le : (rows : List Notification) → cap rows ≤ rows_of rows * maximum
    cap-le [] = omega arith
    cap-le (r ∷ rows) = ground (arith, cap-le rows)

  pub Moves-rows_of :
      (rows rows' : List Notification) → Moves rows rows' → rows_of rows' ≡ rows_of rows
  Moves-rows_of [] [] m = refl
  Moves-rows_of [] (r' ∷ rows') m = absurd m
  Moves-rows_of (r ∷ rows) [] m = absurd m
  Moves-rows_of (r ∷ rows) (r' ∷ rows') (f, m) = rw (f.same_id, Moves-rows_of rows rows' m) refl

  absent-SameMaximum :
      (maximum : ℕ) (rows : List Notification) → rows_of rows ≡ 0 → SameMaximum maximum rows
  absent-SameMaximum maximum [] h = tt
  absent-SameMaximum maximum (r ∷ rows) h = ground (arith, absent-SameMaximum maximum rows)

  pub unique-SameMaximum :
      (rows : List Notification) (r : Notification)
      → rows_of rows ≤ 1
      → row_of id rows ≡ some r
      → SameMaximum r.maximum_attempts rows
  unique-SameMaximum [] r h e = cc
  unique-SameMaximum (s ∷ rows) r h e = go (unique-SameMaximum rows r) (s.id == id) refl
    where
      go :
          (rows_of rows ≤ 1 → row_of id rows ≡ some r → SameMaximum r.maximum_attempts rows)
          → (b : Bool) → (s.id == id) ≡ b
          → SameMaximum r.maximum_attempts (s ∷ rows)
      go later true k =
          let is_r =
            ap (λ o. get_or o s) {x = some s} {y = some r} (sym (row_of-here id s rows k) ∙ e) in
          (
            (λ _. ap (λ x. x.maximum_attempts) is_r),
            absent-SameMaximum r.maximum_attempts rows (ground (arith, h, k)),
          )
      go later false k = (
        (λ same. ground (arith, same, k)),
        later (ground (arith, h, k)) (sym (row_of-there id s rows k) ∙ e),
      )
