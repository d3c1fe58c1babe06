-- ===== src/Guarantees/Rows.antt =====
-- How the rows of notifications change from one state of the database to the next.
use whatsapp_notification_pl.Prelude.{
  ℕ, ◌≤◌, ◌≡◌, refl, sym, ap, ◌∙◌, Bool, true, false, ◌&&◌, Option, some, List, [], ◌∷◌, arith,
  ◌==◌, if◌then◌else◌, get_or, find?, update_where,
}
use mathlib.Core.Path.{subst}
use whatsapp_notification_pl.Database.Records.{Notification, Database}
use whatsapp_notification_pl.Domain.Status.{NotificationStatus, ◌is◌}
use whatsapp_notification_pl.Domain.Status.Laws.{◌⟶*◌, here, ⟶*-trans}

abbrev pub row_of : (id : ℕ) → List Notification → Option Notification
row_of id rows = find? (λ r. r.id == id) rows

-- What was asked for stays as it was, attempts are only added, and the status moves along the
-- documented edges.
pub record Follows (r r' : Notification) : Type 0 where
  pub same_id : r'.id ≡ r.id
  pub same_application : r'.application_id ≡ r.application_id
  pub same_recipient : r'.recipient_phone_number ≡ r.recipient_phone_number
  pub same_body : r'.rendered_body ≡ r.rendered_body
  pub same_maximum : r'.maximum_attempts ≡ r.maximum_attempts
  pub attempts_grow : r.attempt_count ≤ r'.attempt_count
  pub path : r.status ⟶* r'.status

pub Follows-refl : (r : Notification) → Follows r r
Follows-refl r = record {
  same_id = refl;
  same_application = refl;
  same_recipient = refl;
  same_body = refl;
  same_maximum = refl;
  attempts_grow = omega arith;
  path = here;
}

pub Follows-trans : {r s t : Notification} → Follows r s → Follows s t → Follows r t
Follows-trans f g = record {
  same_id = g.same_id ∙ f.same_id;
  same_application = g.same_application ∙ f.same_application;
  same_recipient = g.same_recipient ∙ f.same_recipient;
  same_body = g.same_body ∙ f.same_body;
  same_maximum = g.same_maximum ∙ f.same_maximum;
  attempts_grow = omega (arith, f.attempts_grow, g.attempts_grow);
  path = ⟶*-trans f.path g.path;
}

-- The same rows, each of which follows from what it was.
abbrev pub Moves : List Notification → List Notification → Type 0
Moves [] [] = Unit
Moves [] (r' ∷ rows') = ⊥
Moves (r ∷ rows) [] = ⊥
Moves (r ∷ rows) (r' ∷ rows') = Follows r r' × Moves rows rows'

abbrev pub Advances : Database → Database → Type 0
Advances db db' = Moves db.notifications db'.notifications

pub Moves-refl : (rows : List Notification) → Moves rows rows
Moves-refl [] = tt
Moves-refl (r ∷ rows) = (Follows-refl r, Moves-refl rows)

pub Moves-trans :
    (rows rows' rows'' : List Notification)
    → Moves rows rows'
    → Moves rows' rows''
    → Moves rows rows''
Moves-trans [] [] rows'' m m' = m'
Moves-trans [] (r' ∷ rows') rows'' m m' = absurd m
Moves-trans (r ∷ rows) [] rows'' m m' = absurd m
Moves-trans (r ∷ rows) (r' ∷ rows') [] m m' = absurd m'
Moves-trans (r ∷ rows) (r' ∷ rows') (r'' ∷ rows'') (f, m) (g, m') =
    (Follows-trans f g, Moves-trans rows rows' rows'' m m')

pub row_of-here :
    (id : ℕ) (s : Notification) (rows : List Notification)
    → (s.id == id) ≡ true
    → row_of id (s ∷ rows) ≡ some s
row_of-here id s rows h = rw h refl

pub row_of-there :
    (id : ℕ) (s : Notification) (rows : List Notification)
    → (s.id == id) ≡ false
    → row_of id (s ∷ rows) ≡ row_of id rows
row_of-there id s rows h = rw h refl

-- A row that is there stays there and follows from what it was.
pub find-Moves :
    (id : ℕ) (rows rows' : List Notification)
    → Moves rows rows'
    → (r : Notification) → row_of id rows ≡ some r
    → (r' : Notification) × (row_of id rows' ≡ some r') × Follows r r'
find-Moves id [] rows' m r e = cc
find-Moves id (s ∷ rows) [] m r e = absurd m
find-Moves id (s ∷ rows) (s' ∷ rows') (f, m) r e =
    go (find-Moves id rows rows' m r) (s.id == id) refl
  where
    go :
        (row_of id rows ≡ some r → (r' : Notification) × (row_of id rows' ≡ some r') × Follows r r')
        → (b : Bool) → (s.id == id) ≡ b
        → (r' : Notification) × (row_of id (s' ∷ rows') ≡ some r') × Follows r r'
    go later true h = (
      s',
      row_of-here id s' rows' (ap (λ x. x == id) f.same_id ∙ h),
      subst (λ x. Follows x s')
          (ap (λ o. get_or o s) {x = some s} {y = some r} (sym (row_of-here id s rows h) ∙ e)) f,
    )
    go later false h =
        let (r', e', g) = later (sym (row_of-there id s rows h) ∙ e) in
        (r', row_of-there id s' rows' (ap (λ x. x == id) f.same_id ∙ h) ∙ e', g)

pub update-Moves :
    (c : Notification → Bool) (f : Notification → Notification) (rows : List Notification)
    → ((r : Notification) → c r ≡ true → Follows r (f r))
    → Moves rows (update_where c f rows)
update-Moves c f [] h = tt
update-Moves c f (r ∷ rows) h = (go (c r) refl, update-Moves c f rows h)
  where
    go : (b : Bool) → c r ≡ b → Follows r (if b then f r else r)
    go true k = h r k
    go false k = Follows-refl r

pub is-eq : (s t : NotificationStatus) → (s is t) ≡ true → s ≡ t
is-eq s t h = ground arith

pub &&-left : (a b : Bool) → (a && b) ≡ true → a ≡ true
&&-left a b h = ground arith

pub &&-right : (a b : Bool) → (a && b) ≡ true → b ≡ true
&&-right a b h = ground arith

-- The row that is found meets the condition.
pub find-true :
    (c : Notification → Bool) (rows : List Notification) (r : Notification)
    → find? c rows ≡ some r
    → c r ≡ true
find-true c [] r e = cc
find-true c (s ∷ rows) r e = go (find-true c rows r) (c s) refl
  where
    go : (find? c rows ≡ some r → c r ≡ true) → (b : Bool) → c s ≡ b → c r ≡ true
    go later true k =
        subst (λ x. c x ≡ true)
          (ap (λ o. get_or o s) {x = some s} {y = some r} (sym (rw k refl) ∙ e)) k
    go later false k = later (sym (rw k refl) ∙ e)
