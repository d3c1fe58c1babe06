-- ===== src/Guarantees/StaleClaim.antt =====
-- What a worker whose claim was released can still do once another worker holds the notification.
use whatsapp_notification_pl.Prelude.{
  ℕ, ◌≤◌, ◌≡◌, refl, sym, ap, ◌∙◌, Bool, true, false, ◌&&◌, none, some, List, [], ◌∷◌, arith, ◌==◌,
  if◌then◌else◌, get_or, is_just, map_option, find?, update_where, Text,
}
use mathlib.Core.Path.{subst}
use whatsapp_notification_pl.Database.Records.{Notification, Database}
use whatsapp_notification_pl.Domain.Status.{processing, ◌is◌}
use whatsapp_notification_pl.Database.Notifications.{
  has_key, begin_attempt, apply_transition, apply_changes,
}
use whatsapp_notification_pl.Services.Dispatch.{DispatchInput, TransitionStep, record_transition}
use whatsapp_notification_pl.Guarantees.Rows.{row_of, row_of-here, row_of-there, find-true}
use whatsapp_notification_pl.Guarantees.Transactions.{transition-notifications}
use whatsapp_notification_pl.Guarantees.Budget.Attempts.{rows_of}

find-update :
    (id : ℕ) (c : Notification → Bool) (f : Notification → Notification) (rows : List Notification)
    → ((r : Notification) → (f r).id ≡ r.id)
    → row_of id (update_where c f rows) ≡ map_option (λ r. if c r then f r else r) (row_of id rows)
find-update id c f [] h = refl
find-update id c f (r ∷ rows) h = ground (arith, h r, find-update id c f rows h)

module _ (id : ℕ) (c : Notification → Bool)
    (keyed : (s : Notification) → c s ≡ true → (s.id == id) ≡ true) where
  absent_none : (rows : List Notification) → rows_of id rows ≡ 0 → find? c rows ≡ none
  absent_none [] h = refl
  absent_none (s ∷ rows) h = ground (arith, h, keyed s, absent_none rows (ground (arith, h)))

  unmet_none :
      (rows : List Notification) (r : Notification)
      → rows_of id rows ≤ 1
      → row_of id rows ≡ some r
      → c r ≡ false
      → find? c rows ≡ none
  unmet_none [] r unique e h = refl
  unmet_none (s ∷ rows) r unique e h = go (unmet_none rows r) (absent_none rows) (s.id == id) refl
    where
      go :
          (rows_of id rows ≤ 1 → row_of id rows ≡ some r → c r ≡ false → find? c rows ≡ none)
          → (rows_of id rows ≡ 0 → find? c rows ≡ none)
          → (b : Bool) → (s.id == id) ≡ b
          → find? c (s ∷ rows) ≡ none
      go later rest true same =
          let is_r =
            ap (λ o. get_or o s) {x = some s} {y = some r} (sym (row_of-here id s rows same) ∙ e) in
          let unmet : c s ≡ false = subst (λ x. c x ≡ false) (sym is_r) h in
          rw unmet (rest (ground (arith, unique, same)))
      go later rest false other =
          let unmet : c s ≡ false = ground (arith, keyed s, other) in
          rw unmet
            (later (ground (arith, unique, other)) (sym (row_of-there id s rows other) ∙ e) h)

meets :
    (n : Notification) (step : TransitionStep) (r : Notification)
    → (r.id == n.id) ≡ true
    → r.application_id ≡ n.application_id
    → r.status ≡ processing
    → map_option {A = Notification} {B = Notification}
        (λ s.
          if has_key n.application_id n.id s && s.status is processing
          then apply_changes step.next_status step.now step.changes s
          else s)
        (some r)
      ≡ some (apply_changes step.next_status step.now step.changes r)
meets n step r same_id same_application working =
    let met : (has_key n.application_id n.id r && r.status is processing) ≡ true =
      ground (arith, same_id, same_application, working) in
    rw met refl

-- If the only row of a notification is PROCESSING under the claim of another worker, a worker with an
-- older claim begins no attempt on it, but a transition that it records moves the row all the same.
pub stale_claim_lem :
    (n : Notification) (step : TransitionStep) (input : DispatchInput) (db : Database)
    (r : Notification) (chat : Text) (token other t : ℕ)
    → rows_of n.id db.notifications ≡ 1
    → row_of n.id db.notifications ≡ some r
    → r.application_id ≡ n.application_id
    → r.status ≡ processing
    → r.claim_token ≡ some other
    → (other == token) ≡ false
    → ((begin_attempt n.application_id n.id token chat t db).1 ≡ none)
      × (r' : Notification) × (row_of n.id (record_transition n step input db).notifications
          ≡ some r')
      × (r'.status ≡ step.next_status)
unfolding begin_attempt apply_transition
stale_claim_lem n step input db r chat token other t unique e same_application working held stale =
    (
      rw
          (unmet_none n.id
            (λ s.
              has_key n.application_id n.id s
              && (is_just s.claim_token token && s.status is processing))
            (λ s h. ground (arith, h)) db.notifications r (omega (arith, unique)) e
            (ground (arith, held, stale)))
          refl,
      apply_changes step.next_status step.now step.changes r,
      rw (transition-notifications n step input db) (
          find-update n.id (λ s. has_key n.application_id n.id s && s.status is processing)
            (apply_changes step.next_status step.now step.changes) db.notifications (λ s. refl)
          ∙ (ap
                (map_option (λ s.
                  if has_key n.application_id n.id s && s.status is processing
                  then apply_changes step.next_status step.now step.changes s
                  else s))
                e
              ∙ meets n step r (find-true (λ s. s.id == n.id) db.notifications r e) same_application
                  working)),
      refl,
    )
