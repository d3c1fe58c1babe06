-- ===== src/Guarantees/Exclusion.antt =====
-- A notification that one worker has claimed is no other worker's.
use whatsapp_notification_pl.Prelude.{
  ℕ, ◌≤◌, ◌≡◌, refl, Bool, true, false, ◌&&◌, Option, none, some, List, [], ◌∷◌, arith, ◌==◌,
  is_some, map_option, find?, update_where,
}
use whatsapp_notification_pl.Database.Records.{Notification, Database}
use whatsapp_notification_pl.Domain.Status.{processing}
use whatsapp_notification_pl.Database.Notifications.{has_key, is_claimable, claim_for_dispatch}
use whatsapp_notification_pl.Guarantees.Budget.Attempts.{rows_of}

abbrev as_claimed : (token t : ℕ) → Notification → Notification
as_claimed token t r = record r {
  status = processing;
  claim_token = some token;
  claimed_at = some t;
  updated_at = t;
}

module _ (a n token t u : ℕ) where
  absent-find :
      (rows : List Notification)
      → rows_of n rows ≡ 0
      → (find? (λ r. has_key a n r && is_claimable t r) rows ≡ none)
        × (find?
              (λ r. has_key a n r && is_claimable u r)
              (update_where (λ r. has_key a n r && is_claimable t r) (as_claimed token t) rows)
            ≡ none)
  absent-find [] h = (refl, refl)
  absent-find (r ∷ rows) h =
      let rest = absent-find rows (ground (arith, h)) in
      (ground (arith, h, rest.0), ground (arith, h, rest.1))

  claimed-find :
      (rows : List Notification)
      → rows_of n rows ≤ 1
      → is_some (find? (λ r. has_key a n r && is_claimable t r) rows) ≡ true
      → find?
          (λ r. has_key a n r && is_claimable u r)
          (update_where (λ r. has_key a n r && is_claimable t r) (as_claimed token t) rows)
        ≡ none
  claimed-find [] unique h = refl
  claimed-find (r ∷ rows) unique h = go (claimed-find rows) (absent-find rows) (r.id == n) refl
    where
      go :
          (rows_of n rows ≤ 1
            → is_some (find? (λ s. has_key a n s && is_claimable t s) rows) ≡ true
            → find?
                (λ s. has_key a n s && is_claimable u s)
                (update_where (λ s. has_key a n s && is_claimable t s) (as_claimed token t) rows)
              ≡ none)
          → (rows_of n rows ≡ 0
              → (find? (λ s. has_key a n s && is_claimable t s) rows ≡ none)
                × (find?
                      (λ s. has_key a n s && is_claimable u s)
                      (update_where
                        (λ s. has_key a n s && is_claimable t s)
                        (as_claimed token t)
                        rows)
                    ≡ none))
          → (b : Bool) → (r.id == n) ≡ b
          → find?
              (λ s. has_key a n s && is_claimable u s)
              (update_where
                (λ s. has_key a n s && is_claimable t s)
                (as_claimed token t)
                (r ∷ rows))
            ≡ none
      go later none_left true same =
          let rest = none_left (ground (arith, unique, same)) in
          ground (arith, rest.0, rest.1, h, same)
      go later none_left false other =
          let rest = later (ground (arith, unique, other)) (ground (arith, h, other)) in
          ground (arith, rest, other)

-- Once a worker has claimed a notification, whose identifier one row has, a worker that claims it
-- right after, with any token and at any time of its clock, gets nothing.
pub claim_for_dispatch-exclusive :
    (application_id notification_id token token' t u : ℕ) (db : Database) (r : Notification)
    → rows_of notification_id db.notifications ≡ 1
    → (claim_for_dispatch application_id notification_id token t db).1 ≡ some r
    → (claim_for_dispatch application_id notification_id token' u
        (claim_for_dispatch application_id notification_id token t db).0).1
      ≡ none
unfolding claim_for_dispatch
claim_for_dispatch-exclusive a n token token' t u db r unique e =
    rw (claimed-find a n token t u db.notifications (omega (arith, unique)) (found _ _ r e)) refl
  where
    found :
        (f : Notification → Notification) (o : Option Notification) (x : Notification)
        → map_option f o ≡ some x
        → is_some o ≡ true
    found f none x k = cc
    found f (some y) x k = refl
