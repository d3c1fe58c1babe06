-- ===== src/Guarantees/Cancellation.antt =====
-- What the bulk cancellation promises while the workers go on: Services.Queries.
use whatsapp_notification_pl.Prelude.{
  ℕ, ◌≡◌, ◌≢◌, refl, sym, ap, ◌∙◌, Bool, true, false, ◌&&◌, Option, none, some, List, [], ◌∷◌,
  arith, ◌==◌, if◌then◌else◌, find?, update_where, All, get_or,
}
use whatsapp_notification_pl.Database.Records.{Notification, Job}
use whatsapp_notification_pl.Database.Notifications.{
  append_events, cancel_waiting, claim_for_dispatch, has_key, is_claimable, is_waiting,
}
use whatsapp_notification_pl.Database.Listing.Laws.{HasDistinctIds}
use whatsapp_notification_pl.Configuration.{Configuration}
use whatsapp_notification_pl.Program.{State}
use whatsapp_notification_pl.Domain.Status.{cancelled, is_terminal_notification_status}
use whatsapp_notification_pl.Domain.Status.Laws.{terminal_absorbs}
use whatsapp_notification_pl.Services.Queries.{cancel_waiting_transaction}
use whatsapp_notification_pl.Workers.{Move, Platform, moves}
use whatsapp_notification_pl.Contract.Workers.{moves-Legal, moves-workers}
use whatsapp_notification_pl.Guarantees.Rows.{row_of, Moves, Follows, find-Moves, Moves-trans}
use whatsapp_notification_pl.Guarantees.Lifecycle.{Advances-admits}
use whatsapp_notification_pl.Guarantees.Journey.{at_rest}

abbrev cancelled_row : (now : ℕ) → Notification → Notification
cancelled_row now row = record row {
  status = cancelled;
  cancelled_at = some now;
  updated_at = now;
  next_attempt_at = none;
}

-- Every row of the identifier is cancelled.
abbrev AreCancelled : (id : ℕ) → List Notification → Type 0
AreCancelled id rows = All (λ (x : Notification). x.id ≡ id → x.status ≡ cancelled) rows

others_apart :
    (a : ℕ) (s : Option ℕ) (t id : ℕ) (x : Notification) (rows : List Notification)
    → x.id ≡ id
    → All (λ (y : Notification). x.id ≢ y.id) rows
    → AreCancelled id (update_where (is_waiting a s) (cancelled_row t) rows)
others_apart a s t id x [] e h = tt
others_apart a s t id x (y ∷ rows) e (h, hs) =
    (go (is_waiting a s y), others_apart a s t id x rows e hs)
  where
    go :
        (b : Bool)
        → (if b then cancelled_row t y else y).id ≡ id
        → (if b then cancelled_row t y else y).status ≡ cancelled
    go true k = refl
    go false k = absurd (h (e ∙ sym k))

kept_id :
    (a : ℕ) (s : Option ℕ) (t : ℕ) (x : Notification)
    → (if is_waiting a s x then cancelled_row t x else x).id ≡ x.id
kept_id a s t x = go (is_waiting a s x)
  where
    go : (b : Bool) → (if b then cancelled_row t x else x).id ≡ x.id
    go true = refl
    go false = refl

update-AreCancelled :
    (a : ℕ) (s : Option ℕ) (t id : ℕ) (rows : List Notification) (r : Notification)
    → HasDistinctIds rows
    → row_of id rows ≡ some r
    → is_waiting a s r ≡ true
    → AreCancelled id (update_where (is_waiting a s) (cancelled_row t) rows)
update-AreCancelled a s t id [] r d e w = tt
update-AreCancelled a s t id (x ∷ rows) r (h, d) e w =
    go (x.id == id) refl e (update-AreCancelled a s t id rows r d)
  where
    go :
        (b : Bool)
        → (x.id == id) ≡ b
        → (if b then some x else row_of id rows) ≡ some r
        → (row_of id rows ≡ some r
            → is_waiting a s r ≡ true
            → AreCancelled id (update_where (is_waiting a s) (cancelled_row t) rows))
        → AreCancelled id (update_where (is_waiting a s) (cancelled_row t) (x ∷ rows))
    go true k e' later =
        let waits : is_waiting a s x ≡ true =
          ap (is_waiting a s) (ap (λ (o : Option Notification). get_or o x) e') ∙ w in
        (
          (λ _. ap (λ (c : Bool). (if c then cancelled_row t x else x).status) waits),
          others_apart a s t id x rows (ground (arith, k)) h,
        )
    go false k e' later = ((λ same. absurd (ground (arith, k, kept_id a s t x, same))), later e' w)

update-row_of :
    (a : ℕ) (s : Option ℕ) (t id : ℕ) (rows : List Notification) (r : Notification)
    → row_of id rows ≡ some r
    → is_waiting a s r ≡ true
    → row_of id (update_where (is_waiting a s) (cancelled_row t) rows) ≡ some (cancelled_row t r)
update-row_of a s t id [] r e w = absurd (cc e)
update-row_of a s t id (x ∷ rows) r e w =
    ap
      (λ (n : ℕ).
        if n == id
        then some (if is_waiting a s x then cancelled_row t x else x)
        else row_of id (update_where (is_waiting a s) (cancelled_row t) rows))
      (kept_id a s t x)
    ∙ go (x.id == id) e (update-row_of a s t id rows r)
  where
    go :
        (b : Bool)
        → (if b then some x else row_of id rows) ≡ some r
        → (row_of id rows ≡ some r
            → is_waiting a s r ≡ true
            → row_of id (update_where (is_waiting a s) (cancelled_row t) rows)
              ≡ some (cancelled_row t r))
        → (if b
            then some (if is_waiting a s x then cancelled_row t x else x)
            else row_of id (update_where (is_waiting a s) (cancelled_row t) rows))
          ≡ some (cancelled_row t r)
    go true e' later =
        let same : x ≡ r = ap (λ (o : Option Notification). get_or o x) e' in
        ap (λ (y : Notification). some (if is_waiting a s y then cancelled_row t y else y)) same
        ∙ ap (λ (c : Bool). some (if c then cancelled_row t r else r)) w
    go false e' later = later e' w

cancelled_absorbs : {x y : Notification} → x.status ≡ cancelled → Follows x y → y.status ≡ cancelled
unfolding is_terminal_notification_status
cancelled_absorbs e f = terminal_absorbs (ap is_terminal_notification_status e) f.path ∙ e

Moves-AreCancelled :
    (id : ℕ) (rows rows' : List Notification)
    → Moves rows rows'
    → AreCancelled id rows
    → AreCancelled id rows'
Moves-AreCancelled id [] [] m h = tt
Moves-AreCancelled id [] (y ∷ rows') m h = absurd m
Moves-AreCancelled id (x ∷ rows) [] m h = absurd m
Moves-AreCancelled id (x ∷ rows) (y ∷ rows') (f, m) (h, hs) =
    ((λ e. cancelled_absorbs (h (sym f.same_id ∙ e)) f), Moves-AreCancelled id rows rows' m hs)

AreCancelled-unclaimed :
    (a id u : ℕ) (rows : List Notification)
    → AreCancelled id rows
    → find? (λ r. has_key a id r && is_claimable u r) rows ≡ none
AreCancelled-unclaimed a id u [] h = refl
AreCancelled-unclaimed a id u (x ∷ rows) (h, hs) =
    ground (arith, h, AreCancelled-unclaimed a id u rows hs)

-- A notification that waits when the bulk cancellation of its application (or of its connection) runs
-- is cancelled: whatever the workers did before, from a platform at rest, and do afterwards, its
-- status is then cancelled and a claim of it, with any token and at any time of the clock, gets
-- nothing, where no two rows have one identifier.
pub cancel_waiting_transaction-for_good :
    (accepts : List Job → Job → Bool) (config : Configuration) (ms ms' : List Move) (state : State)
    (application_id : ℕ) (session_id correlation_id : Option ℕ) (t id token u : ℕ)
    (r : Notification)
    → let p = moves accepts config ms (at_rest state) in
      let db = p.state.database in
      let db' = (cancel_waiting_transaction application_id session_id correlation_id t db).0 in
      let after =
        (moves accepts config ms'
          (record p { state = record (p.state) { database = db' } })).state.database in
      HasDistinctIds db.notifications
      → row_of id db.notifications ≡ some r
      → is_waiting application_id session_id r ≡ true
      → ((r' : Notification) × (row_of id after.notifications ≡ some r') × (r'.status ≡ cancelled))
        × ((claim_for_dispatch application_id id token u after).1 ≡ none)
unfolding cancel_waiting_transaction cancel_waiting append_events claim_for_dispatch
cancel_waiting_transaction-for_good accepts config ms ms' state a s c t id token u r d e w =
    let p : Platform = moves accepts config ms (at_rest state) in
    let rows = update_where (is_waiting a s) (cancelled_row t) (p.state.database.notifications) in
    let later =
      moves-Legal accepts config Advances-admits (λ a b c. Moves-trans _ _ _) ms'
        (record p {
          state = record (p.state) {
            database = (cancel_waiting_transaction a s c t p.state.database).0;
          };
        })
        (moves-workers accepts config Advances-admits ms (at_rest state) tt) in
    let (r', e', f) =
      find-Moves id rows _ later (cancelled_row t r)
        (update-row_of a s t id p.state.database.notifications r e w) in
    (
      (r', e', cancelled_absorbs refl f),
      rw
          (AreCancelled-unclaimed a id u _ (
            Moves-AreCancelled id rows _ later
              (update-AreCancelled a s t id p.state.database.notifications r d e w)))
          refl,
    )
