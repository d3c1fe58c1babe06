-- ===== src/Guarantees/Sessions/Tenants.antt =====
-- Whose connections the operations of an application can change.
use whatsapp_notification_pl.Prelude.{
  ℕ, ◌≡◌, refl, sym, ap, ◌∙◌, ◌≢◌, Bool, true, false, not, ◌&&◌, Option, none, some, List, [], ◌∷◌,
  arith, ◌==◌, if◌then◌else◌, get_or, find?, filter, any, update_where, All,
}
use mathlib.Core.Path.{subst}
use whatsapp_notification_pl.Database.Records.{WhatsAppSession, Database}
use whatsapp_notification_pl.Database.Listing.{exists_for_session}
use whatsapp_notification_pl.Database.Sessions
use whatsapp_notification_pl.Database.Sessions.{list_for_application}
use whatsapp_notification_pl.Database.Sessions.Lifecycle
use whatsapp_notification_pl.Database.Sessions.Lifecycle.{is_session, without_session}
use whatsapp_notification_pl.Database.Transaction.{Result}
use whatsapp_notification_pl.Services.Sessions.Tasks.{SessionError, Task, Moment, Trace, run, ◌>>=◌}
use whatsapp_notification_pl.Services.Sessions.{
  SessionPorts, get_or_fail, start, stop, logout, delete,
}
use whatsapp_notification_pl.Guarantees.Sessions.{undisturbed, get-or-fail-missing}
use whatsapp_notification_pl.Guarantees.Sessions.Keeping.{Keeps, run-Keeps}
use whatsapp_notification_pl.Guarantees.Sessions.Keeping.Operations.{
  KeptByStatus, start-Keeps, stop-Keeps, logout-Keeps, delete-Keeps,
}

-- The primary key.
abbrev pub HasUniqueIds : List WhatsAppSession → Type 0
HasUniqueIds [] = Unit
HasUniqueIds (row ∷ rows) = All (λ other. (other.id == row.id) ≡ false) rows × HasUniqueIds rows

module _ (application_id session_id other : ℕ) (h : other ≢ application_id) where
  -- The identifier, with another application.
  abbrev is_foreign : WhatsAppSession → Bool
  is_foreign row = row.id == session_id && not (row.application_id == application_id)

  no-foreign-apart :
      (rows : List WhatsAppSession)
      → All (λ row. (row.id == session_id) ≡ false) rows
      → any is_foreign rows ≡ false
  no-foreign-apart [] u = refl
  no-foreign-apart (row ∷ rows) (u, us) = ground (arith, no-foreign-apart rows us)

  found-apart :
      (k : ℕ) (rows : List WhatsAppSession) (row : WhatsAppSession)
      → All (λ r. (r.id == k) ≡ false) rows
      → find? (is_session application_id session_id) rows ≡ some row
      → (session_id == k) ≡ false
  found-apart k [] row u e = cc
  found-apart k (r ∷ rows) row (u, us) e = ground (arith, found-apart k rows row us)

  no-foreign-found :
      (rows : List WhatsAppSession) (row : WhatsAppSession)
      → HasUniqueIds rows
      → find? (is_session application_id session_id) rows ≡ some row
      → any is_foreign rows ≡ false
  no-foreign-found [] row u e = refl
  no-foreign-found (r ∷ rows) row (u, us) e =
      go (is_session application_id session_id r) refl e (no-foreign-found rows row us)
    where
      go :
          (b : Bool)
          → is_session application_id session_id r ≡ b
          → (if b then some r else find? (is_session application_id session_id) rows) ≡ some row
          → (find? (is_session application_id session_id) rows ≡ some row
              → any is_foreign rows ≡ false)
          → any is_foreign (r ∷ rows) ≡ false
      go true m e' later =
          let same : r.id ≡ session_id = ground arith in
          ground (arith, no-foreign-apart rows (rw (sym same) u))
      go false m e' later = ground (arith, found-apart r.id rows row u e', later e')

  own-rows :
      (db : Database) (row : WhatsAppSession)
      → HasUniqueIds db.sessions
      → Sessions.find_by_id application_id session_id db ≡ some row
      → any is_foreign db.sessions ≡ false
  unfolding Sessions.find_by_id
  own-rows db row u e = no-foreign-found db.sessions row u e

  list-updated :
      (f : WhatsAppSession → WhatsAppSession) (rows : List WhatsAppSession)
      → ((row : WhatsAppSession) → (f row).application_id ≡ row.application_id)
      → any is_foreign rows ≡ false
      → filter
          (λ row. row.application_id == other)
          (update_where (λ row. row.id == session_id) f rows)
        ≡ filter (λ row. row.application_id == other) rows
  list-updated f [] same u = refl
  list-updated f (row ∷ rows) same u = ground (arith, h, same row, list-updated f rows same)

  no-foreign-updated :
      (f : WhatsAppSession → WhatsAppSession) (rows : List WhatsAppSession)
      → ((row : WhatsAppSession) → (f row).application_id ≡ row.application_id)
      → any is_foreign rows ≡ false
      → any is_foreign (update_where (λ row. row.id == session_id) f rows) ≡ false
  no-foreign-updated f [] same u = refl
  no-foreign-updated f (row ∷ rows) same u =
      ground (arith, same row, no-foreign-updated f rows same)

  list-removed :
      (rows : List WhatsAppSession)
      → filter
          (λ row. row.application_id == other)
          (filter (λ row. not (is_session application_id session_id row)) rows)
        ≡ filter (λ row. row.application_id == other) rows
  list-removed [] = refl
  list-removed (row ∷ rows) = ground (arith, h, list-removed rows)

  no-foreign-removed :
      (rows : List WhatsAppSession)
      → any is_foreign rows ≡ false
      → any is_foreign (filter (λ row. not (is_session application_id session_id row)) rows) ≡ false
  no-foreign-removed [] u = refl
  no-foreign-removed (row ∷ rows) u = ground (arith, no-foreign-removed rows)

  abbrev IsKept : (L : List WhatsAppSession) → Database → Type 0
  IsKept L db = (list_for_application other db ≡ L) × (any is_foreign db.sessions ≡ false)

  IsKept-status : (L : List WhatsAppSession) → KeptByStatus (IsKept L) session_id
  unfolding list_for_application Sessions.record_status
  IsKept-status L status phone_number push_name last_error now db (l, u) = (
    list-updated _ db.sessions (λ row. refl) u ∙ l,
    no-foreign-updated _ db.sessions (λ row. refl) u,
  )

  IsKept-delete :
      (L : List WhatsAppSession) (db next : Database)
      → IsKept L db
      → Lifecycle.delete application_id session_id db ≡ some next
      → IsKept L next
  unfolding list_for_application Lifecycle.delete
  IsKept-delete L db next (l, u) e =
      go (any (is_session application_id session_id) db.sessions)
        (exists_for_session application_id session_id db) e
    where
      go :
          (b c : Bool)
          → (if not b
              then some db
              else if c
              then none
              else some (without_session application_id session_id db))
            ≡ some next
          → IsKept L next
      go false c e = subst (IsKept L) (ap (λ o. get_or o db) e) (l, u)
      go true true e = absurd (cc e)
      go true false e =
          subst (IsKept L) (ap (λ o. get_or o db) e)
            (list-removed db.sessions ∙ l, no-foreign-removed db.sessions u)

-- The other applications' connections are as they were.
abbrev pub LeavesOthers :
    {A : Type 0} → (other : ℕ) → (before : Trace) → Trace × Result SessionError A → Type 0
LeavesOthers other before out =
    list_for_application other out.0.database ≡ list_for_application other before.database

module _ (moments : ℕ → Moment) (trace : Trace) (ports : SessionPorts)
    (application_id session_id other : ℕ) where
  abbrev pub LeaveOthers : Type 0
  LeaveOthers =
      LeavesOthers other trace
        (run (undisturbed moments) 0 trace (start ports application_id session_id))
      × LeavesOthers other trace
          (run (undisturbed moments) 0 trace (stop application_id session_id))
      × LeavesOthers other trace
          (run (undisturbed moments) 0 trace (logout application_id session_id))
      × LeavesOthers other trace
          (run (undisturbed moments) 0 trace (delete application_id session_id))

  -- Whatever connection an application names, its own, another's or none, and whatever the provider
  -- answers: starting, stopping, unpairing or deleting it leaves every connection of every other
  -- application as it was, if nobody else writes meanwhile and no two rows have the same identifier.
  pub operations_leave_others :
      HasUniqueIds trace.database.sessions → other ≢ application_id → LeaveOthers
  unfolding start stop logout delete ◌>>=◌
  operations_leave_others u h =
      go (Sessions.find_by_id application_id session_id trace.database) refl
    where
      missing :
          {A : Type 0} (f : WhatsAppSession → Task A)
          → Sessions.find_by_id application_id session_id trace.database ≡ none
          → LeavesOthers other trace
              (run (undisturbed moments) 0 trace (get_or_fail application_id session_id >>= f))
      missing f e =
          ap (λ out. list_for_application other out.0.database)
            (get-or-fail-missing (undisturbed moments) 0 trace application_id session_id f e)

      L : List WhatsAppSession
      L = list_for_application other trace.database

      P : Database → Type 0
      P = IsKept application_id session_id other h L

      kept :
          {A : Type 0} (task : Task A) (row : WhatsAppSession)
          → Sessions.find_by_id application_id session_id trace.database ≡ some row
          → Keeps P task
          → LeavesOthers other trace (run (undisturbed moments) 0 trace task)
      kept task row e k =
          (run-Keeps P moments 0 trace task k
            (refl, own-rows application_id session_id other h trace.database row u e)).0

      go :
          (o : Option WhatsAppSession)
          → Sessions.find_by_id application_id session_id trace.database ≡ o
          → LeaveOthers
      go none e = (missing _ e, missing _ e, missing _ e, missing _ e)
      go (some row) e =
          let status = IsKept-status application_id session_id other h L in
          (
            kept _ row e (start-Keeps P ports application_id session_id status),
            kept _ row e (stop-Keeps P application_id session_id status),
            kept _ row e (logout-Keeps P application_id session_id status),
            kept _ row e (
                delete-Keeps P application_id session_id
                  (IsKept-delete application_id session_id other h L)),
          )
