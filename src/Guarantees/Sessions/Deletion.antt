-- ===== src/Guarantees/Sessions/Deletion.antt =====
-- `delete` of packages/composition/src/whatsapp/whatsapp-session.service.ts.
use whatsapp_notification_pl.Prelude.{
  ℕ, suc, ◌≡◌, refl, ap, ◌∙◌, ◌≢◌, ◌↔◌, Bool, true, false, not, ◌&&◌, Option, none, some, List, [],
  ◌∷◌, arith, if◌then◌else◌, is_some, find?, filter, any,
}
use whatsapp_notification_pl.Database.Records.{WhatsAppSession, Database}
use whatsapp_notification_pl.Database.Listing.{exists_for_session}
use whatsapp_notification_pl.Database.Sessions
use whatsapp_notification_pl.Database.Sessions.Lifecycle
use whatsapp_notification_pl.Database.Sessions.Lifecycle.{is_session, without_session}
use whatsapp_notification_pl.Database.Transaction.{ok, error}
use whatsapp_notification_pl.Program.{ProviderResult}
use whatsapp_notification_pl.Services.Sessions.Tasks.{
  whatsapp_session_in_use, database_refused, delete_session, Task, run, Moment, Trace, ◌>>=◌, query,
  throw, change, whatsapp_provider_unavailable, ask_deletion, meanwhile,
}
use whatsapp_notification_pl.Services.Sessions.{get_or_fail, is_gone, remove_gone, delete}
use whatsapp_notification_pl.Guarantees.Sessions.{
  undisturbed, seen, get-or-fail-found, get-or-fail-missing,
}

find-filter-not :
    (p : WhatsAppSession → Bool) (rows : List WhatsAppSession)
    → find? p (filter (λ row. not (p row)) rows) ≡ none
find-filter-not p [] = refl
find-filter-not p (row ∷ rows) = ground (arith, find-filter-not p rows)

any-find :
    (p : WhatsAppSession → Bool) (rows : List WhatsAppSession) (row : WhatsAppSession)
    → find? p rows ≡ some row
    → any p rows ≡ true
any-find p [] row e = cc
any-find p (r ∷ rows) row e = ground (arith, any-find p rows row)

-- The statement on a row that is there.
delete-unused :
    (application_id session_id : ℕ) (db : Database) (row : WhatsAppSession)
    → Sessions.find_by_id application_id session_id db ≡ some row
    → exists_for_session application_id session_id db ≡ false
    → Lifecycle.delete application_id session_id db
      ≡ some (without_session application_id session_id db)
unfolding Sessions.find_by_id Lifecycle.delete
delete-unused application_id session_id db row e unused =
    rw (any-find (is_session application_id session_id) db.sessions row e, unused) refl

delete-used :
    (application_id session_id : ℕ) (db : Database) (row : WhatsAppSession)
    → Sessions.find_by_id application_id session_id db ≡ some row
    → exists_for_session application_id session_id db ≡ true
    → Lifecycle.delete application_id session_id db ≡ none
unfolding Sessions.find_by_id Lifecycle.delete
delete-used application_id session_id db row e used =
    rw (any-find (is_session application_id session_id) db.sessions row e, used) refl

find-without :
    (application_id session_id : ℕ) (db : Database)
    → Sessions.find_by_id application_id session_id (without_session application_id session_id db)
      ≡ none
unfolding Sessions.find_by_id
find-without application_id session_id db =
    find-filter-not (is_session application_id session_id) db.sessions

abbrev answer :
    (application_id session_id : ℕ) → WhatsAppSession → (in_use : Bool) → Task (Unit {0})
answer application_id session_id row in_use =
    if in_use
    then throw whatsapp_session_in_use
    else ask_deletion row.provider_session_name (remove_gone application_id session_id)

-- What `delete` does once it has the row.
abbrev confirm : (application_id session_id : ℕ) → WhatsAppSession → Task (Unit {0})
confirm application_id session_id row = do
  in_use ← query (exists_for_session application_id session_id)
  answer application_id session_id row in_use

module _ (moments : ℕ → Moment) (i : ℕ) (trace : Trace) (application_id session_id : ℕ) where
  confirm_lem :
      (row : WhatsAppSession) (used : Bool)
      → exists_for_session application_id session_id ((moments i).others trace.database) ≡ used
      → run moments i trace (confirm application_id session_id row)
        ≡ run moments
            (suc i)
            (meanwhile (moments i) trace)
            (answer application_id session_id row used)
  unfolding run ◌>>=◌
  confirm_lem row used u =
      ap
        (λ b.
          run moments (suc i) (meanwhile (moments i) trace)
            (answer application_id session_id row b))
        u

  remove_gone_lem :
      (deleted : ProviderResult (Unit {0})) (gone : Bool)
      → is_gone deleted ≡ gone
      → run moments i trace (remove_gone application_id session_id deleted)
        ≡ run moments i trace (
            if not gone
            then throw whatsapp_provider_unavailable
            else change (Lifecycle.delete application_id session_id))
  unfolding run
  remove_gone_lem deleted gone g =
      ap
        (λ b. run moments i trace (
          if not b
          then throw whatsapp_provider_unavailable
          else change (Lifecycle.delete application_id session_id)))
        g

-- A notification that refers to a connection and is written while the connection is being deleted
-- leaves it without its session at the provider: where the connection was there and unused when it
-- was checked, the provider deletes the session or has none, and before the row is removed a
-- notification refers to it, the database refuses, and the task fails with the provider told to
-- delete and the row still there.
pub delete-race :
    (moments : ℕ → Moment) (trace : Trace) (application_id session_id : ℕ)
    (row later : WhatsAppSession)
    → Sessions.find_by_id application_id session_id (seen moments trace.database 0) ≡ some row
    → exists_for_session application_id session_id (seen moments trace.database 1) ≡ false
    → is_gone (moments 2).deletion ≡ true
    → Sessions.find_by_id application_id session_id (seen moments trace.database 3) ≡ some later
    → exists_for_session application_id session_id (seen moments trace.database 3) ≡ true
    → run moments 0 trace (delete application_id session_id) ≡ (
      record {
        database = seen moments trace.database 3;
        calls = delete_session row.provider_session_name ∷ trace.calls;
      },
      error database_refused,
    )
unfolding run delete get_or_fail ◌>>=◌
delete-race moments trace application_id session_id row later e unused gone e' used =
    get-or-fail-found moments 0 trace application_id session_id (confirm application_id session_id)
      row e
    ∙ confirm_lem moments 1 (meanwhile (moments 0) trace) application_id session_id row false unused
    ∙ remove_gone_lem moments 3
        (record {
          database = seen moments trace.database 2;
          calls = delete_session row.provider_session_name ∷ trace.calls;
        })
        application_id session_id (moments 2).deletion true gone
    ∙ rw (run, delete-used application_id session_id (seen moments trace.database 3) later e' used)
        refl

-- Deleted, if nobody else writes meanwhile.
abbrev pub Deletes : (moments : ℕ → Moment) → Trace → (application_id session_id : ℕ) → Type 0
Deletes moments trace application_id session_id =
    let out = run (undisturbed moments) 0 trace (delete application_id session_id) in
    let found = is_some (Sessions.find_by_id application_id session_id trace.database) in
    let used = exists_for_session application_id session_id trace.database in
    ((out.1 ≡ ok tt) ↔ ((found && (not used && is_gone (moments 2).deletion)) ≡ true))
    × (out.1 ≡ ok tt
        → (out.0.database ≡ without_session application_id session_id trace.database)
          × (Sessions.find_by_id application_id session_id out.0.database ≡ none))
    × (out.1 ≢ ok tt → out.0.database ≡ trace.database)
    × ((found && not used) ≡ false → out.0 ≡ trace)

-- If nobody else writes meanwhile, a deletion succeeds exactly when the connection is there, is the
-- application's, no notification refers to it, and the provider deletes the session or has none; then
-- the row and its callbacks are removed and nothing else, and otherwise the database is left as it
-- was. The provider is told nothing where the connection is not there or in use.
pub delete_lem :
    (moments : ℕ → Moment) (trace : Trace) (application_id session_id : ℕ)
    → Deletes moments trace application_id session_id
unfolding run delete get_or_fail ◌>>=◌
delete_lem moments trace application_id session_id =
    go (Sessions.find_by_id application_id session_id trace.database)
      (exists_for_session application_id session_id trace.database) (is_gone (moments 2).deletion)
      refl refl refl
  where
    quiet : ℕ → Moment
    quiet = undisturbed moments

    rest : WhatsAppSession → Task (Unit {0})
    rest = confirm application_id session_id

    asked : WhatsAppSession → Trace
    asked row = record trace { calls = delete_session row.provider_session_name ∷ trace.calls }

    confirmed :
        (row : WhatsAppSession) (used : Bool)
        → Sessions.find_by_id application_id session_id trace.database ≡ some row
        → exists_for_session application_id session_id trace.database ≡ used
        → run quiet 0 trace (get_or_fail application_id session_id >>= rest)
          ≡ run quiet 2 trace (answer application_id session_id row used)
    confirmed row used e u =
        get-or-fail-found quiet 0 trace application_id session_id rest row e
        ∙ confirm_lem quiet 1 trace application_id session_id row used u

    asking :
        (row : WhatsAppSession) (gone : Bool)
        → Sessions.find_by_id application_id session_id trace.database ≡ some row
        → exists_for_session application_id session_id trace.database ≡ false
        → is_gone (moments 2).deletion ≡ gone
        → run quiet 0 trace (get_or_fail application_id session_id >>= rest)
          ≡ run quiet 3 (asked row) (
              if not gone
              then throw whatsapp_provider_unavailable
              else change (Lifecycle.delete application_id session_id))
    asking row gone e u g =
        confirmed row false e u
        ∙ remove_gone_lem quiet 3 (asked row) application_id session_id (moments 2).deletion gone g

    go :
        (o : Option WhatsAppSession) (used gone : Bool)
        → Sessions.find_by_id application_id session_id trace.database ≡ o
        → exists_for_session application_id session_id trace.database ≡ used
        → is_gone (moments 2).deletion ≡ gone
        → Deletes moments trace application_id session_id
    go none used gone e u g =
        rw (get-or-fail-missing quiet 0 trace application_id session_id rest e, e)
          ((cc, cc), cc, (λ _. refl), (λ _. refl))
    go (some row) true gone e u g =
        rw (confirmed row true e u, e, u) ((cc, cc), cc, (λ _. refl), (λ _. refl))
    go (some row) false false e u g =
        rw (asking row false e u g, e, u, g) ((cc, cc), cc, (λ _. refl), cc)
    go (some row) false true e u g =
        rw
          (
            asking row true e u g,
            run,
            delete-unused application_id session_id trace.database row e u,
            e,
            u,
            g,
          )
          (
            ((λ _. refl), (λ _. refl)),
            (λ _. (refl, find-without application_id session_id trace.database)),
            (λ f. absurd (f refl)),
            cc,
          )
