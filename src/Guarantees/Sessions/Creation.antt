-- ===== src/Guarantees/Sessions/Creation.antt =====
-- `create` of packages/composition/src/whatsapp/whatsapp-session.service.ts.
use whatsapp_notification_pl.Prelude.{
  ℕ, ◌≡◌, refl, ap, Bool, true, false, not, none, some, List, [], ◌∷◌, ◌++◌, arith, ◌==◌, find?,
  filter, any, update_where, Text,
}
use whatsapp_notification_pl.Database.Records.{WhatsAppSession, WebhookDelivery, Database}
use whatsapp_notification_pl.Database.Listing.{exists_for_session}
use whatsapp_notification_pl.Database.Sessions
use whatsapp_notification_pl.Database.Sessions.Lifecycle
use whatsapp_notification_pl.Database.Sessions.Lifecycle.{conflicts, is_session, is_delivered_to}
use whatsapp_notification_pl.Database.Transaction.{ok, error}
use whatsapp_notification_pl.Domain.Failure.{ProviderFailure}
use whatsapp_notification_pl.Program.{ProviderResult, ProviderSession, succeeded, failed}
use whatsapp_notification_pl.Services.Sessions.Tasks.{
  whatsapp_provider_unavailable, database_refused, create_session, run, Moment, Trace, ◌>>=◌, ◌>>◌,
}
use whatsapp_notification_pl.Services.Sessions.{
  SessionPorts, Generated, created_row, to_webhook_url, create,
}
use whatsapp_notification_pl.Guarantees.Sessions.{undisturbed, get-or-fail-last}

module _ (new : WhatsAppSession) where
  update-appended :
      (f : WhatsAppSession → WhatsAppSession) (rows : List WhatsAppSession)
      → any (conflicts new) rows ≡ false
      → update_where (λ row. row.id == new.id) f (rows ++ (new ∷ [])) ≡ rows ++ (f new ∷ [])
  update-appended f [] h = ground arith
  update-appended f (row ∷ rows) h = ground (arith, update-appended f rows)

  find-appended :
      (last : WhatsAppSession) (rows : List WhatsAppSession)
      → any (conflicts new) rows ≡ false
      → last.id ≡ new.id
      → find? (is_session last.application_id new.id) (rows ++ (last ∷ [])) ≡ some last
  find-appended last [] h e = ground arith
  find-appended last (row ∷ rows) h e = ground (arith, find-appended last rows)

  any-appended :
      (rows : List WhatsAppSession)
      → any (is_session new.application_id new.id) (rows ++ (new ∷ [])) ≡ true
  any-appended [] = ground arith
  any-appended (row ∷ rows) = ground (arith, any-appended rows)

  filter-appended :
      (rows : List WhatsAppSession)
      → any (conflicts new) rows ≡ false
      → filter (λ row. not (is_session new.application_id new.id row)) (rows ++ (new ∷ [])) ≡ rows
  filter-appended [] h = ground arith
  filter-appended (row ∷ rows) h = ground (arith, filter-appended rows)

filter-none :
    (p : WebhookDelivery → Bool) (rows : List WebhookDelivery)
    → any p rows ≡ false
    → filter (λ row. not (p row)) rows ≡ rows
filter-none p [] h = refl
filter-none p (row ∷ rows) h = ground (arith, filter-none p rows)

-- No row has the identifier or the name at the provider, or refers to them.
pub record IsFresh (new : WhatsAppSession) (db : Database) : Type 0 where
  pub no_session : any (conflicts new) db.sessions ≡ false
  pub no_notification : exists_for_session new.application_id new.id db ≡ false
  pub no_delivery : any (is_delivered_to new.application_id new.id) db.deliveries ≡ false

-- The row once the provider has created the session.
abbrev pub connected : WhatsAppSession → ProviderSession → (now : ℕ) → WhatsAppSession
connected new live now = record new {
  status = live.status;
  phone_number = live.phone_number;
  push_name = live.push_name;
  last_error = none;
  last_status_at = now;
  updated_at = now;
}

insert-fresh :
    (new : WhatsAppSession) (db : Database)
    → any (conflicts new) db.sessions ≡ false
    → Lifecycle.insert new db ≡ some (record db { sessions = db.sessions ++ (new ∷ []) })
unfolding Lifecycle.insert
insert-fresh new db h = rw (h) refl

delete-inserted :
    (new : WhatsAppSession) (db : Database)
    → IsFresh new db
    → Lifecycle.delete new.application_id new.id
        (record db { sessions = db.sessions ++ (new ∷ []) })
      ≡ some db
unfolding Lifecycle.delete exists_for_session
delete-inserted new db fresh =
    rw
      (
        any-appended new db.sessions,
        fresh.no_notification,
        filter-appended new db.sessions fresh.no_session,
        filter-none (is_delivered_to new.application_id new.id) db.deliveries fresh.no_delivery,
      )
      refl

connect-inserted :
    (new : WhatsAppSession) (live : ProviderSession) (now : ℕ) (db : Database)
    → any (conflicts new) db.sessions ≡ false
    → Sessions.record_status new.id live.status live.phone_number live.push_name none now
        (record db { sessions = db.sessions ++ (new ∷ []) })
      ≡ record db { sessions = db.sessions ++ (connected new live now ∷ []) }
unfolding Sessions.record_status
connect-inserted new live now db h =
    ap (λ rows. record db { sessions = rows })
      (update-appended new (λ row. connected row live now) db.sessions h)

pub find-connected :
    (new : WhatsAppSession) (live : ProviderSession) (now : ℕ) (db : Database)
    → any (conflicts new) db.sessions ≡ false
    → Sessions.find_by_id new.application_id new.id
        (record db { sessions = db.sessions ++ (connected new live now ∷ []) })
      ≡ some (connected new live now)
unfolding Sessions.find_by_id
find-connected new live now db h = find-appended new (connected new live now) db.sessions h refl

module _ (moments : ℕ → Moment) (trace : Trace) (ports : SessionPorts) (generated : Generated)
    (application_id : ℕ) (display_name : Text) where
  abbrev pub new_row : WhatsAppSession
  new_row = created_row ports generated application_id display_name

  abbrev pub told : Trace
  told = record trace {
    calls =
        create_session (record {
          session_name = new_row.provider_session_name;
          webhook_url = to_webhook_url ports new_row.id;
          webhook_signing_key = generated.signing_key;
        })
        ∷ trace.calls;
  }

  create_undone :
      (f : ProviderFailure)
      → IsFresh new_row trace.database
      → (moments 1).session ≡ failed f
      → run (undisturbed moments) 0 trace (create ports generated application_id display_name)
        ≡ (told, error whatsapp_provider_unavailable)
  unfolding run create ◌>>=◌ ◌>>◌
  create_undone f fresh e =
      rw
        (
          run,
          insert-fresh new_row trace.database fresh.no_session,
          e,
          delete-inserted new_row trace.database fresh,
        )
        refl

  pub create_done :
      (live : ProviderSession)
      → IsFresh new_row trace.database
      → (moments 1).session ≡ succeeded live
      → let row = connected new_row live (moments 2).time in
        run (undisturbed moments) 0 trace (create ports generated application_id display_name) ≡ (
          record told {
            database = record trace.database { sessions = trace.database.sessions ++ (row ∷ []) };
          },
          ok row,
        )
  unfolding run create ◌>>=◌ ◌>>◌
  create_done live fresh e =
      let now = (moments 2).time in
      rw
        (
          run,
          insert-fresh new_row trace.database fresh.no_session,
          e,
          connect-inserted new_row live now trace.database fresh.no_session,
        )
        (get-or-fail-last (undisturbed moments) 4
          (record told {
            database = record trace.database {
              sessions = trace.database.sessions ++ (connected new_row live now ∷ []);
            };
          })
          application_id new_row.id (connected new_row live now)
          (find-connected new_row live now trace.database fresh.no_session))

  -- A name or identifier that is taken: nothing is asked or written.
  create_refused :
      any (conflicts new_row) trace.database.sessions ≡ true
      → run (undisturbed moments) 0 trace (create ports generated application_id display_name)
        ≡ (trace, error database_refused)
  unfolding run create ◌>>=◌ ◌>>◌ Lifecycle.insert
  create_refused h = rw (h) refl

  -- What a creation leaves, by what the provider answers.
  abbrev pub Creates : ProviderResult ProviderSession → Type 0
  Creates (failed f) =
      run (undisturbed moments) 0 trace (create ports generated application_id display_name)
      ≡ (told, error whatsapp_provider_unavailable)
  Creates (succeeded live) =
      let row = connected new_row live (moments 2).time in
      run (undisturbed moments) 0 trace (create ports generated application_id display_name) ≡ (
        record told {
          database = record trace.database { sessions = trace.database.sessions ++ (row ∷ []) };
        },
        ok row,
      )

  -- If nobody else writes meanwhile and the generated identifier and name are fresh, the provider is
  -- asked once to create a session of that name, with the key whose ciphertext the row holds. Where it
  -- does, one row is added, with what the provider says of the session; where it fails, the creation
  -- fails and the database is as it was.
  pub create_both_or_neither : IsFresh new_row trace.database → Creates (moments 1).session
  create_both_or_neither fresh = by_answer (moments 1).session refl
    where
      by_answer :
          (answer : ProviderResult ProviderSession) → (moments 1).session ≡ answer → Creates answer
      by_answer (failed f) e = create_undone f fresh e
      by_answer (succeeded live) e = create_done live fresh e
