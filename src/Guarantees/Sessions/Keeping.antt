-- ===== src/Guarantees/Sessions/Keeping.antt =====
-- What every statement of a task on connections keeps, the task keeps.
pub mod Operations
use whatsapp_notification_pl.Prelude.{
  ℕ, suc, ◌≡◌, refl, ap, Option, none, some, [], ◌∷◌, get_or, Text,
}
use mathlib.Core.Path.{subst}
use whatsapp_notification_pl.Database.Records.{WhatsAppSession, Database}
use whatsapp_notification_pl.Database.Sessions
use whatsapp_notification_pl.Database.Sessions.Lifecycle
use whatsapp_notification_pl.Database.Transaction.{Result, error}
use whatsapp_notification_pl.Program
use whatsapp_notification_pl.Program.{Answers, ProviderResult, ProviderSession}
use whatsapp_notification_pl.Services.Sessions.Tasks.{
  Task, done, throw, read_clock, transact, ask, ask_deletion, ask_qr_code, await, Moment, Trace,
  run, ProviderCall, SessionError,
}
use whatsapp_notification_pl.Guarantees.Sessions.{undisturbed}

-- Every statement of the task keeps the predicate, whatever the answers.
module _ (P : Database → Type 0) where
  abbrev pub Keeps : {A : Type 0} → Task A → Type 0
  Keeps (done a) = Unit
  Keeps (throw e) = Unit
  Keeps (read_clock k) = (t : ℕ) → Keeps (k t)
  Keeps (transact f k) =
      (db : Database) → P db → ((next : Database) → f db ≡ some next → P next) × Keeps (k db)
  Keeps (ask c k) = (answer : ProviderResult ProviderSession) → Keeps (k answer)
  Keeps (ask_deletion c k) = (answer : ProviderResult (Unit {0})) → Keeps (k answer)
  Keeps (ask_qr_code c k) = (answer : ProviderResult Text) → Keeps (k answer)
  Keeps (await p k) =
      (answers : ℕ → Answers) (db : Database)
      → P db
      → P (Program.run answers 0 (record { database = db; sends = [] }) p).1.database
        × ((row : WhatsAppSession) → Keeps (k row))

  pub run-Keeps :
      {A : Type 0} (moments : ℕ → Moment) (i : ℕ) (trace : Trace) (task : Task A)
      → Keeps task
      → P trace.database
      → P (run (undisturbed moments) i trace task).0.database
  unfolding run
  run-Keeps moments i trace (done a) h p = p
  run-Keeps moments i trace (throw e) h p = p
  run-Keeps moments i trace (read_clock k) h p =
      run-Keeps moments (suc i) trace (k (moments i).time) (h (moments i).time) p
  run-Keeps {A = A} moments i trace (transact f k) h p = go (f trace.database) refl (λ next q.
      run-Keeps moments (suc i) (record trace { database = next }) (k trace.database)
        (h trace.database p).1 q)
    where
      go :
          (o : Option Database)
          → f trace.database ≡ o
          → ((next : Database)
              → P next
              → P
                  (run
                    (undisturbed moments)
                    (suc i)
                    (record trace { database = next })
                    (k trace.database)).0.database)
          → P
              (elim o as (λ _. Trace × Result SessionError A) [
                | some next ↦
                    run
                      (undisturbed moments)
                      (suc i)
                      (record trace { database = next })
                      (k trace.database)
                | none ↦ (trace, error SessionError.database_refused)
              ]).0.database
      go none e rest = p
      go (some next) e rest = rest next ((h trace.database p).0 next e)
  run-Keeps moments i trace (ask c k) h p =
      run-Keeps moments (suc i) (record trace { calls = c ∷ trace.calls }) (k (moments i).session)
        (h (moments i).session) p
  run-Keeps moments i trace (ask_deletion c k) h p =
      run-Keeps moments (suc i)
        (record trace { calls = ProviderCall.delete_session c ∷ trace.calls })
        (k (moments i).deletion) (h (moments i).deletion) p
  run-Keeps moments i trace (ask_qr_code c k) h p =
      run-Keeps moments (suc i) (record trace { calls = ProviderCall.read_qr_code c ∷ trace.calls })
        (k (moments i).qr_code) (h (moments i).qr_code) p
  run-Keeps moments i trace (await q k) h p =
      let result =
        Program.run (moments i).refresh 0 (record { database = trace.database; sends = [] }) q in
      run-Keeps moments (suc i) (record trace { database = result.1.database }) (k result.2)
        ((h (moments i).refresh trace.database p).1 result.2)
        (h (moments i).refresh trace.database p).0

  pub same_database : (db next : Database) → P db → some db ≡ some next → P next
  same_database db next p e = subst P (ap (λ o. get_or o db) e) p
