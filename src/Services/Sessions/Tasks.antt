-- ===== src/Services/Sessions/Tasks.antt =====
-- The tasks of packages/composition/src/whatsapp/whatsapp-session.service.ts. A task is the tree of
-- what it awaits; what other processes do to the database meanwhile is part of the moment at which a
-- step is run.
use whatsapp_notification_pl.Prelude.{ℕ, suc, Option, none, some, List, [], ◌∷◌, Text}
use whatsapp_notification_pl.Database.Records.{WhatsAppSession, Database}
use whatsapp_notification_pl.Database.Transaction.{Result, ok, error}
use whatsapp_notification_pl.Program
use whatsapp_notification_pl.Program.{
  Prog, Answers, ProviderResult, succeeded, failed, ProviderSession,
}

-- `database_refused` is a statement that breaks a constraint of the schema.
pub data SessionError : Type 0 where
  whatsapp_session_not_found whatsapp_session_not_scannable whatsapp_session_in_use
        whatsapp_provider_unavailable database_refused :
      SessionError

pub record CreateSessionInput : Type 0 where
  pub session_name : Text
  pub webhook_url : Text
  pub webhook_signing_key : Text

-- What the provider is asked; every session is created started.
pub data ProviderCall : Type 0 where
  create_session : CreateSessionInput → ProviderCall
  start_session stop_session logout_session : (session_name : Text) → ProviderCall
  delete_session read_qr_code : (session_name : Text) → ProviderCall

pub data Task (A : Type 0) : Type 0 where
  done : A → Task A
  throw : SessionError → Task A
  read_clock : (ℕ → Task A) → Task A
  transact : (Database → Option Database) → (Database → Task A) → Task A
  ask : ProviderCall → (ProviderResult ProviderSession → Task A) → Task A
  ask_deletion : (session_name : Text) → (ProviderResult (Unit {0}) → Task A) → Task A
  ask_qr_code : (session_name : Text) → (ProviderResult Text → Task A) → Task A
  await : Prog WhatsAppSession → (WhatsAppSession → Task A) → Task A

infixl 5 ◌>>=◌ ◌>>◌
unfoldable pub ◌>>=◌ : {A B : Type 0} → Task A → (A → Task B) → Task B
done a >>= f = f a
throw e >>= f = throw e
read_clock k >>= f = read_clock (λ x. k x >>= f)
transact t k >>= f = transact t (λ x. k x >>= f)
ask c k >>= f = ask c (λ x. k x >>= f)
ask_deletion c k >>= f = ask_deletion c (λ x. k x >>= f)
ask_qr_code c k >>= f = ask_qr_code c (λ x. k x >>= f)
await p k >>= f = await p (λ x. k x >>= f)

unfoldable pub ◌>>◌ : {A B : Type 0} → Task A → Task B → Task B
unfolding ◌>>=◌
p >> q = p >>= λ _. q

abbrev pub query : {R : Type 0} → (Database → R) → Task R
query f = transact (λ db. some db) (λ db. done (f db))

abbrev pub change : (Database → Option Database) → Task (Unit {0})
change f = transact f (λ db. done tt)

-- What happens at an await: what other processes did to the database before it, and what the world
-- outside answers.
pub record Moment : Type 0 where
  pub others : Database → Database
  pub time : ℕ
  pub session : ProviderResult ProviderSession
  pub deletion : ProviderResult (Unit {0})
  pub qr_code : ProviderResult Text
  pub refresh : ℕ → Answers

-- The database, and what the provider was asked, the latest first.
pub record Trace : Type 0 where
  pub database : Database
  pub calls : List ProviderCall

abbrev pub meanwhile : Moment → Trace → Trace
meanwhile moment trace = record trace { database = moment.others trace.database }

abbrev pub called : ProviderCall → Trace → Trace
called c trace = record trace { calls = c ∷ trace.calls }

-- From the await number `i` on.
unfoldable pub run :
    {A : Type 0} → (ℕ → Moment) → (i : ℕ) → Trace → Task A → Trace × Result SessionError A
run moments i trace (done a) = (trace, ok a)
run moments i trace (throw e) = (trace, error e)
run moments i trace (read_clock k) =
    run moments (suc i) (meanwhile (moments i) trace) (k (moments i).time)
run moments i trace (transact f k) =
    let db = (moments i).others trace.database in
    elim (f db) [
      | some next ↦ run moments (suc i) (record trace { database = next }) (k db)
      | none ↦ (record trace { database = db }, error database_refused)
    ]
run moments i trace (ask c k) =
    run moments (suc i) (called c (meanwhile (moments i) trace)) (k (moments i).session)
run moments i trace (ask_deletion c k) =
    run moments (suc i) (called (delete_session c) (meanwhile (moments i) trace))
      (k (moments i).deletion)
run moments i trace (ask_qr_code c k) =
    run moments (suc i) (called (read_qr_code c) (meanwhile (moments i) trace))
      (k (moments i).qr_code)
run moments i trace (await p k) =
    let result =
      Program.run (moments i).refresh 0
        (record { database = (moments i).others trace.database; sends = [] }) p in
    run moments (suc i) (record trace { database = result.1.database }) (k result.2)
