-- ===== src/Guarantees/Creation/Steps.antt =====
-- The steps of a creation that ends well, one by one.
use whatsapp_notification_pl.Prelude.{
  ℕ, ◌+◌, ◌*◌, ◌≡◌, refl, sym, ap, ◌∙◌, Bool, true, false, not, Option, none, some, List, [], ◌∷◌,
  ◌++◌, ◌==◌, if◌then◌else◌, find?, filter, any, Text, text_eq,
}
use whatsapp_notification_pl.Database.Records.{
  Notification, WhatsAppSession, IdempotencyKey, KeyState, in_flight, completed, Database,
}
use whatsapp_notification_pl.Database.Transaction.{
  ok, error, ◌>>◌, return, throw, write, and_then, ok-injective,
}
use whatsapp_notification_pl.Database.IdempotencyKeys.{
  IdempotencyClaimInput, IdempotencyClaim, claimed, exists_already, find_key, holds_key,
  claimed_row, complete_row, reap, claim, complete,
}
use whatsapp_notification_pl.Database.IdempotencyKeys
use whatsapp_notification_pl.Database.Notifications.{
  find_by_id, insert, append_event, hand_to_queue,
}
use whatsapp_notification_pl.Database.Sessions.{list_for_application}
use whatsapp_notification_pl.Services.Creation.Requests.{
  NotificationRequest, Generated, CreationError, idempotency_key_reused, idempotency_key_in_flight,
  primary_key_violation, foreign_key_violation, check_violation, notification_unreadable,
  no_whatsapp_session, whatsapp_session_not_found,
}
use whatsapp_notification_pl.Services.Creation.Claiming.{
  CreationStep, idempotency_window_hours, or_throw, ClaimResult, fresh, completed_claim,
  read_or_fail, choose_session, resolve_session, read_existing, read_claim, claim_key,
  claim_idempotency_key,
}
use whatsapp_notification_pl.Services.Creation.Writing.{
  Draft, drafted_notification, creation_event, creation_job, references_key, references_session,
  is_within_checks, insert_notification, write_notification,
}

or_throw-ok :
    {A : Type 0} (e : CreationError) (o : Option A) (db db' : Database) (a : A)
    → or_throw e o db ≡ ok (db', a)
    → (db' ≡ db) × (o ≡ some a)
or_throw-ok e none db db' a h = cc
or_throw-ok e (some b) db db' a h =
    let (same, value) = ok-injective db db' b a h in (sym same, ap some value)

pub read_or_fail-ok :
    (application_id id : ℕ) (db db' : Database) (n : Notification)
    → read_or_fail application_id id db ≡ ok (db', n)
    → (db' ≡ db) × (find_by_id application_id id db ≡ some n)
unfolding read_or_fail
read_or_fail-ok application_id id db db' n h =
    or_throw-ok notification_unreadable (find_by_id application_id id db) db db' n h

pub read_or_fail-some :
    (application_id id : ℕ) (db : Database) (n : Notification)
    → find_by_id application_id id db ≡ some n
    → read_or_fail application_id id db ≡ ok (db, n)
unfolding read_or_fail
read_or_fail-some application_id id db n h =
    ap (λ (o : Option Notification). or_throw notification_unreadable o db) h

-- A session that is chosen is chosen again, whatever else of the database has changed.
pub resolve_session-ok :
    (application_id : ℕ) (requested : Option ℕ) (db db' : Database) (s : WhatsAppSession)
    → resolve_session application_id requested db ≡ ok (db', s)
    → (db' ≡ db)
      × ((later : Database)
          → later.sessions ≡ db.sessions
          → resolve_session application_id requested later ≡ ok (later, s))
unfolding resolve_session list_for_application
resolve_session-ok application_id none db db' s h =
    let (same, chosen) =
      or_throw-ok no_whatsapp_session (choose_session (list_for_application application_id db)) db
        db' s h in
    (
      same,
      λ later e.
          ap
            (λ (sessions : List WhatsAppSession).
              or_throw no_whatsapp_session
                (choose_session (filter (λ row. row.application_id == application_id) sessions))
                later)
            e
          ∙ ap (λ (o : Option WhatsAppSession). or_throw no_whatsapp_session o later) chosen,
    )
resolve_session-ok application_id (some id) db db' s h =
    let (same, chosen) =
      or_throw-ok whatsapp_session_not_found
        (find? (λ (s : WhatsAppSession). s.id == id) (list_for_application application_id db)) db
        db' s h in
    (
      same,
      λ later e.
          ap
            (λ (sessions : List WhatsAppSession).
              or_throw whatsapp_session_not_found
                (find? (λ (s : WhatsAppSession). s.id == id)
                  (filter (λ row. row.application_id == application_id) sessions))
                later)
            e
          ∙ ap (λ (o : Option WhatsAppSession). or_throw whatsapp_session_not_found o later) chosen,
    )

-- What a claim finds.
pub data Claimed (generated : Generated) (request : NotificationRequest) (fingerprint : Text)
    (now : ℕ) (db db' : Database) (result : ClaimResult) : Type 0 where
  unkeyed :
      request.idempotency_key ≡ none
      → db' ≡ db
      → result ≡ fresh none generated.lock_token
      → Claimed generated request fingerprint now db db' result
  first :
      (key : Text)
      → (row : IdempotencyKey)
      → row
        ≡ claimed_row generated.idempotency_key_id (record {
          application_id = request.application_id;
          key = key;
          request_path = request.request_path;
          request_fingerprint = fingerprint;
          lock_token = generated.lock_token;
          expires_at = now + idempotency_window_hours * 3_600_000;
        })
      → request.idempotency_key ≡ some key
      → find_key request.application_id key db ≡ none
      → db' ≡ record db { idempotency_keys = db.idempotency_keys ++ row ∷ [] }
      → result ≡ fresh (some generated.idempotency_key_id) generated.lock_token
      → Claimed generated request fingerprint now db db' result
  again :
      (key : Text)
      → (row : IdempotencyKey) → request.idempotency_key ≡ some key
      → find_key request.application_id key db ≡ some row
      → text_eq row.request_fingerprint fingerprint ≡ true
      → row.state ≡ completed
      → db' ≡ db
      → result ≡ completed_claim row.resource_id row.notification_ids
      → Claimed generated request fingerprint now db db' result

read_existing-ok :
    (fingerprint : Text) (row : IdempotencyKey) (db db' : Database) (result : ClaimResult)
    → read_existing fingerprint row db ≡ ok (db', result)
    → (text_eq row.request_fingerprint fingerprint ≡ true)
      × (row.state ≡ completed)
      × (db' ≡ db)
      × (result ≡ completed_claim row.resource_id row.notification_ids)
read_existing-ok fingerprint row db db' result h =
    go (text_eq row.request_fingerprint fingerprint) row.state refl refl h
  where
    go :
        (b : Bool) (state : KeyState)
        → text_eq row.request_fingerprint fingerprint ≡ b
        → row.state ≡ state
        → (if not b
              then throw idempotency_key_reused
              else elim state as (λ _. CreationStep ClaimResult) [
                | completed ↦ return (completed_claim row.resource_id row.notification_ids)
                | in_flight ↦ throw idempotency_key_in_flight
              ])
            db
          ≡ ok (db', result)
        → (text_eq row.request_fingerprint fingerprint ≡ true)
          × (row.state ≡ completed)
          × (db' ≡ db)
          × (result ≡ completed_claim row.resource_id row.notification_ids)
    go false state e e' k = cc
    go true in_flight e e' k = cc
    go true completed e e' k =
        let (same, value) = ok-injective db db' _ result k in (e, e', sym same, sym value)

pub claim_idempotency_key-ok :
    (generated : Generated) (request : NotificationRequest) (fingerprint : Text) (now : ℕ)
    (db db' : Database) (result : ClaimResult)
    → generated.reaped ≡ none
    → claim_idempotency_key generated request fingerprint now db ≡ ok (db', result)
    → Claimed generated request fingerprint now db db' result
unfolding claim_idempotency_key claim
claim_idempotency_key-ok generated request fingerprint now db db' result unreaped h =
    go generated.reaped unreaped request.idempotency_key refl h
  where
    input : Text → IdempotencyClaimInput
    input key = record {
      application_id = request.application_id;
      key = key;
      request_path = request.request_path;
      request_fingerprint = fingerprint;
      lock_token = generated.lock_token;
      expires_at = now + idempotency_window_hours * 3_600_000;
    }

    go_keyed :
        (key : Text) (o p : Option IdempotencyKey)
        → request.idempotency_key ≡ some key
        → find_key request.application_id key db ≡ o
        → find_key request.application_id key db ≡ p
        → and_then {E = CreationError}
            (ok (elim o as (λ _. Database × IdempotencyClaim) [
              | none ↦ (
                record db {
                  idempotency_keys =
                      db.idempotency_keys
                      ++ claimed_row generated.idempotency_key_id (input key) ∷ [];
                },
                claimed generated.idempotency_key_id generated.lock_token,
              )
              | some conflicting ↦ (db, IdempotencyKeys.read_claim (input key) p)
            ]))
            (read_claim fingerprint)
          ≡ ok (db', result)
        → Claimed generated request fingerprint now db db' result
    go_keyed key none p named e e' k =
        let (same, value) = ok-injective _ db' _ result k in
        first key (claimed_row generated.idempotency_key_id (input key)) refl named e (sym same)
          (sym value)
    go_keyed key (some row) none named e e' k = cc
    go_keyed key (some row) (some row') named e e' k =
        let (matching, state, same, value) = read_existing-ok fingerprint row' db db' result k in
        again key row' named e' matching state same value

    go :
        (reaped : Option ℕ)
        → reaped ≡ none
        → (key : Option Text) → request.idempotency_key ≡ key
        → claim_key (record generated { reaped = reaped }) request fingerprint now key db
          ≡ ok (db', result)
        → Claimed generated request fingerprint now db db' result
    go (some id) absurdity key named k = cc
    go none e none named k =
        let (same, value) = ok-injective db db' _ result k in unkeyed named (sym same) (sym value)
    go none e (some key) named k =
        go_keyed key (find_key request.application_id key db)
          (find_key request.application_id key db) named refl refl k

-- The database with one notification more, its first event and its job.
abbrev pub with_creation : Draft → Database → Database
with_creation draft db = record db {
  notifications = db.notifications ++ drafted_notification draft ∷ [];
  events = db.events ++ creation_event draft ∷ [];
  jobs = db.jobs ++ creation_job draft ∷ [];
}

abbrev pub is_used : ℕ → Database → Bool
is_used id db = any (λ (other : Notification). other.id == id) db.notifications

pub write_notification-ok :
    (draft : Draft) (db db' : Database) (u : Unit {0})
    → write_notification draft db ≡ ok (db', u)
    → (is_used draft.id db ≡ false) × (db' ≡ with_creation draft db)
unfolding write_notification insert_notification insert append_event hand_to_queue
write_notification-ok draft db db' u h =
    go (is_used draft.id db)
      (references_key draft.request.application_id draft.idempotency_key_id db)
      (references_session draft.request.application_id draft.session_id db)
      (is_within_checks (drafted_notification draft)) refl h
  where
    go :
        (b c d f : Bool)
        → is_used draft.id db ≡ b
        → and_then {E = CreationError} {A = Unit {0}}
            (if b
              then error primary_key_violation
              else if not c
              then error foreign_key_violation
              else if not d
              then error foreign_key_violation
              else if not f
              then error check_violation
              else ok (insert (drafted_notification draft) db, tt))
            (λ _.
              write (append_event (creation_event draft))
              >> write (hand_to_queue (creation_job draft)))
          ≡ ok (db', u)
        → (is_used draft.id db ≡ false) × (db' ≡ with_creation draft db)
    go true c d f e k = cc
    go false false d f e k = cc
    go false true false f e k = cc
    go false true true false e k = cc
    go false true true true e k = let (same, value) = ok-injective _ db' _ u k in (e, sym same)
