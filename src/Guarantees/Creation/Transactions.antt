-- ===== src/Guarantees/Creation/Transactions.antt =====
-- `create` round its transaction: the checks before it, and what an error leaves.
use whatsapp_notification_pl.Prelude.{
  ℕ, ◌≡◌, refl, sym, ap, ◌∙◌, ◌≢◌, inl, inr, Bool, true, false, Option, none, some, List,
  if◌then◌else◌, Bool-cases, get_or, Text, text_eq, text_eq_lem,
}
use whatsapp_notification_pl.Database.Records.{Notification, WhatsAppSession, Database}
use whatsapp_notification_pl.Database.Transaction.{Result, ok, error, settle}
use whatsapp_notification_pl.Database.IdempotencyKeys.{reap}
use whatsapp_notification_pl.Database.Notifications.{find_by_id}
use whatsapp_notification_pl.Domain.PhoneNumber.{parse_phone_number}
use whatsapp_notification_pl.Services.Creation.Requests.{
  NotificationRequest, to_recipient, Environment, Generated, CreationError, invalid_phone_number,
  invalid_schedule, fingerprint_request,
}
use whatsapp_notification_pl.Services.Creation.Claiming.{
  completed_claim, resolve_session, claim_idempotency_key,
}
use whatsapp_notification_pl.Services.Creation.{
  CreateNotificationResult, is_schedule_past, replay, create_transaction, create,
}
use whatsapp_notification_pl.Guarantees.Creation.Steps.{read_or_fail-some}
use whatsapp_notification_pl.Guarantees.Creation.Single.{Facts}

-- What the checks before the transaction let through.
pub create-begins :
    (env : Environment) (generated : Generated) (now : ℕ) (request : NotificationRequest)
    (recipient phone : Text) (db : Database)
    → parse_phone_number recipient ≡ some phone
    → is_schedule_past request.scheduled_at now ≡ false
    → create env generated now request recipient db
      ≡ settle (reap generated.reaped db) (
          create_transaction generated request phone
            (fingerprint_request env request (to_recipient recipient))
            now
            db)
unfolding create
create-begins env generated now request recipient phone db h k =
    go (parse_phone_number recipient) (is_schedule_past request.scheduled_at now) h k
  where
    go :
        (o : Option Text) (b : Bool)
        → o ≡ some phone
        → b ≡ false
        → elim o as (λ _. Database × Result CreationError CreateNotificationResult) [
          | none ↦ (db, error invalid_phone_number)
          | some phone' ↦
              if b
              then (db, error invalid_schedule)
              else settle (reap generated.reaped db) (
                  create_transaction generated request phone'
                    (fingerprint_request env request (to_recipient recipient))
                    now
                    db)
        ]
          ≡ settle (reap generated.reaped db) (
              create_transaction generated request phone
                (fingerprint_request env request (to_recipient recipient))
                now
                db)
    go none b e e' = cc
    go (some phone') true e e' = cc
    go (some phone') false e e' =
        ap
          (λ (o : Option Text). settle (reap generated.reaped db) (
            create_transaction generated request (get_or o phone)
              (fingerprint_request env request (to_recipient recipient)) now db))
          e

-- The result with the database it leaves.
abbrev join : {E A : Type 0} → Database × Result E A → Result E (Database × A)
join (db, ok a) = ok (db, a)
join (db, error e) = error e

settle-ok :
    {E A : Type 0} (rolled_back db' : Database) (r : Result E (Database × A)) (a : A)
    → settle rolled_back r ≡ (db', ok a)
    → r ≡ ok (db', a)
settle-ok rolled_back db' (ok (db, b)) a h = ap join h
settle-ok rolled_back db' (error e) a h = cc

pub create-ok :
    (env : Environment) (generated : Generated) (now : ℕ) (request : NotificationRequest)
    (recipient : Text) (db db' : Database) (r : CreateNotificationResult)
    → create env generated now request recipient db ≡ (db', ok r)
    → (phone : Text) × (parse_phone_number recipient ≡ some phone)
      × (create_transaction generated request phone
            (fingerprint_request env request (to_recipient recipient))
            now
            db
          ≡ ok (db', r))
unfolding create
create-ok env generated now request recipient db db' r h =
    go (parse_phone_number recipient) (is_schedule_past request.scheduled_at now) refl h
  where
    go :
        (o : Option Text) (b : Bool)
        → parse_phone_number recipient ≡ o
        → elim o as (λ _. Database × Result CreationError CreateNotificationResult) [
          | none ↦ (db, error invalid_phone_number)
          | some phone ↦
              if b
              then (db, error invalid_schedule)
              else settle (reap generated.reaped db) (
                  create_transaction generated request phone
                    (fingerprint_request env request (to_recipient recipient))
                    now
                    db)
        ]
          ≡ (db', ok r)
        → (phone : Text) × (parse_phone_number recipient ≡ some phone)
          × (create_transaction generated request phone
                (fingerprint_request env request (to_recipient recipient))
                now
                db
              ≡ ok (db', r))
    go none b e k = cc
    go (some phone) true e k = cc
    go (some phone) false e k = (phone, e, settle-ok _ db' _ r k)

pub create-error :
    (env : Environment) (generated : Generated) (now : ℕ) (request : NotificationRequest)
    (recipient : Text) (db db' : Database) (e : CreationError)
    → generated.reaped ≡ none
    → create env generated now request recipient db ≡ (db', error e)
    → db' ≡ db
unfolding create
create-error env generated now request recipient db db' e unreaped h =
    go (parse_phone_number recipient) (is_schedule_past request.scheduled_at now) h
  where
    unreaped_lem : reap generated.reaped db ≡ db
    unreaped_lem = ap (λ (o : Option ℕ). reap o db) unreaped

    go_settled :
        (r : Result CreationError (Database × CreateNotificationResult))
        → settle (reap generated.reaped db) r ≡ (db', error e)
        → db' ≡ db
    go_settled (ok (db1, a)) k = cc
    go_settled (error e') k =
        sym (ap (λ (p : Database × Result CreationError CreateNotificationResult). p.0) k)
        ∙ unreaped_lem

    go :
        (o : Option Text) (b : Bool)
        → elim o as (λ _. Database × Result CreationError CreateNotificationResult) [
          | none ↦ (db, error invalid_phone_number)
          | some phone ↦
              if b
              then (db, error invalid_schedule)
              else settle (reap generated.reaped db) (
                  create_transaction generated request phone
                    (fingerprint_request env request (to_recipient recipient))
                    now
                    db)
        ]
          ≡ (db', error e)
        → db' ≡ db
    go none b k = sym (ap (λ (p : Database × Result CreationError CreateNotificationResult). p.0) k)
    go (some phone) true k =
        sym (ap (λ (p : Database × Result CreationError CreateNotificationResult). p.0) k)
    go (some phone) false k =
        go_settled
          (create_transaction generated request phone
            (fingerprint_request env request (to_recipient recipient)) now db)
          k

pub text_differs : (t u : Text) → (t ≢ u) → text_eq t u ≡ false
text_differs t u h = elim (Bool-cases (text_eq t u)) [
  | inl same ↦ absurd (h (text_eq_lem t u same))
  | inr other ↦ other
]

pub sessions_kept :
    (generated : Generated) (request : NotificationRequest) (phone fingerprint : Text)
    (db db' : Database) (r : CreateNotificationResult)
    → Facts generated request phone fingerprint db db' r
    → db'.sessions ≡ db.sessions
sessions_kept generated request phone fingerprint db db' r facts = elim facts.outcome [
  | inl (replayed, same) ↦ ap (λ (d : Database). d.sessions) same
  | inr (new, draft, asked, own, to, read_back, creation) ↦ creation.sessions
]

pub transaction-replays :
    (generated : Generated) (request : NotificationRequest) (phone fingerprint : Text) (now id : ℕ)
    (ids : Option (List ℕ)) (db : Database) (s : WhatsAppSession) (n : Notification)
    → resolve_session request.application_id request.whatsapp_session_id db ≡ ok (db, s)
    → claim_idempotency_key generated request fingerprint now db
      ≡ ok (db, completed_claim (some id) ids)
    → find_by_id request.application_id id db ≡ some n
    → create_transaction generated request phone fingerprint now db
      ≡ ok (db, record { notification = n; was_replayed = true })
unfolding create_transaction replay
transaction-replays generated request phone fingerprint now id ids db s n resolves claims found =
    rw (
      create_transaction,
      resolves,
      claims,
      replay,
      read_or_fail-some request.application_id id db n found,
    )

pub transaction-throws :
    (generated : Generated) (request : NotificationRequest) (phone fingerprint : Text) (now : ℕ)
    (db db' : Database) (s : WhatsAppSession) (e : CreationError)
    → resolve_session request.application_id request.whatsapp_session_id db ≡ ok (db', s)
    → claim_idempotency_key generated request fingerprint now db' ≡ error e
    → create_transaction generated request phone fingerprint now db ≡ error e
unfolding create_transaction
transaction-throws generated request phone fingerprint now db db' s e resolves claims =
    rw (create_transaction, resolves, claims)
