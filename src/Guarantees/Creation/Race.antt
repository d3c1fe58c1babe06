-- ===== src/Guarantees/Creation/Race.antt =====
-- A creation whose key is deleted as expired while it claims it.
use whatsapp_notification_pl.Prelude.{
  ℕ, ◌+◌, ◌*◌, ◌≡◌, refl, ap, ◌∙◌, false, Option, none, some, [], ◌∷◌, ◌++◌, ◌==◌, any, Text,
}
use whatsapp_notification_pl.Database.Records.{
  Notification, WhatsAppSession, IdempotencyKey, Database,
}
use whatsapp_notification_pl.Database.Transaction.{ok, error, settle}
use whatsapp_notification_pl.Database.IdempotencyKeys.{
  IdempotencyClaimInput, IdempotencyClaim, claimed, exists_already, find_key, holds_key,
  claimed_row, complete_row, reap, claim, complete,
}
use whatsapp_notification_pl.Domain.PhoneNumber.{parse_phone_number}
use whatsapp_notification_pl.Services.Creation.Requests.{
  NotificationRequest, to_recipient, Environment, Generated, foreign_key_violation,
  fingerprint_request,
}
use whatsapp_notification_pl.Services.Creation.Claiming.{
  idempotency_window_hours, fresh, resolve_session, claim_idempotency_key,
}
use whatsapp_notification_pl.Services.Creation.Writing.{
  Draft, references_key, insert_notification, write_notification,
}
use whatsapp_notification_pl.Services.Creation.{
  is_schedule_past, draft_of, create_draft, create_transaction, create,
}
use whatsapp_notification_pl.Database.IdempotencyKeys
use whatsapp_notification_pl.Guarantees.Creation.Transactions.{create-begins}

claim-vanished :
    (id reaped : ℕ) (input : IdempotencyClaimInput) (db : Database) (row : IdempotencyKey)
    → find_key input.application_id input.key db ≡ some row
    → find_key input.application_id input.key (reap (some reaped) db) ≡ none
    → claim id (some reaped) input db
      ≡ (reap (some reaped) db, claimed input.lock_token input.lock_token)
unfolding claim
claim-vanished id reaped input db row found gone =
    go (find_key input.application_id input.key db)
      (find_key input.application_id input.key (reap (some reaped) db)) found gone
  where
    go :
        (o p : Option IdempotencyKey)
        → o ≡ some row
        → p ≡ none
        → elim o as (λ _. Database × IdempotencyClaim) [
          | none ↦ (
            record (reap (some reaped) db) {
              idempotency_keys =
                  (reap (some reaped) db).idempotency_keys ++ claimed_row id input ∷ [];
            },
            claimed id input.lock_token,
          )
          | some conflicting ↦ (reap (some reaped) db, IdempotencyKeys.read_claim input p)
        ]
          ≡ (reap (some reaped) db, claimed input.lock_token input.lock_token)
    go none p e e' = cc
    go (some r) none e e' = refl
    go (some r) (some r') e e' = cc

claim_vanished :
    (generated : Generated) (request : NotificationRequest) (fingerprint : Text) (now reaped : ℕ)
    (db : Database) (key : Text) (row : IdempotencyKey)
    → generated.reaped ≡ some reaped
    → request.idempotency_key ≡ some key
    → find_key request.application_id key db ≡ some row
    → find_key request.application_id key (reap (some reaped) db) ≡ none
    → claim_idempotency_key generated request fingerprint now db
      ≡ ok (reap (some reaped) db, fresh (some generated.lock_token) generated.lock_token)
unfolding claim_idempotency_key
claim_vanished generated request fingerprint now reaped db key row race named found gone = rw (
  named,
  race,
  claim-vanished generated.idempotency_key_id reaped
      (record {
        application_id = request.application_id;
        key = key;
        request_path = request.request_path;
        request_fingerprint = fingerprint;
        lock_token = generated.lock_token;
        expires_at = now + idempotency_window_hours * 3_600_000;
      })
      db row found gone,
)

write_refused :
    (draft : Draft) (db : Database)
    → any (λ (other : Notification). other.id == draft.id) db.notifications ≡ false
    → references_key draft.request.application_id draft.idempotency_key_id db ≡ false
    → write_notification draft db ≡ error foreign_key_violation
unfolding write_notification insert_notification
write_refused draft db unused dangling =
    rw (write_notification, insert_notification, unused, dangling)

transaction-race :
    (generated : Generated) (request : NotificationRequest) (phone fingerprint : Text)
    (now reaped : ℕ) (db : Database) (key : Text) (row : IdempotencyKey) (s : WhatsAppSession)
    → resolve_session request.application_id request.whatsapp_session_id db ≡ ok (db, s)
    → generated.reaped ≡ some reaped
    → request.idempotency_key ≡ some key
    → find_key request.application_id key db ≡ some row
    → find_key request.application_id key (reap (some reaped) db) ≡ none
    → any (λ (other : Notification). other.id == generated.notification_id 0) db.notifications
      ≡ false
    → references_key request.application_id (some generated.lock_token) (reap (some reaped) db)
      ≡ false
    → create_transaction generated request phone fingerprint now db ≡ error foreign_key_violation
unfolding create_transaction create_draft
transaction-race generated request phone fingerprint now reaped db key row s resolves race named
      found gone unused dangling =
    rw (
      create_transaction,
      resolves,
      claim_vanished generated request fingerprint now reaped db key row race named found gone,
      create_draft,
      write_refused (draft_of generated request 0 phone s.id (some generated.lock_token))
          (reap (some reaped) db) unused dangling,
    )

-- Where the row that holds a request's key is deleted as expired between the insertion that meets it
-- and the read, the creation, which is then given the lock token for the key's identifier, throws a
-- foreign key violation, as long as no key has that identifier: it does not go on.
pub create-race :
    (env : Environment) (generated : Generated) (now reaped : ℕ) (request : NotificationRequest)
    (recipient phone key : Text) (db : Database) (row : IdempotencyKey) (s : WhatsAppSession)
    → parse_phone_number recipient ≡ some phone
    → is_schedule_past request.scheduled_at now ≡ false
    → resolve_session request.application_id request.whatsapp_session_id db ≡ ok (db, s)
    → generated.reaped ≡ some reaped
    → request.idempotency_key ≡ some key
    → find_key request.application_id key db ≡ some row
    → find_key request.application_id key (reap (some reaped) db) ≡ none
    → any (λ (other : Notification). other.id == generated.notification_id 0) db.notifications
      ≡ false
    → references_key request.application_id (some generated.lock_token) (reap (some reaped) db)
      ≡ false
    → create env generated now request recipient db
      ≡ (reap (some reaped) db, error foreign_key_violation)
create-race env generated now reaped request recipient phone key db row s parsed future resolves
      race named found gone unused dangling =
    create-begins env generated now request recipient phone db parsed future
    ∙ ap (settle (reap generated.reaped db)) (
        transaction-race generated request phone
          (fingerprint_request env request (to_recipient recipient)) now reaped db key row s
          resolves race named found gone unused dangling)
    ∙ ap (λ (o : Option ℕ). (reap o db, error foreign_key_violation)) race
