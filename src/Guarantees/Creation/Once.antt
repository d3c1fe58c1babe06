-- ===== src/Guarantees/Creation/Once.antt =====
-- `create` as a whole: all or nothing, and once for each key.
use whatsapp_notification_pl.Prelude.{
  ℕ, ◌≡◌, refl, sym, ap, ◌∙◌, ◌≢◌, ◌⊎◌, inl, inr, true, false, Option, none, some, Text,
  text_eq_lem,
}
use whatsapp_notification_pl.Database.Records.{WhatsAppSession, Database}
use whatsapp_notification_pl.Database.Transaction.{Result, ok, error, settle}
use whatsapp_notification_pl.Database.IdempotencyKeys.{find_key, reap}
use whatsapp_notification_pl.Domain.PhoneNumber.{parse_phone_number}
use whatsapp_notification_pl.Services.Creation.Requests.{
  NotificationRequest, to_recipient, Environment, Generated, CreationError, idempotency_key_reused,
  fingerprint_request,
}
use whatsapp_notification_pl.Services.Creation.Claiming.{completed_claim, resolve_session}
use whatsapp_notification_pl.Services.Creation.Writing.{Draft, drafted_notification}
use whatsapp_notification_pl.Services.Creation.{CreateNotificationResult, is_schedule_past, create}
use whatsapp_notification_pl.Guarantees.Creation.Keys.{claim_recorded, claim_reused}
use whatsapp_notification_pl.Guarantees.Creation.Transactions.{
  create-begins, create-ok, create-error, text_differs, sessions_kept, transaction-replays,
  transaction-throws,
}
use whatsapp_notification_pl.Guarantees.Creation.Facts.{IsCreation}
use whatsapp_notification_pl.Guarantees.Creation.Single.{transaction-Facts}

-- What a creation may leave: on an error nothing, on a replay nothing, and else one notification,
-- which it returns, with its first event and its dispatch job.
abbrev pub LeavesAllOrNothing :
    Generated
    → NotificationRequest
    → (recipient : Text) → (db db' : Database) → Result CreationError CreateNotificationResult
    → Type 0
LeavesAllOrNothing generated request recipient db db' (error e) = db' ≡ db
LeavesAllOrNothing generated request recipient db db' (ok r) =
    ((r.was_replayed ≡ true) × (db' ≡ db))
    ⊎ ((r.was_replayed ≡ false)
        × (draft : Draft) × (draft.request ≡ request)
        × (draft.id ≡ generated.notification_id 0)
        × (parse_phone_number recipient ≡ some draft.recipient)
        × (r.notification ≡ drafted_notification draft)
        × IsCreation draft db db')

-- While no expired key is deleted at the same moment, a creation that throws leaves the database
-- as it was, and so does one that replays; any other adds exactly one notification, for the parsed
-- recipient and with the generated identifier, which it returns, with exactly one event and one
-- dispatch job of that notification, and changes no attempt, session or delivery.
pub create-all_or_nothing :
    (env : Environment) (generated : Generated) (now : ℕ) (request : NotificationRequest)
    (recipient : Text) (db : Database)
    → generated.reaped ≡ none
    → LeavesAllOrNothing generated request recipient db
        (create env generated now request recipient db).0
        (create env generated now request recipient db).1
create-all_or_nothing env generated now request recipient db unreaped =
    go (create env generated now request recipient db).1 refl
  where
    go :
        (result : Result CreationError CreateNotificationResult)
        → (create env generated now request recipient db).1 ≡ result
        → LeavesAllOrNothing generated request recipient db
            (create env generated now request recipient db).0
            result
    go (error e) k = create-error env generated now request recipient db _ e unreaped (
        ap
          (λ (x : Result CreationError CreateNotificationResult).
            ((create env generated now request recipient db).0, x))
          k)
    go (ok r) k =
        let db' = (create env generated now request recipient db).0 in
        let (phone, parsed, made) =
          create-ok env generated now request recipient db db' r
            (ap (λ (x : Result CreationError CreateNotificationResult). (db', x)) k) in
        let (facts, s, resolves) =
          transaction-Facts generated request phone
            (fingerprint_request env request (to_recipient recipient)) now db db' r unreaped made in
        elim facts.outcome [
          | inl same ↦ inl same
          | inr (new, draft, asked, own, to, read_back, creation) ↦
              inr (new, draft, asked, own, parsed ∙ ap some (sym to), read_back, creation)
        ]

-- Once a creation with an idempotency key has succeeded, the same request again, while no other has
-- changed the database and a scheduled time is still to come, returns the same notification as a
-- replay and changes nothing, however late it is: no key expires.
pub create-replays :
    (env : Environment) (generated generated' : Generated) (now now' : ℕ)
    (request : NotificationRequest) (recipient key : Text) (db db' : Database)
    (r : CreateNotificationResult)
    → generated.reaped ≡ none
    → generated'.reaped ≡ none
    → request.idempotency_key ≡ some key
    → create env generated now request recipient db ≡ (db', ok r)
    → is_schedule_past request.scheduled_at now' ≡ false
    → create env generated' now' request recipient db'
      ≡ (db', ok (record { notification = r.notification; was_replayed = true }))
create-replays env generated generated' now now' request recipient key db db' r unreaped unreaped'
      named h future =
    let fingerprint = fingerprint_request env request (to_recipient recipient) in
    let (phone, parsed, made) = create-ok env generated now request recipient db db' r h in
    let (facts, s, resolves) =
      transaction-Facts generated request phone fingerprint now db db' r unreaped made in
    let (row, id, recorded, resource, found) = facts.recorded key named in
    create-begins env generated' now' request recipient phone db' parsed future
    ∙ ap (settle (reap generated'.reaped db')) (
        transaction-replays generated' request phone fingerprint now' id row.notification_ids db' s
          r.notification
          (resolves db' (sessions_kept generated request phone fingerprint db db' r facts))
          (claim_recorded generated' request fingerprint now' db' key row unreaped' named recorded
            ∙ ap (λ (o : Option ℕ). ok (db', completed_claim o row.notification_ids)) resource)
          found)

-- Once a creation with an idempotency key has succeeded, a request of the same application with the
-- same key and another fingerprint throws `idempotency_key_reused` and changes nothing, where it
-- comes as far as the claim: its recipient parses, its time is to come, its session resolves.
pub create-rejects_reuse :
    (env : Environment) (generated generated' : Generated) (now now' : ℕ)
    (request request' : NotificationRequest) (recipient recipient' phone' key : Text)
    (db db' : Database) (r : CreateNotificationResult) (s : WhatsAppSession)
    → generated.reaped ≡ none
    → generated'.reaped ≡ none
    → request.idempotency_key ≡ some key
    → request'.idempotency_key ≡ some key
    → request'.application_id ≡ request.application_id
    → create env generated now request recipient db ≡ (db', ok r)
    → (fingerprint_request env request (to_recipient recipient)
        ≢ fingerprint_request env request' (to_recipient recipient'))
    → parse_phone_number recipient' ≡ some phone'
    → is_schedule_past request'.scheduled_at now' ≡ false
    → resolve_session request'.application_id request'.whatsapp_session_id db' ≡ ok (db', s)
    → create env generated' now' request' recipient' db' ≡ (db', error idempotency_key_reused)
create-rejects_reuse env generated generated' now now' request request' recipient recipient' phone'
      key db db' r s unreaped unreaped' named named' same_app h other parsed' future resolves =
    let fingerprint = fingerprint_request env request (to_recipient recipient) in
    let fingerprint' = fingerprint_request env request' (to_recipient recipient') in
    let (phone, parsed, made) = create-ok env generated now request recipient db db' r h in
    let (facts, s1, resolves1) =
      transaction-Facts generated request phone fingerprint now db db' r unreaped made in
    let (row, id, recorded, resource, found) = facts.recorded key named in
    create-begins env generated' now' request' recipient' phone' db' parsed' future
    ∙ ap (settle (reap generated'.reaped db')) (
        transaction-throws generated' request' phone' fingerprint' now' db' db' s
          idempotency_key_reused resolves
          (claim_reused generated' request' fingerprint' now' db' key row unreaped' named'
            (ap (λ (a : ℕ). find_key a key db') same_app ∙ recorded.found)
            (text_differs row.request_fingerprint fingerprint' (λ same.
              other
                (sym (text_eq_lem row.request_fingerprint fingerprint recorded.matching) ∙ same)))))
    ∙ ap (λ (o : Option ℕ). (reap o db', error idempotency_key_reused)) unreaped'
