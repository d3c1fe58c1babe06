-- ===== src/Guarantees/Creation/BatchOnce.antt =====
-- `createBatch` as a whole: all or nothing, and once for each key.
use whatsapp_notification_pl.Prelude.{
  ℕ, suc, All, ◌+◌, ◌*◌, ◌≡◌, refl, sym, ap, ◌∙◌, ◌⊎◌, inl, inr, true, false, ◌&&◌, Option, none,
  some, List, [], ◌∷◌, ◌++◌, map, ◌==◌, get_or, update_where, Text,
}
use mathlib.Core.Path.{subst}
use whatsapp_notification_pl.Database.Records.{
  Notification, WhatsAppSession, IdempotencyKey, Database,
}
use whatsapp_notification_pl.Database.Transaction.{ok, and_then-ok}
use whatsapp_notification_pl.Database.IdempotencyKeys.{
  IdempotencyClaimInput, claimed_row, complete_row,
}
use whatsapp_notification_pl.Services.Creation.Requests.{NotificationRequest, Generated}
use whatsapp_notification_pl.Services.Creation.Claiming.{
  idempotency_window_hours, ClaimResult, read_all_or_fail, resolve_session, claim_idempotency_key,
}
use whatsapp_notification_pl.Services.Creation.Writing.{
  Draft, drafted_notification, creation_event, creation_job,
}
use whatsapp_notification_pl.Services.Creation.{
  replay_batch, drafts_from, create_batch_claimed, create_batch_transaction,
  CreateNotificationBatchResult,
}
use whatsapp_notification_pl.Guarantees.Creation.Steps.{
  Claimed, unkeyed, first, again, claim_idempotency_key-ok, resolve_session-ok,
}
use whatsapp_notification_pl.Guarantees.Creation.Keys.{IsRecorded, first-IsRecorded, claim_recorded}
use whatsapp_notification_pl.Guarantees.Creation.Batch.{
  IsBatch, replay_batch-ok, completed_database-IsBatch, completed_database-keys, create_drafts-ok,
  read-drafted, AreUnused,
}

-- Nothing new, or one notification for each of the phone numbers, in their order, and the result is
-- those notifications.
abbrev pub BatchOutcome :
    Generated
    → NotificationRequest
    → List Text
    → (db db' : Database) → CreateNotificationBatchResult
    → Type 0
BatchOutcome generated request phones db db' r =
    ((r.was_replayed ≡ true) × (db' ≡ db))
    ⊎ ((r.was_replayed ≡ false)
        × (session_id : ℕ) × (key_id : Option ℕ) × IsBatch
            (drafts_from generated request 0 phones session_id key_id) db db'
        × (r.notifications
            ≡ map drafted_notification (drafts_from generated request 0 phones session_id key_id)))

-- The key is recorded with identifiers that read as the notifications.
abbrev IsRecordedWithAll :
    NotificationRequest
    → (fingerprint : Text) → Database
    → List Notification
    → (key : Text) → Type 0
IsRecordedWithAll request fingerprint db notifications key =
    (row : IdempotencyKey) × (ids : List ℕ) × IsRecorded request.application_id key fingerprint db
      row
    × (row.notification_ids ≡ some ids)
    × (read_all_or_fail request.application_id ids db ≡ ok (db, notifications))

own_drafts :
    (generated : Generated) (request : NotificationRequest) (index : ℕ) (phones : List Text)
    (session_id : ℕ) (key_id : Option ℕ)
    → All
        (λ (d : Draft). d.request.application_id ≡ request.application_id)
        (drafts_from generated request index phones session_id key_id)
own_drafts generated request index [] session_id key_id = tt
own_drafts generated request index (phone ∷ phones) session_id key_id =
    (refl, own_drafts generated request (suc index) phones session_id key_id)

record BatchFacts (generated : Generated) (request : NotificationRequest) (phones : List Text)
    (fingerprint : Text) (db db' : Database) (r : CreateNotificationBatchResult) : Type 0 where
  outcome : BatchOutcome generated request phones db db' r
  recorded :
      (key : Text)
      → request.idempotency_key ≡ some key
      → IsRecordedWithAll request fingerprint db' r.notifications key

module _ (generated : Generated) (request : NotificationRequest) (phones : List Text)
    (fingerprint : Text) (now session_id : ℕ) (db db' : Database)
    (r : CreateNotificationBatchResult) where
  batch_input : Text → IdempotencyClaimInput
  batch_input key = record {
    application_id = request.application_id;
    key = key;
    request_path = request.request_path;
    request_fingerprint = fingerprint;
    lock_token = generated.lock_token;
    expires_at = now + idempotency_window_hours * 3_600_000;
  }

  fresh-BatchOutcome :
      (key_id : Option ℕ) (claimed_db : Database)
      → IsBatch (drafts_from generated request 0 phones session_id key_id) claimed_db db'
      → claimed_db ≡ record db { idempotency_keys = claimed_db.idempotency_keys }
      → r.was_replayed ≡ false
      → AreUnused
          (drafts_from generated request 0 phones session_id key_id)
          claimed_db.notifications
      → read_all_or_fail request.application_id
          (map (λ (d : Draft). d.id) (drafts_from generated request 0 phones session_id key_id))
          db'
        ≡ ok (db', r.notifications)
      → BatchOutcome generated request phones db db' r
  fresh-BatchOutcome key_id claimed_db batch base new unused read = inr (
    new,
    session_id,
    key_id,
    record {
      notifications =
          batch.notifications
          ∙ ap (λ (d : Database). d.notifications ++ map drafted_notification drafts) base;
      events = batch.events ∙ ap (λ (d : Database). d.events ++ map creation_event drafts) base;
      jobs = batch.jobs ∙ ap (λ (d : Database). d.jobs ++ map creation_job drafts) base;
      sessions = batch.sessions ∙ ap (λ (d : Database). d.sessions) base;
    },
    read-drafted request.application_id drafts claimed_db db' r.notifications
        (own_drafts generated request 0 phones session_id key_id) unused batch read,
  )
    where
      drafts : List Draft
      drafts = drafts_from generated request 0 phones session_id key_id

  settled_batch_claim :
      (claimed_db : Database) (result : ClaimResult)
      → Claimed generated request fingerprint now db claimed_db result
      → create_batch_claimed generated request phones session_id result claimed_db ≡ ok (db', r)
      → BatchFacts generated request phones fingerprint db db' r
  unfolding batch_input
  settled_batch_claim claimed_db result (unkeyed absent same fresh_one) h =
      let made =
        subst
          (λ (c : ClaimResult).
            create_batch_claimed generated request phones session_id c claimed_db ≡ ok (db', r))
          fresh_one h in
      let drafts = drafts_from generated request 0 phones session_id none in
      let (written, end, batch, keys, read, new, unused) =
        create_drafts-ok request.application_id drafts none generated.lock_token claimed_db db' r
          made in
      record {
        outcome =
            fresh-BatchOutcome none claimed_db (subst (IsBatch drafts claimed_db) (sym end) batch)
              (subst (λ (d : Database). d ≡ record db { idempotency_keys = d.idempotency_keys })
                (sym same) refl)
              new unused read;
        recorded = λ key named. absurd (cc (sym absent ∙ named));
      }
  settled_batch_claim claimed_db result (first key row is_row named absent same fresh_one) h =
      let made =
        subst
          (λ (c : ClaimResult).
            create_batch_claimed generated request phones session_id c claimed_db ≡ ok (db', r))
          fresh_one h in
      let key_id = generated.idempotency_key_id in
      let drafts = drafts_from generated request 0 phones session_id (some key_id) in
      let ids = map (λ (d : Draft). d.id) drafts in
      let (written, end, batch, keys, read, new, unused) =
        create_drafts-ok request.application_id drafts (some key_id) generated.lock_token claimed_db
          db' r made in
      record {
        outcome =
            fresh-BatchOutcome (some key_id) claimed_db
              (subst (IsBatch drafts claimed_db) (sym end) (
                completed_database-IsBatch drafts (some key_id) generated.lock_token (some ids)
                  claimed_db written batch))
              (subst (λ (d : Database). d ≡ record db { idempotency_keys = d.idempotency_keys })
                (sym same) refl)
              new unused read;
        recorded = λ key' named'.
            subst (IsRecordedWithAll request fingerprint db' r.notifications)
              (ap (λ (o : Option Text). get_or o []) (sym named ∙ named'))
              (
                complete_row (some ids) none (claimed_row key_id (batch_input key)),
                ids,
                first-IsRecorded request.application_id key_id (batch_input key) (some ids) none db
                    db' refl absent
                    (ap (λ (d : Database). d.idempotency_keys) end
                      ∙ completed_database-keys key_id generated.lock_token (some ids) claimed_db
                          written keys
                      ∙ ap
                          (λ (d : Database).
                            update_where
                              (λ row. row.id == key_id && row.lock_token == generated.lock_token)
                              (complete_row (some ids) none) d.idempotency_keys)
                          same
                      ∙ ap
                          (λ (row : IdempotencyKey).
                            update_where
                              (λ row. row.id == key_id && row.lock_token == generated.lock_token)
                              (complete_row (some ids) none) (db.idempotency_keys ++ row ∷ []))
                          is_row),
                refl,
                read,
              );
      }
  settled_batch_claim claimed_db result (again key row named found matching state same replayed) h =
      let (ids, recorded, kept, read, was_replayed) =
        replay_batch-ok request.application_id row.notification_ids claimed_db db' r (
          subst
            (λ (c : ClaimResult).
              create_batch_claimed generated request phones session_id c claimed_db ≡ ok (db', r))
            replayed h) in
      record {
        outcome = inl (was_replayed, kept ∙ same);
        recorded = λ key' named'.
            subst (IsRecordedWithAll request fingerprint db' r.notifications)
              (ap (λ (o : Option Text). get_or o []) (sym named ∙ named'))
              (
                row,
                ids,
                subst (λ (d : Database). IsRecorded request.application_id key fingerprint d row)
                    (sym (kept ∙ same))
                    (record { found = found; matching = matching; is_completed = state }),
                recorded,
                read,
              );
      }

module _ (generated : Generated) (request : NotificationRequest) (phones : List Text)
    (fingerprint : Text) (now : ℕ) (db db' : Database) (r : CreateNotificationBatchResult) where
  transaction-BatchFacts :
      generated.reaped ≡ none
      → create_batch_transaction generated request phones fingerprint now db ≡ ok (db', r)
      → BatchFacts generated request phones fingerprint db db' r
        × (s : WhatsAppSession) × ((later : Database)
            → later.sessions ≡ db.sessions
            → resolve_session request.application_id request.whatsapp_session_id later
              ≡ ok (later, s))
  unfolding create_batch_transaction
  transaction-BatchFacts unreaped h =
      let (db1, s, chosen, rest) =
        and_then-ok (resolve_session request.application_id request.whatsapp_session_id db) _ db' r
          h in
      let (same, resolves) =
        resolve_session-ok request.application_id request.whatsapp_session_id db db1 s chosen in
      let (db2, result, claims, made) =
        and_then-ok (claim_idempotency_key generated request fingerprint now db1) _ db' r rest in
      (
        subst (λ (d : Database). BatchFacts generated request phones fingerprint d db' r) same
            (settled_batch_claim generated request phones fingerprint now s.id db1 db' r db2 result
              (claim_idempotency_key-ok generated request fingerprint now db1 db2 result unreaped
                claims)
              made),
        s,
        resolves,
      )

batch_sessions_kept :
    (generated : Generated) (request : NotificationRequest) (phones : List Text)
    (fingerprint : Text) (db db' : Database) (r : CreateNotificationBatchResult)
    → BatchFacts generated request phones fingerprint db db' r
    → db'.sessions ≡ db.sessions
batch_sessions_kept generated request phones fingerprint db db' r facts = elim facts.outcome [
  | inl (replayed, same) ↦ ap (λ (d : Database). d.sessions) same
  | inr (new, session_id, key_id, batch, read) ↦ batch.sessions
]

-- A batch transaction with a key that ends well either replays, and changes nothing, or writes one
-- notification for each phone number, in their order and with the generated identifiers, each with
-- its first event and its dispatch job, and returns exactly those, in that order. The same transaction again then replays the same notifications and
-- changes nothing.
pub create_batch_transaction-once :
    (generated generated' : Generated) (now now' : ℕ) (request : NotificationRequest)
    (phones : List Text) (fingerprint key : Text) (db db' : Database)
    (r : CreateNotificationBatchResult)
    → generated.reaped ≡ none
    → generated'.reaped ≡ none
    → request.idempotency_key ≡ some key
    → create_batch_transaction generated request phones fingerprint now db ≡ ok (db', r)
    → BatchOutcome generated request phones db db' r
      × (create_batch_transaction generated' request phones fingerprint now' db'
          ≡ ok (db', record { notifications = r.notifications; was_replayed = true }))
unfolding create_batch_transaction replay_batch
create_batch_transaction-once generated generated' now now' request phones fingerprint key db db' r
      unreaped unreaped' named h =
    let (facts, s, resolves) =
      transaction-BatchFacts generated request phones fingerprint now db db' r unreaped h in
    let (row, ids, recorded, listed, read) = facts.recorded key named in
    (
      facts.outcome,
      rw (
        create_batch_transaction,
        resolves db' (batch_sessions_kept generated request phones fingerprint db db' r facts),
        claim_recorded generated' request fingerprint now' db' key row unreaped' named recorded,
        listed,
        replay_batch,
        read,
      ),
    )
