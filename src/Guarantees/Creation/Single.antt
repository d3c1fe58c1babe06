-- ===== src/Guarantees/Creation/Single.antt =====
-- The creation of one notification: `create` of create-notification.service.ts.
use whatsapp_notification_pl.Prelude.{
  ℕ, ◌+◌, ◌*◌, ◌≡◌, refl, sym, ap, ◌∙◌, ◌⊎◌, inl, inr, true, false, ◌&&◌, Option, none, some, [],
  ◌∷◌, ◌++◌, ◌==◌, get_or, update_where, Text,
}
use mathlib.Core.Path.{subst}
use whatsapp_notification_pl.Database.Records.{
  Notification, WhatsAppSession, IdempotencyKey, Database,
}
use whatsapp_notification_pl.Database.Transaction.{ok, and_then-ok}
use whatsapp_notification_pl.Database.IdempotencyKeys.{
  IdempotencyClaimInput, claimed_row, complete_row, complete,
}
use whatsapp_notification_pl.Database.Notifications.{find_by_id}
use whatsapp_notification_pl.Domain.PhoneNumber.{parse_phone_number}
use whatsapp_notification_pl.Services.Creation.Requests.{NotificationRequest, Generated}
use whatsapp_notification_pl.Services.Creation.Claiming.{
  idempotency_window_hours, ClaimResult, resolve_session, claim_idempotency_key,
}
use whatsapp_notification_pl.Services.Creation.Writing.{
  Draft, drafted_notification, creation_event, creation_job,
}
use whatsapp_notification_pl.Services.Creation.{
  CreateNotificationResult, draft_of, create_claimed, create_transaction,
}
use whatsapp_notification_pl.Guarantees.Creation.Steps.{
  Claimed, unkeyed, first, again, claim_idempotency_key-ok, resolve_session-ok,
}
use whatsapp_notification_pl.Guarantees.Creation.Keys.{IsRecorded, first-IsRecorded}
use whatsapp_notification_pl.Guarantees.Creation.Facts.{
  IsCreation, create_draft-ok, create_draft-IsCreation, replay-ok,
}

-- The notification of the result is new, with its event and its job, and it is what was asked for.
abbrev IsNew : Generated → NotificationRequest → Text → Database → Database → Notification → Type 0
IsNew generated request recipient db db' notification =
    (draft : Draft) × (draft.request ≡ request)
    × (draft.id ≡ generated.notification_id 0)
    × (parse_phone_number recipient ≡ some draft.recipient)
    × (notification ≡ drafted_notification draft)
    × IsCreation draft db db'

-- The key is recorded with the notification.
abbrev pub IsRecordedWith :
    NotificationRequest → (fingerprint : Text) → Database → Notification → (key : Text) → Type 0
IsRecordedWith request fingerprint db notification key =
    (row : IdempotencyKey) × (id : ℕ) × IsRecorded request.application_id key fingerprint db row
    × (row.resource_id ≡ some id)
    × (find_by_id request.application_id id db ≡ some notification)

pub record Facts (generated : Generated) (request : NotificationRequest) (phone : Text)
    (fingerprint : Text) (db db' : Database) (r : CreateNotificationResult) : Type 0 where
  pub outcome :
      ((r.was_replayed ≡ true) × (db' ≡ db))
      ⊎ ((r.was_replayed ≡ false)
          × (draft : Draft) × (draft.request ≡ request)
          × (draft.id ≡ generated.notification_id 0)
          × (draft.recipient ≡ phone)
          × (r.notification ≡ drafted_notification draft)
          × IsCreation draft db db')
  pub recorded :
      (key : Text)
      → request.idempotency_key ≡ some key
      → IsRecordedWith request fingerprint db' r.notification key

module _ (generated : Generated) (request : NotificationRequest) (phone : Text) (fingerprint : Text)
    (now session_id : ℕ) (db db' : Database) (r : CreateNotificationResult) where
  -- The creation after a claim that found nothing to replay, on the database with that claim.
  fresh-outcome :
      (key_id : Option ℕ) (claimed_db : Database)
      → IsCreation (draft_of generated request 0 phone session_id key_id) claimed_db db'
        × (r.notification
            ≡ drafted_notification (draft_of generated request 0 phone session_id key_id))
      → claimed_db ≡ record db { idempotency_keys = claimed_db.idempotency_keys }
      → r.was_replayed ≡ false
      → ((r.was_replayed ≡ true) × (db' ≡ db))
        ⊎ ((r.was_replayed ≡ false)
            × (draft : Draft) × (draft.request ≡ request)
            × (draft.id ≡ generated.notification_id 0)
            × (draft.recipient ≡ phone)
            × (r.notification ≡ drafted_notification draft)
            × IsCreation draft db db')
  fresh-outcome key_id claimed_db (creation, read_back) base fresh_one = inr (
    fresh_one,
    draft_of generated request 0 phone session_id key_id,
    refl,
    refl,
    refl,
    read_back,
    record {
      notifications =
          creation.notifications
          ∙ ap (λ (d : Database). d.notifications ++ drafted_notification draft ∷ []) base;
      events = creation.events ∙ ap (λ (d : Database). d.events ++ creation_event draft ∷ []) base;
      jobs = creation.jobs ∙ ap (λ (d : Database). d.jobs ++ creation_job draft ∷ []) base;
      attempts = creation.attempts ∙ ap (λ (d : Database). d.attempts) base;
      sessions = creation.sessions ∙ ap (λ (d : Database). d.sessions) base;
      deliveries = creation.deliveries ∙ ap (λ (d : Database). d.deliveries) base;
    },
  )
    where
      draft : Draft
      draft = draft_of generated request 0 phone session_id key_id

  claim_input : Text → IdempotencyClaimInput
  claim_input key = record {
    application_id = request.application_id;
    key = key;
    request_path = request.request_path;
    request_fingerprint = fingerprint;
    lock_token = generated.lock_token;
    expires_at = now + idempotency_window_hours * 3_600_000;
  }

  no_key :
      {P : Type 0} {key : Text}
      → request.idempotency_key ≡ none
      → request.idempotency_key ≡ some key
      → P
  no_key absent named = absurd (cc (sym absent ∙ named))

  settled_claim :
      (claimed_db : Database) (result : ClaimResult)
      → Claimed generated request fingerprint now db claimed_db result
      → create_claimed generated request phone session_id result claimed_db ≡ ok (db', r)
      → Facts generated request phone fingerprint db db' r
  unfolding complete claim_input
  settled_claim claimed_db result (unkeyed absent same fresh_one) h =
      let made =
        subst
          (λ (c : ClaimResult).
            create_claimed generated request phone session_id c claimed_db ≡ ok (db', r))
          fresh_one h in
      let draft = draft_of generated request 0 phone session_id none in
      let (end, unused, found, new) =
        create_draft-ok draft generated.lock_token claimed_db db' r made in
      record {
        outcome =
            fresh-outcome none claimed_db
              (create_draft-IsCreation draft generated.lock_token claimed_db db' r made)
              (subst (λ (d : Database). d ≡ record db { idempotency_keys = d.idempotency_keys })
                (sym same) refl)
              new;
        recorded = λ key named. no_key absent named;
      }
  settled_claim claimed_db result (first key row is_row named absent same fresh_one) h =
      let made =
        subst
          (λ (c : ClaimResult).
            create_claimed generated request phone session_id c claimed_db ≡ ok (db', r))
          fresh_one h in
      let draft =
        draft_of generated request 0 phone session_id (some generated.idempotency_key_id) in
      let (end, unused, found, new) =
        create_draft-ok draft generated.lock_token claimed_db db' r made in
      let input = claim_input key in
      record {
        outcome =
            fresh-outcome (some generated.idempotency_key_id) claimed_db
              (create_draft-IsCreation draft generated.lock_token claimed_db db' r made)
              (subst (λ (d : Database). d ≡ record db { idempotency_keys = d.idempotency_keys })
                (sym same) refl)
              new;
        recorded = λ key' named'.
            subst (IsRecordedWith request fingerprint db' r.notification)
              (ap (λ (o : Option Text). get_or o []) (sym named ∙ named'))
              (
                complete_row none (some draft.id) (claimed_row generated.idempotency_key_id input),
                draft.id,
                first-IsRecorded request.application_id generated.idempotency_key_id input none
                    (some draft.id) db db' refl absent
                    (ap (λ (d : Database). d.idempotency_keys) end
                      ∙ ap
                          (λ (d : Database).
                            update_where
                              (λ row.
                                row.id == generated.idempotency_key_id
                                && row.lock_token == generated.lock_token)
                              (complete_row none (some draft.id)) d.idempotency_keys)
                          same
                      ∙ ap
                          (λ (row : IdempotencyKey).
                            update_where
                              (λ row.
                                row.id == generated.idempotency_key_id
                                && row.lock_token == generated.lock_token)
                              (complete_row none (some draft.id)) (db.idempotency_keys ++ row ∷ []))
                          is_row),
                refl,
                found,
              );
      }
  settled_claim claimed_db result (again key row named found matching state same replayed) h =
      let (id, resource, kept, read, was_replayed) =
        replay-ok request.application_id row.resource_id claimed_db db' r (
          subst
            (λ (c : ClaimResult).
              create_claimed generated request phone session_id c claimed_db ≡ ok (db', r))
            replayed h) in
      record {
        outcome = inl (was_replayed, kept ∙ same);
        recorded = λ key' named'.
            subst (IsRecordedWith request fingerprint db' r.notification)
              (ap (λ (o : Option Text). get_or o []) (sym named ∙ named'))
              (
                row,
                id,
                subst (λ (d : Database). IsRecorded request.application_id key fingerprint d row)
                    (sym (kept ∙ same))
                    (record { found = found; matching = matching; is_completed = state }),
                resource,
                ap (find_by_id request.application_id id) kept ∙ read,
              );
      }

module _ (generated : Generated) (request : NotificationRequest) (phone : Text) (fingerprint : Text)
    (now : ℕ) (db db' : Database) (r : CreateNotificationResult) where
  -- A transaction that ends well; its session is chosen again while the sessions are the same.
  pub transaction-Facts :
      generated.reaped ≡ none
      → create_transaction generated request phone fingerprint now db ≡ ok (db', r)
      → Facts generated request phone fingerprint db db' r
        × (s : WhatsAppSession) × ((later : Database)
            → later.sessions ≡ db.sessions
            → resolve_session request.application_id request.whatsapp_session_id later
              ≡ ok (later, s))
  unfolding create_transaction
  transaction-Facts unreaped h =
      let (db1, s, chosen, rest) =
        and_then-ok (resolve_session request.application_id request.whatsapp_session_id db) _ db' r
          h in
      let (same, resolves) =
        resolve_session-ok request.application_id request.whatsapp_session_id db db1 s chosen in
      let (db2, result, claims, made) =
        and_then-ok (claim_idempotency_key generated request fingerprint now db1) _ db' r rest in
      (
        subst (λ (d : Database). Facts generated request phone fingerprint d db' r) same
            (settled_claim generated request phone fingerprint now s.id db1 db' r db2 result
              (claim_idempotency_key-ok generated request fingerprint now db1 db2 result unreaped
                claims)
              made),
        s,
        resolves,
      )
