-- ===== src/Guarantees/Creation/Facts.antt =====
-- What a creation transaction that ends well has done.
use whatsapp_notification_pl.Prelude.{
  ℕ, ◌≡◌, refl, sym, ap, ◌∙◌, true, false, Option, none, some, List, [], ◌∷◌, ◌++◌, arith, ◌==◌,
  if◌then◌else◌, get_or, find?, any,
}
use mathlib.Core.Path.{subst}
use whatsapp_notification_pl.Database.Records.{Notification, Database}
use whatsapp_notification_pl.Database.Transaction.{ok, and_then-ok, ok-injective}
use whatsapp_notification_pl.Database.IdempotencyKeys.{complete}
use whatsapp_notification_pl.Database.Notifications.{find_by_id, has_key}
use whatsapp_notification_pl.Services.Creation.Claiming.{read_or_fail}
use whatsapp_notification_pl.Services.Creation.Writing.{
  Draft, drafted_notification, creation_event, creation_job, write_notification, complete_key,
}
use whatsapp_notification_pl.Services.Creation.{CreateNotificationResult, replay, create_draft}
use whatsapp_notification_pl.Guarantees.Creation.Steps.{
  read_or_fail-ok, with_creation, is_used, write_notification-ok,
}
use whatsapp_notification_pl.Guarantees.Creation.Keys.{equal_refl}

pub find-unused :
    (application_id id : ℕ) (xs : List Notification) (x : Notification)
    → any (λ (other : Notification). other.id == id) xs ≡ false
    → find? (has_key application_id id) (xs ++ x ∷ [])
      ≡ (if has_key application_id id x then some x else none)
find-unused application_id id [] x h = refl
find-unused application_id id (y ∷ xs) x h = ground (arith, find-unused application_id id xs x)

-- The database after the completion of the key, if there is one.
abbrev pub completed_database : Option ℕ → ℕ → Option (List ℕ) → Option ℕ → Database → Database
completed_database none lock_token ids resource_id db = db
completed_database (some id) lock_token ids resource_id db =
    complete id lock_token ids resource_id db

pub complete_key-ok :
    (id : Option ℕ) (lock_token : ℕ) (ids : Option (List ℕ)) (resource_id : Option ℕ)
    (db : Database)
    → complete_key id lock_token ids resource_id db
      ≡ ok (completed_database id lock_token ids resource_id db, tt)
complete_key-ok none lock_token ids resource_id db = refl
complete_key-ok (some id) lock_token ids resource_id db = refl

-- One notification with its event and its job is added; of the rest, only keys may change.
pub record IsCreation (draft : Draft) (db db' : Database) : Type 0 where
  pub notifications : db'.notifications ≡ db.notifications ++ drafted_notification draft ∷ []
  pub events : db'.events ≡ db.events ++ creation_event draft ∷ []
  pub jobs : db'.jobs ≡ db.jobs ++ creation_job draft ∷ []
  pub attempts : db'.attempts ≡ db.attempts
  pub sessions : db'.sessions ≡ db.sessions
  pub deliveries : db'.deliveries ≡ db.deliveries

completed-IsCreation :
    (draft : Draft) (id : Option ℕ) (lock_token : ℕ) (ids : Option (List ℕ))
    (resource_id : Option ℕ) (db : Database)
    → IsCreation draft db
        (completed_database id lock_token ids resource_id (with_creation draft db))
unfolding complete
completed-IsCreation draft none lock_token ids resource_id db = record {
  notifications = refl;
  events = refl;
  jobs = refl;
  attempts = refl;
  sessions = refl;
  deliveries = refl;
}
completed-IsCreation draft (some id) lock_token ids resource_id db = record {
  notifications = refl;
  events = refl;
  jobs = refl;
  attempts = refl;
  sessions = refl;
  deliveries = refl;
}

pub create_draft-ok :
    (draft : Draft) (lock_token : ℕ) (db db' : Database) (r : CreateNotificationResult)
    → create_draft draft lock_token db ≡ ok (db', r)
    → (db'
        ≡ completed_database draft.idempotency_key_id lock_token none
            (some draft.id)
            (with_creation draft db))
      × (is_used draft.id db ≡ false)
      × (find_by_id draft.request.application_id draft.id db' ≡ some r.notification)
      × (r.was_replayed ≡ false)
unfolding create_draft
create_draft-ok draft lock_token db db' r h =
    let (db1, u, wrote, rest) = and_then-ok (write_notification draft db) _ db' r h in
    let (unused, same) = write_notification-ok draft db db1 u wrote in
    let (db2, v, marked, rest2) =
      and_then-ok (complete_key draft.idempotency_key_id lock_token none (some draft.id) db1) _ db'
        r rest in
    let (db3, n, read, rest3) =
      and_then-ok (read_or_fail draft.request.application_id draft.id db2) _ db' r rest2 in
    let (kept, found) = read_or_fail-ok draft.request.application_id draft.id db2 db3 n read in
    let (last, value) = ok-injective db3 db' _ r rest3 in
    let (after, _) = ok-injective _ db2 tt v (
      sym (complete_key-ok draft.idempotency_key_id lock_token none (some draft.id) db1)
      ∙ marked) in
    let end : db' ≡ db2 = sym last ∙ kept in
    (
      end
          ∙ sym after
          ∙ ap (completed_database draft.idempotency_key_id lock_token none (some draft.id)) same,
      unused,
      ap (find_by_id draft.request.application_id draft.id) end
          ∙ found
          ∙ ap (λ (c : CreateNotificationResult). some c.notification) value,
      sym (ap (λ (c : CreateNotificationResult). c.was_replayed) value),
    )

has_own_key :
    (draft : Draft)
    → (if has_key draft.request.application_id draft.id (drafted_notification draft)
        then some (drafted_notification draft)
        else none)
      ≡ some (drafted_notification draft)
has_own_key draft = rw (equal_refl draft.id, equal_refl draft.request.application_id)

-- The row that is read back is the one that was written.
pub create_draft-IsCreation :
    (draft : Draft) (lock_token : ℕ) (db db' : Database) (r : CreateNotificationResult)
    → create_draft draft lock_token db ≡ ok (db', r)
    → IsCreation draft db db' × (r.notification ≡ drafted_notification draft)
unfolding find_by_id
create_draft-IsCreation draft lock_token db db' r h =
    let (same, unused, found, fresh_one) = create_draft-ok draft lock_token db db' r h in
    let creation =
      subst (IsCreation draft db) (sym same)
        (completed-IsCreation draft draft.idempotency_key_id lock_token none (some draft.id) db) in
    (
      creation,
      ap (λ (o : Option Notification). get_or o (drafted_notification draft))
          (sym found
            ∙ ap (find? (has_key draft.request.application_id draft.id)) creation.notifications
            ∙ find-unused draft.request.application_id draft.id db.notifications
                (drafted_notification draft) unused
            ∙ has_own_key draft),
    )

pub replay-ok :
    (application_id : ℕ) (resource_id : Option ℕ) (db db' : Database) (r : CreateNotificationResult)
    → replay application_id resource_id db ≡ ok (db', r)
    → (id : ℕ) × (resource_id ≡ some id)
      × (db' ≡ db)
      × (find_by_id application_id id db ≡ some r.notification)
      × (r.was_replayed ≡ true)
unfolding replay
replay-ok application_id none db db' r h = cc
replay-ok application_id (some id) db db' r h =
    let (db1, n, read, rest) = and_then-ok (read_or_fail application_id id db) _ db' r h in
    let (kept, found) = read_or_fail-ok application_id id db db1 n read in
    let (last, value) = ok-injective db1 db' _ r rest in
    (
      id,
      refl,
      sym last ∙ kept,
      found ∙ ap (λ (c : CreateNotificationResult). some c.notification) value,
      sym (ap (λ (c : CreateNotificationResult). c.was_replayed) value),
    )
