-- ===== src/Guarantees/Creation/Batch.antt =====
-- The creation of a batch: `createBatch` of create-notification.service.ts.
use whatsapp_notification_pl.Prelude.{
  ℕ, ◌≡◌, refl, sym, ap, ◌∙◌, true, false, ◌&&◌, Option, none, some, List, [], ◌∷◌, ◌++◌, map, ◌==◌,
  update_where, All, any, find?, arith,
}
use whatsapp_notification_pl.Database.Records.{Notification, Database}
use whatsapp_notification_pl.Database.Transaction.{ok, and_then-ok, ok-injective}
use whatsapp_notification_pl.Database.IdempotencyKeys.{complete_row, complete}
use whatsapp_notification_pl.Services.Creation.Claiming.{read_or_fail, read_all_or_fail}
use whatsapp_notification_pl.Services.Creation.Writing.{
  Draft, drafted_notification, creation_event, creation_job, write_notification,
  write_notifications, complete_key,
}
use whatsapp_notification_pl.Services.Creation.{
  replay_batch, create_drafts, CreateNotificationBatchResult,
}
use mathlib.Core.Path.{subst}
use whatsapp_notification_pl.Database.Notifications.{find_by_id, has_key}
use mathlib.Core.List.{append_assoc, append-nil}
use whatsapp_notification_pl.Guarantees.Creation.Steps.{read_or_fail-ok, write_notification-ok}
use whatsapp_notification_pl.Guarantees.Creation.Facts.{completed_database, complete_key-ok}

-- The notifications of the drafts are added, each with its event and its job.
pub record IsBatch (drafts : List Draft) (db db' : Database) : Type 0 where
  pub notifications : db'.notifications ≡ db.notifications ++ map drafted_notification drafts
  pub events : db'.events ≡ db.events ++ map creation_event drafts
  pub jobs : db'.jobs ≡ db.jobs ++ map creation_job drafts
  pub sessions : db'.sessions ≡ db.sessions

-- None of the identifiers is used by a row, nor by a draft before it.
abbrev pub AreUnused : List Draft → List Notification → Type 0
AreUnused [] rows = Unit
AreUnused (d ∷ drafts) rows =
    (any (λ (other : Notification). other.id == d.id) rows ≡ false)
    × AreUnused drafts (rows ++ drafted_notification d ∷ [])

find-drafted :
    (application_id : ℕ) (d : Draft) (rows more : List Notification)
    → d.request.application_id ≡ application_id
    → any (λ (other : Notification). other.id == d.id) rows ≡ false
    → find? (has_key application_id d.id) (rows ++ drafted_notification d ∷ more)
      ≡ some (drafted_notification d)
find-drafted application_id d [] more own h = ground (arith, own)
find-drafted application_id d (x ∷ rows) more own h =
    ground (arith, h, find-drafted application_id d rows more own)

read_or_fail-drafted :
    (application_id : ℕ) (d : Draft) (rows more : List Notification) (db : Database)
    → d.request.application_id ≡ application_id
    → any (λ (other : Notification). other.id == d.id) rows ≡ false
    → db.notifications ≡ rows ++ drafted_notification d ∷ more
    → read_or_fail application_id d.id db ≡ ok (db, drafted_notification d)
unfolding read_or_fail find_by_id
read_or_fail-drafted application_id d rows more db own h e =
    rw (e, find-drafted application_id d rows more own h) refl

-- The rows that were written are what is read under their identifiers.
read_all_or_fail-drafted :
    (application_id : ℕ) (drafts : List Draft) (rows : List Notification) (db : Database)
    → All (λ (d : Draft). d.request.application_id ≡ application_id) drafts
    → AreUnused drafts rows
    → db.notifications ≡ rows ++ map drafted_notification drafts
    → read_all_or_fail application_id (map (λ (d : Draft). d.id) drafts) db
      ≡ ok (db, map drafted_notification drafts)
unfolding read_all_or_fail
read_all_or_fail-drafted application_id [] rows db own unused e = refl
read_all_or_fail-drafted application_id (d ∷ drafts) rows db (o, own) (u, unused) e = rw (
  read_or_fail-drafted application_id d rows (map drafted_notification drafts) db o u e,
  read_all_or_fail-drafted application_id drafts (rows ++ drafted_notification d ∷ []) db own unused
      (e ∙ sym (append_assoc rows (drafted_notification d ∷ []) (map drafted_notification drafts))),
)

pub read-drafted :
    (application_id : ℕ) (drafts : List Draft) (db db' : Database) (ns : List Notification)
    → All (λ (d : Draft). d.request.application_id ≡ application_id) drafts
    → AreUnused drafts db.notifications
    → IsBatch drafts db db'
    → read_all_or_fail application_id (map (λ (d : Draft). d.id) drafts) db' ≡ ok (db', ns)
    → ns ≡ map drafted_notification drafts
read-drafted application_id drafts db db' ns own unused batch read =
    sym
      (ok-injective db' db' _ ns (
        sym (
          read_all_or_fail-drafted application_id drafts db.notifications db' own unused
            batch.notifications)
        ∙ read)).1

write_notifications-ok :
    (drafts : List Draft) (db db' : Database) (u : Unit {0})
    → write_notifications drafts db ≡ ok (db', u)
    → IsBatch drafts db db'
      × (db'.idempotency_keys ≡ db.idempotency_keys)
      × AreUnused drafts db.notifications
unfolding write_notifications
write_notifications-ok [] db db' u h =
    let (same, _) = ok-injective db db' tt u h in
    (
      record {
        notifications =
            ap (λ (d : Database). d.notifications) (sym same) ∙ sym (append-nil db.notifications);
        events = ap (λ (d : Database). d.events) (sym same) ∙ sym (append-nil db.events);
        jobs = ap (λ (d : Database). d.jobs) (sym same) ∙ sym (append-nil db.jobs);
        sessions = ap (λ (d : Database). d.sessions) (sym same);
      },
      ap (λ (d : Database). d.idempotency_keys) (sym same),
      tt,
    )
write_notifications-ok (draft ∷ drafts) db db' u h =
    let (db1, v, wrote, rest) = and_then-ok (write_notification draft db) _ db' u h in
    let (unused, same) = write_notification-ok draft db db1 v wrote in
    let (batch, keys, later) = write_notifications-ok drafts db1 db' u rest in
    (
      record {
        notifications =
            batch.notifications
            ∙ ap (λ (d : Database). d.notifications ++ map drafted_notification drafts) same
            ∙ append_assoc db.notifications (drafted_notification draft ∷ [])
                (map drafted_notification drafts);
        events =
            batch.events
            ∙ ap (λ (d : Database). d.events ++ map creation_event drafts) same
            ∙ append_assoc db.events (creation_event draft ∷ []) (map creation_event drafts);
        jobs =
            batch.jobs
            ∙ ap (λ (d : Database). d.jobs ++ map creation_job drafts) same
            ∙ append_assoc db.jobs (creation_job draft ∷ []) (map creation_job drafts);
        sessions = batch.sessions ∙ ap (λ (d : Database). d.sessions) same;
      },
      keys ∙ ap (λ (d : Database). d.idempotency_keys) same,
      (unused, subst (λ (d : Database). AreUnused drafts d.notifications) same later),
    )

read_all_or_fail-ok :
    (application_id : ℕ) (ids : List ℕ) (db db' : Database) (ns : List Notification)
    → read_all_or_fail application_id ids db ≡ ok (db', ns)
    → db' ≡ db
unfolding read_all_or_fail
read_all_or_fail-ok application_id [] db db' ns h = sym (ok-injective db db' [] ns h).0
read_all_or_fail-ok application_id (id ∷ ids) db db' ns h =
    let (db1, n, read, rest) = and_then-ok (read_or_fail application_id id db) _ db' ns h in
    let (db2, ms, read2, rest2) =
      and_then-ok (read_all_or_fail application_id ids db1) _ db' ns rest in
    sym (ok-injective db2 db' _ ns rest2).0
    ∙ read_all_or_fail-ok application_id ids db1 db2 ms read2
    ∙ (read_or_fail-ok application_id id db db1 n read).0

pub replay_batch-ok :
    (application_id : ℕ) (recorded : Option (List ℕ)) (db db' : Database)
    (r : CreateNotificationBatchResult)
    → replay_batch application_id recorded db ≡ ok (db', r)
    → (ids : List ℕ) × (recorded ≡ some ids)
      × (db' ≡ db)
      × (read_all_or_fail application_id ids db' ≡ ok (db', r.notifications))
      × (r.was_replayed ≡ true)
unfolding replay_batch
replay_batch-ok application_id none db db' r h = cc
replay_batch-ok application_id (some ids) db db' r h =
    let (db1, ns, read, rest) = and_then-ok (read_all_or_fail application_id ids db) _ db' r h in
    let kept = read_all_or_fail-ok application_id ids db db1 ns read in
    let (last, value) = ok-injective db1 db' _ r rest in
    (
      ids,
      refl,
      sym last ∙ kept,
      ap (read_all_or_fail application_id ids) (sym last ∙ kept)
          ∙ read
          ∙ ap (λ (d : Database). ok (d, ns)) last
          ∙ ap (λ (c : CreateNotificationBatchResult). ok (db', c.notifications)) value,
      sym (ap (λ (c : CreateNotificationBatchResult). c.was_replayed) value),
    )

pub completed_database-IsBatch :
    (drafts : List Draft) (id : Option ℕ) (lock_token : ℕ) (ids : Option (List ℕ))
    (db db' : Database)
    → IsBatch drafts db db'
    → IsBatch drafts db (completed_database id lock_token ids none db')
unfolding complete
completed_database-IsBatch drafts none lock_token ids db db' b = b
completed_database-IsBatch drafts (some id) lock_token ids db db' b = record {
  notifications = b.notifications;
  events = b.events;
  jobs = b.jobs;
  sessions = b.sessions;
}

pub completed_database-keys :
    (id lock_token : ℕ) (ids : Option (List ℕ)) (db db' : Database)
    → db'.idempotency_keys ≡ db.idempotency_keys
    → (completed_database (some id) lock_token ids none db').idempotency_keys
      ≡ update_where
          (λ row. row.id == id && row.lock_token == lock_token)
          (complete_row ids none)
          db.idempotency_keys
unfolding complete
completed_database-keys id lock_token ids db db' same =
    ap (update_where (λ row. row.id == id && row.lock_token == lock_token) (complete_row ids none))
      same

pub create_drafts-ok :
    (application_id : ℕ) (drafts : List Draft) (key_id : Option ℕ) (lock_token : ℕ)
    (db db' : Database) (r : CreateNotificationBatchResult)
    → create_drafts application_id drafts key_id lock_token db ≡ ok (db', r)
    → (written : Database) × (db'
        ≡ completed_database key_id lock_token
            (some (map (λ (d : Draft). d.id) drafts))
            none
            written)
      × IsBatch drafts db written
      × (written.idempotency_keys ≡ db.idempotency_keys)
      × (read_all_or_fail application_id (map (λ (d : Draft). d.id) drafts) db'
          ≡ ok (db', r.notifications))
      × (r.was_replayed ≡ false)
      × AreUnused drafts db.notifications
unfolding create_drafts
create_drafts-ok application_id drafts key_id lock_token db db' r h =
    let ids = map (λ (d : Draft). d.id) drafts in
    let (db1, u, wrote, rest) = and_then-ok (write_notifications drafts db) _ db' r h in
    let (batch, keys, unused) = write_notifications-ok drafts db db1 u wrote in
    let (db2, v, marked, rest2) =
      and_then-ok (complete_key key_id lock_token (some ids) none db1) _ db' r rest in
    let (db3, ns, read, rest3) =
      and_then-ok (read_all_or_fail application_id ids db2) _ db' r rest2 in
    let kept = read_all_or_fail-ok application_id ids db2 db3 ns read in
    let (last, value) = ok-injective db3 db' _ r rest3 in
    let (after, _) =
      ok-injective _ db2 tt v
        (sym (complete_key-ok key_id lock_token (some ids) none db1) ∙ marked) in
    (
      db1,
      sym last ∙ kept ∙ sym after,
      batch,
      keys,
      ap (read_all_or_fail application_id ids) (sym last ∙ kept)
          ∙ read
          ∙ ap (λ (d : Database). ok (d, ns)) last
          ∙ ap (λ (c : CreateNotificationBatchResult). ok (db', c.notifications)) value,
      sym (ap (λ (c : CreateNotificationBatchResult). c.was_replayed) value),
      unused,
    )
