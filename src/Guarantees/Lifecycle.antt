-- ===== src/Guarantees/Lifecycle.antt =====
-- Every transaction of every service moves each notification along the documented edges only.
use whatsapp_notification_pl.Prelude.{
  ℕ, ◌+◌, ◌≡◌, refl, sym, Bool, true, false, ◌&&◌, ◌||◌, Option, none, some, arith, ◌==◌,
  if◌then◌else◌, is_just, Text,
}
use mathlib.Core.Path.{subst}
use whatsapp_notification_pl.Database.Records.{Notification, Database}
use whatsapp_notification_pl.Database.Notifications.{Changes}
use whatsapp_notification_pl.Domain.Status.{
  NotificationStatus, scheduled, queued, processing, sent, delivered, retrying, failed, cancelled,
  ◌is◌, is_cancellable_notification_status,
}
use whatsapp_notification_pl.Database.Notifications.{
  promote_scheduled, claim_for_dispatch, begin_attempt, apply_transition, apply_changes,
  append_event, append_events, hand_to_queue, has_key, is_due, is_claimable, is_waiting,
  cancel_waiting,
}
use whatsapp_notification_pl.Domain.Acknowledgement.{DeliveryAcknowledgement}
use whatsapp_notification_pl.Services.Dispatch.Waiting.{deferral}
use whatsapp_notification_pl.Services.Dispatch.Sending.{attempt_transaction}
use whatsapp_notification_pl.Services.Queries.{cancel_waiting_transaction}
use whatsapp_notification_pl.Services.Webhooks.{
  acknowledgement_transaction, resolve_status, acknowledgement_changes,
}
use whatsapp_notification_pl.Domain.Acknowledgement.{
  is_failure_acknowledgement, is_delivered_acknowledgement,
}
use whatsapp_notification_pl.Domain.Status.Laws.{
  ◌⟶◌, ◌⟶*◌, here, next, promote, claim_queued, claim_retry, accept, postpone, receipt, refusal,
  cancel_queued, cancel_retry, can_transition-iff-edge,
}
use whatsapp_notification_pl.Contract.{Admits}
use whatsapp_notification_pl.Guarantees.Rows.{
  Follows, Moves-refl, Advances, update-Moves, is-eq, &&-left, &&-right,
}
use whatsapp_notification_pl.Guarantees.Transactions.{
  attempt-notifications, transition-notifications, sent-notifications, release-notifications,
  cancel-notifications,
}

pub hop : {s t : NotificationStatus} → s ⟶ t → s ⟶* t
hop e = next here e

-- A row that changes its status, and nothing of what was asked for.
status-Follows :
    (r r' : Notification)
    → (r'.id ≡ r.id)
      × (r'.application_id ≡ r.application_id)
      × (r'.recipient_phone_number ≡ r.recipient_phone_number)
      × (r'.rendered_body ≡ r.rendered_body)
      × (r'.maximum_attempts ≡ r.maximum_attempts)
      × (r'.attempt_count ≡ r.attempt_count)
    → r.status ⟶* r'.status
    → Follows r r'
status-Follows r r' (e₀, e₁, e₂, e₃, e₄, e₅) p = record {
  same_id = e₀;
  same_application = e₁;
  same_recipient = e₂;
  same_body = e₃;
  same_maximum = e₄;
  attempts_grow = omega (arith, e₅);
  path = p;
}

from :
    {s t : NotificationStatus} (r : Notification) → (r.status is s) ≡ true → s ⟶* t → r.status ⟶* t
from {s} {t} r h p = subst (λ x. x ⟶* t) (sym (is-eq r.status s h)) p

promote-Moves : (a n t : ℕ) (db : Database) → Advances db (promote_scheduled a n t db).0
unfolding promote_scheduled
promote-Moves a n t db =
    update-Moves (λ r. has_key a n r && (r.status is scheduled && is_due r.scheduled_at t))
      (λ r. record r { status = queued; updated_at = t }) db.notifications
      (λ r h.
        status-Follows r (record r { status = queued; updated_at = t })
          (refl, refl, refl, refl, refl, refl)
          (from r (&&-left (r.status is scheduled) _ (&&-right (has_key a n r) _ h)) (hop promote)))

claimable-path : (t : ℕ) (r : Notification) → is_claimable t r ≡ true → r.status ⟶* processing
claimable-path t r h = go r.status h
  where
    go :
        (s : NotificationStatus)
        → (s is queued || (s is retrying && is_due r.next_attempt_at t)) ≡ true
        → s ⟶* processing
    go queued k = hop claim_queued
    go retrying k = hop claim_retry
    go scheduled k = cc
    go processing k = cc
    go sent k = cc
    go delivered k = cc
    go failed k = cc
    go cancelled k = cc

claim-Moves : (a n token t : ℕ) (db : Database) → Advances db (claim_for_dispatch a n token t db).0
unfolding claim_for_dispatch
claim-Moves a n token t db =
    let f : Notification → Notification = λ r. record r {
      status = processing;
      claim_token = some token;
      claimed_at = some t;
      updated_at = t;
    } in
    update-Moves (λ r. has_key a n r && is_claimable t r) f db.notifications
      (λ r h.
        status-Follows r (f r) (refl, refl, refl, refl, refl, refl)
          (claimable-path t r (&&-right (has_key a n r) _ h)))

attempt-Moves :
    (n : Notification) (token : ℕ) (chat : Text) (t : ℕ) (db : Database)
    → Advances db (attempt_transaction n token chat t db).0
unfolding begin_attempt
attempt-Moves n token chat t db = rw (attempt-notifications n token chat t db) (
    update-Moves
      (λ r.
        has_key n.application_id n.id r && (is_just r.claim_token token && r.status is processing))
      (λ r. record r {
        attempt_count = r.attempt_count + 1;
        recipient_chat_identifier = some chat;
        updated_at = t;
      })
      db.notifications
      (λ r h. record {
        same_id = refl;
        same_application = refl;
        same_recipient = refl;
        same_body = refl;
        same_maximum = refl;
        attempts_grow = omega arith;
        path = here;
      }))

apply_transition-Moves :
    (a n : ℕ) (s t : NotificationStatus) (c : Changes) (u : ℕ) (db : Database)
    → s ⟶* t
    → Advances db (apply_transition a n s t c u db).0
unfolding apply_transition
apply_transition-Moves a n s t c u db p =
    update-Moves (λ r. has_key a n r && r.status is s) (apply_changes t u c) db.notifications
      (λ r h.
        status-Follows r (apply_changes t u c r) (refl, refl, refl, refl, refl, refl)
          (from r (&&-right (has_key a n r) _ h) p))

resolve_status-path :
    (s : NotificationStatus) (a : DeliveryAcknowledgement) → s ⟶* resolve_status s a
unfolding resolve_status
resolve_status-path sent a = go (is_failure_acknowledgement a) (is_delivered_acknowledgement a)
  where
    go : (b c : Bool) → sent ⟶* (if b then failed else if c then delivered else sent)
    go true c = hop refusal
    go false true = hop receipt
    go false false = here
resolve_status-path scheduled a = here
resolve_status-path _ a = here

acknowledge-Moves :
    (n : Notification) (m r : DeliveryAcknowledgement) (t : ℕ) (db : Database)
    → Advances db (acknowledgement_transaction n m r t db)
unfolding acknowledgement_transaction append_event
acknowledge-Moves n m r t db =
    apply_transition-Moves n.application_id n.id n.status (resolve_status n.status m)
      (acknowledgement_changes n m t) t db (resolve_status-path n.status m)

waiting-path :
    (a : ℕ) (o : Option ℕ) (r : Notification) → is_waiting a o r ≡ true → r.status ⟶* cancelled
waiting-path a o r h =
    go r.status (
      &&-left (r.status is queued || r.status is retrying) _ (&&-right (r.application_id == a) _ h))
  where
    go : (s : NotificationStatus) → (s is queued || s is retrying) ≡ true → s ⟶* cancelled
    go queued k = hop cancel_queued
    go retrying k = hop cancel_retry
    go scheduled k = cc
    go processing k = cc
    go sent k = cc
    go delivered k = cc
    go failed k = cc
    go cancelled k = cc

cancel_waiting-Moves :
    (a : ℕ) (o c : Option ℕ) (t : ℕ) (db : Database)
    → Advances db (cancel_waiting_transaction a o c t db).0
unfolding cancel_waiting_transaction append_events cancel_waiting
cancel_waiting-Moves a o c t db =
    let f : Notification → Notification = λ r. record r {
      status = cancelled;
      cancelled_at = some t;
      updated_at = t;
      next_attempt_at = none;
    } in
    update-Moves (is_waiting a o) f db.notifications
      (λ r h. status-Follows r (f r) (refl, refl, refl, refl, refl, refl) (waiting-path a o r h))

-- Every transaction of the services moves each notification along the edges of the lifecycle,
-- or leaves it alone.
pub Advances-admits : Admits Advances
unfolding append_event hand_to_queue deferral is_cancellable_notification_status
Advances-admits = record {
  stays = λ db. Moves-refl _;
  sessions = λ rows db. Moves-refl _;
  attempts = λ rows db. Moves-refl _;
  deliveries = λ rows db. Moves-refl _;
  event = λ e db. Moves-refl _;
  job = λ j db. Moves-refl _;
  promote = promote-Moves;
  claim = claim-Moves;
  attempt = attempt-Moves;
  transition = λ n step input db sound.
      rw (transition-notifications n step input db)
        (apply_transition-Moves _ _ _ _ _ _ db (hop sound.legal));
  deferred = λ n until t input db.
      apply_transition-Moves n.application_id n.id processing retrying _ t db (hop postpone);
  was_sent = λ n k chat m t u input db.
      rw (sent-notifications n k chat m t u input db)
        (apply_transition-Moves _ _ _ _ _ _ db (hop accept));
  release = λ n t db.
      rw (release-notifications n t db) (apply_transition-Moves _ _ _ _ _ _ db (hop postpone));
  cancel = λ n a c t db h. rw (cancel-notifications n a c t db) (
      apply_transition-Moves _ _ _ _ _ _ db
        (hop ((can_transition-iff-edge n.status cancelled).0 h)));
  cancel_waiting = cancel_waiting-Moves;
  acknowledge = acknowledge-Moves;
}
