-- ===== src/Domain/Status/Laws.antt =====
-- What the transition table of notification-status.ts amounts to.
use whatsapp_notification_pl.Prelude.{◌≡◌, refl, ◌↔◌, true, false, [], ◌∷◌, arith}
use whatsapp_notification_pl.Domain.Status.{
  NotificationStatus, scheduled, queued, processing, sent, delivered, retrying, failed, cancelled,
  includes, is_terminal_notification_status, can_transition_notification_status,
  cancellable_notification_statuses, is_cancellable_notification_status,
}

-- The documented lifecycle, written out edge by edge.
infix 40 ◌⟶◌ ◌⟶*◌
pub data ◌⟶◌ : NotificationStatus → NotificationStatus → Type 0 where
  promote : scheduled ⟶ queued
  cancel_scheduled : scheduled ⟶ cancelled
  claim_queued : queued ⟶ processing
  cancel_queued : queued ⟶ cancelled
  accept : processing ⟶ sent
  postpone : processing ⟶ retrying
  give_up : processing ⟶ failed
  receipt : sent ⟶ delivered
  refusal : sent ⟶ failed
  claim_retry : retrying ⟶ processing
  cancel_retry : retrying ⟶ cancelled
  expire : retrying ⟶ failed

pub data ◌⟶*◌ (s : NotificationStatus) : NotificationStatus → Type 0 where
  here : s ⟶* s
  next : {t u : NotificationStatus} → s ⟶* t → t ⟶ u → s ⟶* u

pub ⟶*-trans : {s t u : NotificationStatus} → s ⟶* t → t ⟶* u → s ⟶* u
⟶*-trans p here = p
⟶*-trans p (next q e) = next (⟶*-trans p q) e

ruleset edges = (
  promote, cancel_scheduled, claim_queued, cancel_queued, accept, postpone, give_up, receipt,
  refusal, claim_retry, cancel_retry, expire,
)

edge_of_can : (s t : NotificationStatus) → can_transition_notification_status s t ≡ true → s ⟶ t
unfolding can_transition_notification_status
edge_of_can scheduled t h = grind (arith, edges)
edge_of_can queued t h = grind (arith, edges)
edge_of_can processing t h = grind (arith, edges)
edge_of_can sent t h = grind (arith, edges)
edge_of_can delivered t h = grind (arith, edges)
edge_of_can retrying t h = grind (arith, edges)
edge_of_can failed t h = grind (arith, edges)
edge_of_can cancelled t h = grind (arith, edges)

can_of_edge : {s t : NotificationStatus} → s ⟶ t → can_transition_notification_status s t ≡ true
unfolding can_transition_notification_status
can_of_edge promote = refl
can_of_edge cancel_scheduled = refl
can_of_edge claim_queued = refl
can_of_edge cancel_queued = refl
can_of_edge accept = refl
can_of_edge postpone = refl
can_of_edge give_up = refl
can_of_edge receipt = refl
can_of_edge refusal = refl
can_of_edge claim_retry = refl
can_of_edge cancel_retry = refl
can_of_edge expire = refl

-- The table allows a move exactly when it is one of the twelve documented edges.
pub can_transition-iff-edge :
    (s t : NotificationStatus) → (can_transition_notification_status s t ≡ true) ↔ (s ⟶ t)
can_transition-iff-edge s t = (edge_of_can s t, can_of_edge)

stuck_of_terminal :
    (s t : NotificationStatus)
    → is_terminal_notification_status s ≡ true
    → can_transition_notification_status s t ≡ false
unfolding is_terminal_notification_status can_transition_notification_status
stuck_of_terminal s t h = ground arith

terminal_of_stuck :
    (s : NotificationStatus)
    → ((t : NotificationStatus) → can_transition_notification_status s t ≡ false)
    → is_terminal_notification_status s ≡ true
unfolding is_terminal_notification_status can_transition_notification_status
terminal_of_stuck scheduled h = ground (arith, h queued)
terminal_of_stuck queued h = ground (arith, h processing)
terminal_of_stuck processing h = ground (arith, h sent)
terminal_of_stuck sent h = ground (arith, h delivered)
terminal_of_stuck delivered h = refl
terminal_of_stuck retrying h = ground (arith, h processing)
terminal_of_stuck failed h = refl
terminal_of_stuck cancelled h = refl

-- A status is terminal exactly when the table has no move out of it.
terminal-iff-stuck :
    (s : NotificationStatus)
    → (is_terminal_notification_status s ≡ true)
      ↔ ((t : NotificationStatus) → can_transition_notification_status s t ≡ false)
terminal-iff-stuck s = ((λ h t. stuck_of_terminal s t h), terminal_of_stuck s)

no_edge_from_terminal :
    {s t : NotificationStatus} → is_terminal_notification_status s ≡ true → s ⟶ t → ⊥
no_edge_from_terminal {s} {t} h e = cc (stuck_of_terminal s t h, can_of_edge e)

-- Whatever happens to a notification in a terminal status, it stays in that status.
pub terminal_absorbs :
    {s t : NotificationStatus} → is_terminal_notification_status s ≡ true → s ⟶* t → t ≡ s
terminal_absorbs h here = refl
terminal_absorbs {s} h (next {t = u} p e) =
    absurd (no_edge_from_terminal (rw (terminal_absorbs h p) h) e)

-- The cancellable statuses, derived from the table, are the three in which nothing has left for
-- WhatsApp, and the test agrees with the list.
cancellable_lem :
    (s : NotificationStatus)
    → (cancellable_notification_statuses ≡ scheduled ∷ queued ∷ retrying ∷ [])
      × (is_cancellable_notification_status s ≡ includes cancellable_notification_statuses s)
unfolding cancellable_notification_statuses is_cancellable_notification_status
cancellable_lem s = (refl, ground arith)
