-- ===== src/Domain/Status.antt =====
-- packages/domain/src/notification/notification-status.ts: the notification lifecycle.
pub mod Laws
use whatsapp_notification_pl.Prelude.{
  ℕ, Bool, false, ◌||◌, List, [], ◌∷◌, ◌==◌, if◌then◌else◌, filter,
}

pub data NotificationStatus : Type 0 where
  scheduled queued processing sent delivered retrying failed cancelled : NotificationStatus

-- The place of a status in `notificationStatuses`, by which two statuses are compared.
abbrev pub rank : NotificationStatus → ℕ
rank scheduled = 0
rank queued = 1
rank processing = 2
rank sent = 3
rank delivered = 4
rank retrying = 5
rank failed = 6
rank cancelled = 7

infix 50 ◌is◌
abbrev pub ◌is◌ : NotificationStatus → NotificationStatus → Bool
s is t = rank s == rank t

abbrev pub includes : List NotificationStatus → NotificationStatus → Bool
includes [] s = false
includes (t ∷ ts) s = t is s || includes ts s

abbrev pub notification_statuses : List NotificationStatus
notification_statuses =
    scheduled ∷ queued ∷ processing ∷ sent ∷ delivered ∷ retrying ∷ failed ∷ cancelled ∷ []

unfoldable pub notification_status_transitions : NotificationStatus → List NotificationStatus
notification_status_transitions scheduled = queued ∷ cancelled ∷ []
notification_status_transitions queued = processing ∷ cancelled ∷ []
notification_status_transitions processing = sent ∷ retrying ∷ failed ∷ []
notification_status_transitions sent = delivered ∷ failed ∷ []
notification_status_transitions delivered = []
notification_status_transitions retrying = processing ∷ cancelled ∷ failed ∷ []
notification_status_transitions failed = []
notification_status_transitions cancelled = []

abbrev pub terminal_notification_statuses : List NotificationStatus
terminal_notification_statuses = delivered ∷ failed ∷ cancelled ∷ []

unfoldable pub is_terminal_notification_status : NotificationStatus → Bool
is_terminal_notification_status status = includes terminal_notification_statuses status

unfoldable pub can_transition_notification_status : NotificationStatus → NotificationStatus → Bool
unfolding notification_status_transitions
can_transition_notification_status from to = includes (notification_status_transitions from) to

unfoldable pub cancellable_notification_statuses : List NotificationStatus
unfolding can_transition_notification_status
cancellable_notification_statuses =
    filter (λ status. can_transition_notification_status status cancelled) notification_statuses

unfoldable pub is_cancellable_notification_status : NotificationStatus → Bool
unfolding can_transition_notification_status
is_cancellable_notification_status status = can_transition_notification_status status cancelled

-- `undefined` for a legal move, and the two statuses of the error that is thrown otherwise.
pub data Assertion : Type 0 where
  returned : Assertion
  illegal_transition : (from to : NotificationStatus) → Assertion

unfoldable pub assert_notification_status_transition :
    NotificationStatus → NotificationStatus → Assertion
unfolding can_transition_notification_status
assert_notification_status_transition from to =
    if can_transition_notification_status from to then returned else illegal_transition from to
