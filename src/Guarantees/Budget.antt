-- ===== src/Guarantees/Budget.antt =====
-- How many messages of one notification the provider is told to send.
pub mod Attempts
pub mod Logic
pub mod Tickets
pub mod Dispatch
pub mod Claim
pub mod Platform
use whatsapp_notification_pl.Prelude.{ℕ, ◌+◌, ◌*◌, ◌≤◌, ◌≡◌, ◌∙◌, Bool, some, List, [], arith}
use mathlib.Core.Path.{subst}
use whatsapp_notification_pl.Database.Records.{Notification, Job, Database}
use whatsapp_notification_pl.Configuration.{Configuration}
use whatsapp_notification_pl.Workers.{Move, moves}
use whatsapp_notification_pl.Contract.Workers.{moves-Legal}
use whatsapp_notification_pl.Guarantees.Rows.{row_of, Moves-trans}
use whatsapp_notification_pl.Guarantees.Journey.{at_rest}
use whatsapp_notification_pl.Guarantees.Lifecycle.{Advances-admits}
use whatsapp_notification_pl.Guarantees.Budget.Attempts.{
  rows_of, cap-le, Moves-rows_of, unique-SameMaximum,
}
use whatsapp_notification_pl.Guarantees.Budget.Logic.{sent_messages}
use whatsapp_notification_pl.Guarantees.Budget.Platform.{moves-InBudget}

within_budget :
    (maximum sent counted total rows : ℕ)
    → sent + total ≤ counted
    → counted ≤ rows * maximum
    → rows ≡ 1
    → sent ≤ maximum
within_budget maximum sent counted total rows le bound one =
    omega (arith, le, subst (λ n. counted ≤ n * maximum) one bound)

-- From a platform at rest that has sent nothing, whatever tasks are started and however their
-- workers interleave, are killed and are started again: the provider is told to send the messages of
-- a notification, whose identifier one row has, no more often than its maximum of attempts.
pub moves-sent_messages :
    (accepts : List Job → Job → Bool) (config : Configuration) (ms : List Move) (db : Database)
    (id : ℕ) (r : Notification)
    → rows_of id db.notifications ≡ 1
    → row_of id db.notifications ≡ some r
    → sent_messages id
        (moves accepts config ms (at_rest (record { database = db; sends = [] }))).state.sends
      ≤ r.maximum_attempts
moves-sent_messages accepts config ms db id r unique e =
    let p = at_rest (record { database = db; sends = [] }) in
    let (sane, total, le, funded) =
      moves-InBudget id r.maximum_attempts accepts config ms p
        (unique-SameMaximum id db.notifications r (omega (arith, unique)) e, 0, omega arith, tt) in
    let same =
      Moves-rows_of id db.notifications (moves accepts config ms p).state.database.notifications
        (moves-Legal accepts config Advances-admits (λ a b c. Moves-trans _ _ _) ms p tt) in
    within_budget r.maximum_attempts _ _ total _ le
      (cap-le id r.maximum_attempts (moves accepts config ms p).state.database.notifications)
      (same ∙ unique)
