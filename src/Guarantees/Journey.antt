-- ===== src/Guarantees/Journey.antt =====
-- What becomes of one notification, whatever the workers do to it.
use whatsapp_notification_pl.Prelude.{ℕ, ◌≡◌, Bool, true, some, List, []}
use whatsapp_notification_pl.Database.Records.{Notification, Job}
use whatsapp_notification_pl.Configuration.{Configuration}
use whatsapp_notification_pl.Program.{State}
use whatsapp_notification_pl.Domain.Status.{is_terminal_notification_status}
use whatsapp_notification_pl.Domain.Status.Laws.{terminal_absorbs}
use whatsapp_notification_pl.Workers.{Move, Platform, moves}
use whatsapp_notification_pl.Contract.Workers.{moves-Legal}
use whatsapp_notification_pl.Guarantees.Rows.{row_of, Follows, find-Moves, Moves-trans}
use whatsapp_notification_pl.Guarantees.Lifecycle.{Advances-admits}

-- A platform on which no worker has begun.
abbrev pub at_rest : State → Platform
at_rest state = record { state = state; workers = [] }

pub moves-Follows :
    (accepts : List Job → Job → Bool) (config : Configuration) (ms : List Move) (state : State)
    (id : ℕ) (r : Notification)
    → row_of id state.database.notifications ≡ some r
    → (r' : Notification) × (row_of id
          (moves accepts config ms (at_rest state)).state.database.notifications
        ≡ some r')
      × Follows r r'
moves-Follows accepts config ms state id =
    find-Moves id _ _ (
      moves-Legal accepts config Advances-admits (λ a b c. Moves-trans _ _ _) ms (at_rest state) tt)

-- A notification that is delivered, failed or cancelled keeps that status for good, whatever the
-- workers do in whatever order from a platform at rest.
pub moves-keep_terminal :
    (accepts : List Job → Job → Bool) (config : Configuration) (ms : List Move) (state : State)
    (id : ℕ) (r : Notification)
    → row_of id state.database.notifications ≡ some r
    → is_terminal_notification_status r.status ≡ true
    → (r' : Notification) × (row_of id
          (moves accepts config ms (at_rest state)).state.database.notifications
        ≡ some r')
      × (r'.status ≡ r.status)
moves-keep_terminal accepts config ms state id r e terminal =
    let (r', e', f) = moves-Follows accepts config ms state id r e in
    (r', e', terminal_absorbs terminal f.path)
