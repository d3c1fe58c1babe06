-- ===== src/Guarantees/Retries.antt =====
-- A job was handed to the queue for every notification that waits for a retry. Whether the queue
-- took it is not said: one that keeps a single waiting job of each notification refuses a second.
pub mod Awaits
pub mod Claims
pub mod Waits
use whatsapp_notification_pl.Prelude.{Bool, List}
use whatsapp_notification_pl.Database.Records.{Job, Database}
use whatsapp_notification_pl.Database.Notifications
use whatsapp_notification_pl.Database.SendAttempts
use whatsapp_notification_pl.Database.Sessions
use whatsapp_notification_pl.Configuration.{Configuration}
use whatsapp_notification_pl.Program.{State}
use whatsapp_notification_pl.Workers.{Move, moves}
use whatsapp_notification_pl.Contract.Workers.{moves-Legal}
use whatsapp_notification_pl.Guarantees.Journey.{at_rest}
use whatsapp_notification_pl.Guarantees.Retries.Awaits.{RetriesAwaited}
use whatsapp_notification_pl.Guarantees.Retries.Waits.{Keeps-admits}

-- If in a database every notification that is RETRYING is due at some time for which a job of that
-- notification was handed to the queue, then so it is after anything that the workers do in whatever
-- order, from a platform at rest.
pub moves-RetriesAwaited :
    (accepts : List Job → Job → Bool) (config : Configuration) (ms : List Move) (state : State)
    → RetriesAwaited state.database
    → RetriesAwaited (moves accepts config ms (at_rest state)).state.database
moves-RetriesAwaited accepts config ms state =
    moves-Legal accepts config Keeps-admits (λ a b c f g h. g (f h)) ms (at_rest state) tt
