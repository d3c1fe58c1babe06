-- ===== src/Workers.antt =====
-- The processes of apps/worker at work together: the handlers of the queues
-- (apps/worker/src/handlers), the maintenance loop and the requests that cancel. Each runs in steps;
-- between two steps of one any number of steps of the others may run, a process may be killed at
-- any step, and the queue may deliver a job any number of times.
use whatsapp_notification_pl.Prelude.{
  ℕ, Bool, Option, none, some, List, [], ◌∷◌, ◌++◌, get_elem?, set,
}
use whatsapp_notification_pl.Database.Records.{Job}
use whatsapp_notification_pl.Configuration.{Configuration}
use whatsapp_notification_pl.Program.{Prog, done, ◌>>=◌, Answers, State, step}
use whatsapp_notification_pl.Services.Dispatch.{DispatchInput}
use whatsapp_notification_pl.Services.Dispatch.Entry.{dispatch}
use whatsapp_notification_pl.Services.Maintenance.{run_once}
use whatsapp_notification_pl.Services.Webhooks.{process}
use whatsapp_notification_pl.Services.Queries
use whatsapp_notification_pl.Services.Queries.{cancel}

pub data Task : Type 0 where
  dispatch_task : (claim_token : ℕ) → DispatchInput → Task
  maintenance_task : Task
  webhook_task : (delivery_id : ℕ) → Task
  cancel_task : (application_id notification_id : ℕ) → Option ℕ → Task
  cancel_waiting_task : (application_id : ℕ) → (session_id correlation_id : Option ℕ) → Task

-- A task takes up a new worker, the worker number `i` takes one step, or it is killed.
pub data Move : Type 0 where
  start : Task → Move
  proceed : (i : ℕ) → Answers → Move
  kill : (i : ℕ) → Move

pub record Platform : Type 0 where
  pub state : State
  pub workers : List (Prog (Unit {0}))

unfoldable pub ignoring : {A : Type 0} → Prog A → Prog (Unit {0})
ignoring p = p >>= λ _. done tt

unfoldable pub advance_worker : (i : ℕ) → Answers → Platform → Option (Prog (Unit {0})) → Platform
advance_worker i answers p none = p
advance_worker i answers p (some worker) = record {
  state = (step answers p.state worker).0;
  workers = set p.workers i (step answers p.state worker).1;
}

module _ (accepts : List Job → Job → Bool) (config : Configuration) where
  unfoldable pub program : Task → Prog (Unit {0})
  program (dispatch_task claim_token input) = ignoring (dispatch config claim_token input)
  program maintenance_task = ignoring (run_once accepts config)
  program (webhook_task delivery_id) = ignoring (process config delivery_id)
  program (cancel_task a n c) = ignoring (cancel a n c)
  program (cancel_waiting_task a s c) = ignoring (Queries.cancel_waiting a s c)

  unfoldable pub move : Move → Platform → Platform
  move (start task) p = record p { workers = p.workers ++ program task ∷ [] }
  move (proceed i answers) p = advance_worker i answers p (get_elem? p.workers i)
  move (kill i) p = record p { workers = set p.workers i (done tt) }

  unfoldable pub moves : List Move → Platform → Platform
  moves [] p = p
  moves (m ∷ ms) p = moves ms (move m p)
