-- ===== src/Guarantees/Budget/Platform.antt =====
-- The workers of a platform together have not sent more than they paid for.
use whatsapp_notification_pl.Prelude.{
  ℕ, zero, suc, ◌+◌, ◌≤◌, ◌≡◌, refl, ap, Bool, Option, none, some, List, [], ◌∷◌, ◌++◌, arith,
  get_or, get_elem?, set,
}
use mathlib.Core.Path.{subst}
use whatsapp_notification_pl.Database.Records.{Job}
use whatsapp_notification_pl.Configuration.{Configuration}
use whatsapp_notification_pl.Program.{Prog, done, Answers}
use whatsapp_notification_pl.Program.Logic.{Every}
use whatsapp_notification_pl.Services.Dispatch.Entry.{dispatch}
use whatsapp_notification_pl.Services.Maintenance.{run_once}
use whatsapp_notification_pl.Services.Webhooks.{process}
use whatsapp_notification_pl.Services.Queries
use whatsapp_notification_pl.Services.Queries.{cancel}
use whatsapp_notification_pl.Workers.{
  Task, dispatch_task, maintenance_task, webhook_task, cancel_task, cancel_waiting_task, Move,
  start, proceed, kill, Platform, ignoring, program, advance_worker, move, moves,
}
use whatsapp_notification_pl.Contract.Others.{
  run_once-Every, process-Every, cancel-Every, cancel_waiting-Every,
}
use whatsapp_notification_pl.Guarantees.Rows.{Advances}
use whatsapp_notification_pl.Guarantees.Lifecycle.{Advances-admits}
use whatsapp_notification_pl.Guarantees.Budget.Logic.{
  sent_messages, counted, Sane, Funded, Paid, >>=-Funded, quiet-Funded, step-Funded,
}
use whatsapp_notification_pl.Guarantees.Budget.Tickets.{Silent}
use whatsapp_notification_pl.Guarantees.Budget.Claim.{dispatch-Funded}

module _ (id maximum : ℕ) where
  -- Workers that share what was paid, each with enough for what it may still send.
  abbrev pub AllFunded : ℕ → List (Prog (Unit {0})) → Type 0
  AllFunded total [] = Unit
  AllFunded total (w ∷ ws) =
      (t : ℕ) × (u : ℕ) × (t + u ≤ total) × Funded id maximum (Paid id maximum) t w × AllFunded u ws

  AllFunded-append :
      (total : ℕ) (ws : List (Prog (Unit {0}))) (w : Prog (Unit {0}))
      → AllFunded total ws
      → Funded id maximum (Paid id maximum) 0 w
      → AllFunded total (ws ++ w ∷ [])
  AllFunded-append total [] w h f = (0, total, omega arith, f, tt)
  AllFunded-append total (v ∷ ws) w (t, u, le, g, h) f = (t, u, le, g, AllFunded-append u ws w h f)

  AllFunded-kill :
      (total : ℕ) (ws : List (Prog (Unit {0}))) (i : ℕ)
      → AllFunded total ws
      → AllFunded total (set ws i (done tt))
  AllFunded-kill total [] i h = tt
  AllFunded-kill total (v ∷ ws) zero (t, u, le, g, h) = (t, u, le, tt, h)
  AllFunded-kill total (v ∷ ws) (suc i) (t, u, le, g, h) = (t, u, le, g, AllFunded-kill u ws i h)

  -- The share of one worker, and what the others keep when it is spent or grows.
  AllFunded-get :
      (total : ℕ) (ws : List (Prog (Unit {0}))) (i : ℕ) (w : Prog (Unit {0}))
      → AllFunded total ws
      → get_elem? ws i ≡ some w
      → (t : ℕ) × (u : ℕ) × (t + u ≤ total)
        × Funded id maximum (Paid id maximum) t w
        × ((v : ℕ) (w' : Prog (Unit {0}))
            → Funded id maximum (Paid id maximum) v w'
            → AllFunded (v + u) (set ws i w'))
  AllFunded-get total [] i w h e = cc
  AllFunded-get total (x ∷ ws) zero w (t, u, le, g, h) e = (
    t,
    u,
    le,
    subst (Funded id maximum (Paid id maximum) t) (ap (λ o. get_or o x) {x = some x} {y = some w} e)
        g,
    (λ v w' g'. (v, u, omega arith, g', h)),
  )
  AllFunded-get total (x ∷ ws) (suc i) w (t, u, le, g, h) e =
      let (t', u', le', g', rest) = AllFunded-get u ws i w h e in
      (t', t + u', omega (arith, le, le'), g', (λ v w' f. (t, v + u', omega arith, g, rest v w' f)))

  -- What was sent and what may still be sent is within what was counted.
  abbrev pub InBudget : Platform → Type 0
  InBudget p =
      Sane id maximum p.state.database
      × (total : ℕ) × (sent_messages id p.state.sends + total ≤ counted id maximum p.state.database)
      × AllFunded total p.workers

  module _ (accepts : List Job → Job → Bool) (config : Configuration) where
    quiet-program :
        {A : Type 0} (p : Prog A)
        → Every Advances Silent p
        → Funded id maximum (Paid id maximum) 0 (ignoring p)
    unfolding ignoring
    quiet-program p e =
        >>=-Funded id maximum (Paid id maximum) (Paid id maximum) 0 p _
          (quiet-Funded id maximum 0 p e) (λ _ _ _. tt)

    program-Funded : (t : Task) → Funded id maximum (Paid id maximum) 0 (program accepts config t)
    unfolding program ignoring
    program-Funded (dispatch_task token input) =
        >>=-Funded id maximum (Paid id maximum) (Paid id maximum) 0 (dispatch config token input) _
          (dispatch-Funded id maximum config token input 0) (λ _ _ _. tt)
    program-Funded maintenance_task =
        quiet-program (run_once accepts config)
          (run_once-Every Silent Advances-admits accepts config)
    program-Funded (webhook_task d) =
        quiet-program (process config d) (process-Every Silent Advances-admits config d)
    program-Funded (cancel_task a n c) =
        quiet-program (cancel a n c) (cancel-Every Silent Advances-admits a n c)
    program-Funded (cancel_waiting_task a s c) =
        quiet-program (Queries.cancel_waiting a s c)
          (cancel_waiting-Every Silent Advances-admits a s c)

    advance-InBudget :
        (i : ℕ) (ans : Answers) (p : Platform) (o : Option (Prog (Unit {0})))
        → get_elem? p.workers i ≡ o
        → InBudget p
        → InBudget (advance_worker i ans p o)
    unfolding advance_worker
    advance-InBudget i ans p none e h = h
    advance-InBudget i ans p (some w) e (sane, total, le, h) =
        let (t, u, share, f, rest) = AllFunded-get total p.workers i w h e in
        let (sane', v, paid, f') =
          step-Funded id maximum (Paid id maximum) t ans p.state w f sane in
        (sane', v + u, omega (arith, le, share, paid), rest v _ f')

    move-InBudget : (m : Move) (p : Platform) → InBudget p → InBudget (move accepts config m p)
    unfolding move
    move-InBudget (start t) p (sane, total, le, h) =
        (sane, total, le, AllFunded-append total p.workers _ h (program-Funded t))
    move-InBudget (kill i) p (sane, total, le, h) =
        (sane, total, le, AllFunded-kill total p.workers i h)
    move-InBudget (proceed i ans) p h = advance-InBudget i ans p (get_elem? p.workers i) refl h

    pub moves-InBudget :
        (ms : List Move) (p : Platform) → InBudget p → InBudget (moves accepts config ms p)
    unfolding moves
    moves-InBudget [] p h = h
    moves-InBudget (m ∷ ms) p h = moves-InBudget ms (move accepts config m p) (move-InBudget m p h)
