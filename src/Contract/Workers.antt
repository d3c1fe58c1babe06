-- ===== src/Contract/Workers.antt =====
-- What holds of each transaction holds of the platform at work, whatever its workers do in whatever
-- order.
use whatsapp_notification_pl.Prelude.{
  ℕ, zero, suc, ◌≡◌, refl, sym, ap, inl, inr, Bool, Option, none, some, List, [], ◌∷◌, ◌++◌, get_or,
  get_elem?, set, All,
}
use mathlib.Core.Path.{subst}
use whatsapp_notification_pl.Database.Records.{Job, Database}
use whatsapp_notification_pl.Configuration.{Configuration}
use whatsapp_notification_pl.Program.{Prog, Answers}
use whatsapp_notification_pl.Program.Logic.{Every, >>=-Every, step-Every}
use whatsapp_notification_pl.Workers.{
  Task, dispatch_task, maintenance_task, webhook_task, cancel_task, cancel_waiting_task, Move,
  start, proceed, kill, Platform, ignoring, program, advance_worker, move, moves,
}
use whatsapp_notification_pl.Contract.{Admits}
use whatsapp_notification_pl.Contract.Dispatch.{dispatch-Every}
use whatsapp_notification_pl.Contract.Others.{
  run_once-Every, process-Every, cancel-Every, cancel_waiting-Every,
}

pub All-append :
    {A : Type 0} (P : A → Type 0) (xs ys : List A) → All P xs → All P ys → All P (xs ++ ys)
All-append P [] ys p q = q
All-append P (x ∷ xs) ys (h, p) q = (h, All-append P xs ys p q)

pub All-set :
    {A : Type 0} (P : A → Type 0) (xs : List A) (i : ℕ) (x : A)
    → All P xs
    → P x
    → All P (set xs i x)
All-set P [] i x p q = tt
All-set P (y ∷ xs) zero x (h, p) q = (q, p)
All-set P (y ∷ xs) (suc i) x (h, p) q = (h, All-set P xs i x p q)

pub All-get :
    {A : Type 0} (P : A → Type 0) (xs : List A) (i : ℕ)
    → All P xs
    → (x : A) → get_elem? xs i ≡ some x
    → P x
All-get P [] i p x e = cc
All-get P (y ∷ xs) zero (h, p) x e = subst P (ap (λ o. get_or o y) e) h
All-get P (y ∷ xs) (suc i) (h, p) x e = All-get P xs i p x e

module _ (accepts : List Job → Job → Bool) (config : Configuration)
    {Φ : Database → Database → Type 0} (C : Admits Φ) where
  abbrev pub Legal : Prog (Unit {0}) → Type 0
  Legal p = Every Φ (λ _. Unit) p

  ignoring-Legal : {A : Type 0} (p : Prog A) → Every Φ (λ _. Unit) p → Legal (ignoring p)
  unfolding ignoring
  ignoring-Legal p e = >>=-Every Φ (λ _. Unit) p _ e (λ _. tt)

  pub program-Legal : (t : Task) → Legal (program accepts config t)
  unfolding program
  program-Legal (dispatch_task token input) =
      ignoring-Legal _ (dispatch-Every (λ _. Unit) C (λ _. tt) config token input)
  program-Legal maintenance_task = ignoring-Legal _ (run_once-Every (λ _. Unit) C accepts config)
  program-Legal (webhook_task d) = ignoring-Legal _ (process-Every (λ _. Unit) C config d)
  program-Legal (cancel_task a n c) = ignoring-Legal _ (cancel-Every (λ _. Unit) C a n c)
  program-Legal (cancel_waiting_task a s c) =
      ignoring-Legal _ (cancel_waiting-Every (λ _. Unit) C a s c)

  advance-Legal :
      (i : ℕ) (ans : Answers) (p : Platform)
      → All Legal p.workers
      → (o : Option (Prog (Unit {0}))) → get_elem? p.workers i ≡ o
      → All Legal (advance_worker i ans p o).workers
        × Φ p.state.database (advance_worker i ans p o).state.database
  unfolding advance_worker
  advance-Legal i ans p h none e = (h, C.stays _)
  advance-Legal i ans p h (some w) e =
      let (legal, moved, sent) =
        step-Every Φ (λ _. Unit) ans p.state w (All-get Legal p.workers i h w e) in
      (
        All-set Legal _ i _ h legal,
        elim moved [ inl same ↦ subst (Φ p.state.database) (sym same) (C.stays _) | inr f ↦ f ],
      )

  move-Legal :
      (m : Move) (p : Platform)
      → All Legal p.workers
      → All Legal (move accepts config m p).workers
        × Φ p.state.database (move accepts config m p).state.database
  unfolding move
  move-Legal (start t) p h = (All-append Legal _ _ h (program-Legal t, tt), C.stays _)
  move-Legal (kill i) p h = (All-set Legal _ i _ h tt, C.stays _)
  move-Legal (proceed i ans) p h = advance-Legal i ans p h (get_elem? p.workers i) refl

  pub moves-workers :
      (ms : List Move) (p : Platform)
      → All Legal p.workers
      → All Legal (moves accepts config ms p).workers
  unfolding moves
  moves-workers [] p h = h
  moves-workers (m ∷ ms) p h =
      let (legal, moved) = move-Legal m p h in moves-workers ms (move accepts config m p) legal

  -- The relation that each transaction keeps, if it is transitive, relates the database before any
  -- sequence of moves to the database after it.
  pub moves-Legal :
      ((a b c : Database) → Φ a b → Φ b c → Φ a c)
      → (ms : List Move) (p : Platform) → All Legal p.workers
      → Φ p.state.database (moves accepts config ms p).state.database
  unfolding moves
  moves-Legal trans [] p h = C.stays _
  moves-Legal trans (m ∷ ms) p h =
      let (legal, moved) = move-Legal m p h in
      trans _ _ _ moved (moves-Legal trans ms (move accepts config m p) legal)
