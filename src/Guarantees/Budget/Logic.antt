-- ===== src/Guarantees/Budget/Logic.antt =====
-- Programs that pay for the messages they send: each message of one notification costs one unit,
-- which the program must have taken when the attempts that are counted grew by one.
use whatsapp_notification_pl.Prelude.{ℕ, ◌+◌, ◌≤◌, Bool, Option, List, [], ◌∷◌, arith, ◌==◌, Text}
use whatsapp_notification_pl.Database.Records.{Database}
use whatsapp_notification_pl.Program.{
  Prog, done, read_clock, draw, check_aborted, transact, send, resolve, type_for, get_session,
  fetch_limits, ProviderResult, ProviderSession, ResolvedRecipient, SendTextMessageInput, ◌>>=◌,
  Answers, State, step,
}
use whatsapp_notification_pl.Domain.AccountLimits.{AccountLimits}
use whatsapp_notification_pl.Program.Logic.{Every}
use whatsapp_notification_pl.Guarantees.Rows.{Advances}
use whatsapp_notification_pl.Guarantees.Budget.Attempts.{
  one_if, cap, SameMaximum, Moves-cap, Moves-SameMaximum,
}

module _ (id : ℕ) where
  abbrev pub cost : SendTextMessageInput → ℕ
  cost m = one_if (m.notification_id == id)

  -- The messages of the notification among those that were sent.
  abbrev pub sent_messages : List SendTextMessageInput → ℕ
  sent_messages [] = 0
  sent_messages (m ∷ ms) = cost m + sent_messages ms

module _ (id maximum : ℕ) where
  abbrev pub counted : Database → ℕ
  counted db = cap id maximum db.notifications

  abbrev pub Sane : Database → Type 0
  Sane db = SameMaximum id maximum db.notifications

  abbrev pub Funded : {A : Type 0} → (Q : ℕ → A → Type 0) → ℕ → Prog A → Type 0
  Funded Q t (done a) = Q t a
  Funded Q t (read_clock k) = (x : ℕ) → Funded Q t (k x)
  Funded Q t (draw k) = (x : ℕ → ℕ → ℕ) → Funded Q t (k x)
  Funded Q t (check_aborted k) = (x : Bool) → Funded Q t (k x)
  Funded Q t (transact f k) =
      (db : Database)
      → Sane db
      → Sane (f db) × (u : ℕ) × (u + counted db ≤ t + counted (f db)) × Funded Q u (k db)
  Funded Q t (send m k) =
      (u : ℕ) × (u + cost id m ≤ t) × ((x : ProviderResult Text) → Funded Q u (k x))
  Funded Q t (resolve s p k) = (x : ProviderResult ResolvedRecipient) → Funded Q t (k x)
  Funded Q t (type_for s c n k) = Funded Q t k
  Funded Q t (get_session s k) = (x : ProviderResult (Option ProviderSession)) → Funded Q t (k x)
  Funded Q t (fetch_limits s k) = (x : ProviderResult AccountLimits) → Funded Q t (k x)

  abbrev pub Paid : {A : Type 0} → ℕ → A → Type 0
  Paid t a = Unit

  pub >>=-Funded :
      {A B : Type 0} (Q : ℕ → A → Type 0) (R : ℕ → B → Type 0) (t : ℕ) (p : Prog A) (f : A → Prog B)
      → Funded Q t p
      → ((u : ℕ) (a : A) → Q u a → Funded R u (f a))
      → Funded R t (p >>= f)
  unfolding ◌>>=◌
  >>=-Funded Q R t (done a) f e h = h t a e
  >>=-Funded Q R t (read_clock k) f e h = λ x. >>=-Funded Q R t (k x) f (e x) h
  >>=-Funded Q R t (draw k) f e h = λ x. >>=-Funded Q R t (k x) f (e x) h
  >>=-Funded Q R t (check_aborted k) f e h = λ x. >>=-Funded Q R t (k x) f (e x) h
  >>=-Funded Q R t (transact g k) f e h = λ db sane.
      let (sane', u, le, rest) = e db sane in (sane', u, le, >>=-Funded Q R u (k db) f rest h)
  >>=-Funded Q R t (send m k) f (u, le, e) h = (u, le, λ x. >>=-Funded Q R u (k x) f (e x) h)
  >>=-Funded Q R t (resolve s p k) f e h = λ x. >>=-Funded Q R t (k x) f (e x) h
  >>=-Funded Q R t (type_for s c n k) f e h = >>=-Funded Q R t k f e h
  >>=-Funded Q R t (get_session s k) f e h = λ x. >>=-Funded Q R t (k x) f (e x) h
  >>=-Funded Q R t (fetch_limits s k) f e h = λ x. >>=-Funded Q R t (k x) f (e x) h

  -- A program that sends nothing pays nothing.
  pub quiet-Funded : {A : Type 0} (t : ℕ) (p : Prog A) → Every Advances (λ _. ⊥) p → Funded Paid t p
  quiet-Funded t (done a) e = tt
  quiet-Funded t (read_clock k) e = λ x. quiet-Funded t (k x) (e x)
  quiet-Funded t (draw k) e = λ x. quiet-Funded t (k x) (e x)
  quiet-Funded t (check_aborted k) e = λ x. quiet-Funded t (k x) (e x)
  quiet-Funded t (transact f k) e = λ db sane. (
    Moves-SameMaximum id maximum db.notifications (f db).notifications (e db).0 sane,
    t,
    omega (arith, Moves-cap id maximum db.notifications (f db).notifications (e db).0),
    quiet-Funded t (k db) (e db).1,
  )
  quiet-Funded t (send m k) e = absurd e.0
  quiet-Funded t (resolve s p k) e = λ x. quiet-Funded t (k x) (e x)
  quiet-Funded t (type_for s c n k) e = quiet-Funded t k e
  quiet-Funded t (get_session s k) e = λ x. quiet-Funded t (k x) (e x)
  quiet-Funded t (fetch_limits s k) e = λ x. quiet-Funded t (k x) (e x)

  -- One step pays for what it sends.
  pub step-Funded :
      {A : Type 0} (Q : ℕ → A → Type 0) (t : ℕ) (ans : Answers) (s : State) (p : Prog A)
      → Funded Q t p
      → Sane s.database
      → Sane (step ans s p).0.database
        × (u : ℕ) × (sent_messages id (step ans s p).0.sends + u + counted s.database
            ≤ sent_messages id s.sends + t + counted (step ans s p).0.database)
        × Funded Q u (step ans s p).1
  unfolding step
  step-Funded Q t ans s (done a) e sane = (sane, t, omega arith, e)
  step-Funded Q t ans s (read_clock k) e sane = (sane, t, omega arith, e ans.time)
  step-Funded Q t ans s (draw k) e sane = (sane, t, omega arith, e ans.pick)
  step-Funded Q t ans s (check_aborted k) e sane = (sane, t, omega arith, e ans.aborted)
  step-Funded Q t ans s (transact f k) e sane =
      let (sane', u, le, rest) = e s.database sane in (sane', u, omega (arith, le), rest)
  step-Funded Q t ans s (send m k) (u, le, e) sane = (sane, u, omega (arith, le), e ans.message)
  step-Funded Q t ans s (resolve n p k) e sane = (sane, t, omega arith, e ans.recipient)
  step-Funded Q t ans s (type_for n c m k) e sane = (sane, t, omega arith, e)
  step-Funded Q t ans s (get_session n k) e sane = (sane, t, omega arith, e ans.session)
  step-Funded Q t ans s (fetch_limits n k) e sane = (sane, t, omega arith, e ans.limits)
