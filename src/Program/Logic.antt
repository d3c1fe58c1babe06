-- ===== src/Program/Logic.antt =====
-- What holds of a program step by step, whatever runs between its steps: each of its changes of the
-- database is in the relation `Φ`, from any database, and each message that it sends meets `S`.
use whatsapp_notification_pl.Prelude.{
  ℕ, ◌≡◌, refl, ◌⊎◌, inl, inr, Bool, true, false, Option, ◌∷◌, if◌then◌else◌, Text,
}
use whatsapp_notification_pl.Database.Records.{Database}
use whatsapp_notification_pl.Domain.AccountLimits.{AccountLimits}
use whatsapp_notification_pl.Program.{
  Prog, done, read_clock, draw, check_aborted, transact, send, resolve, type_for, get_session,
  fetch_limits, ProviderResult, ProviderSession, ResolvedRecipient, SendTextMessageInput, ◌>>=◌,
  ◌>>◌, now, integer_between, random_port, is_aborted, atomic, write, query, send_text_message,
  resolve_recipient, show_typing, provider_session, fetch_account_limits, Answers, State, step,
}

module _ (Φ : Database → Database → Type 0) (S : SendTextMessageInput → Type 0) where
  abbrev pub Every : {A : Type 0} → Prog A → Type 0
  Every (done a) = Unit
  Every (read_clock k) = (x : ℕ) → Every (k x)
  Every (draw k) = (x : ℕ → ℕ → ℕ) → Every (k x)
  Every (check_aborted k) = (x : Bool) → Every (k x)
  Every (transact f k) = (db : Database) → Φ db (f db) × Every (k db)
  Every (send m k) = S m × ((x : ProviderResult Text) → Every (k x))
  Every (resolve s p k) = (x : ProviderResult ResolvedRecipient) → Every (k x)
  Every (type_for s c n k) = Every k
  Every (get_session s k) = (x : ProviderResult (Option ProviderSession)) → Every (k x)
  Every (fetch_limits s k) = (x : ProviderResult AccountLimits) → Every (k x)

  pub >>=-Every :
      {A B : Type 0} (p : Prog A) (f : A → Prog B)
      → Every p
      → ((a : A) → Every (f a))
      → Every (p >>= f)
  unfolding ◌>>=◌
  >>=-Every (done a) f e h = h a
  >>=-Every (read_clock k) f e h = λ x. >>=-Every (k x) f (e x) h
  >>=-Every (draw k) f e h = λ x. >>=-Every (k x) f (e x) h
  >>=-Every (check_aborted k) f e h = λ x. >>=-Every (k x) f (e x) h
  >>=-Every (transact t k) f e h = λ db. ((e db).0, >>=-Every (k db) f (e db).1 h)
  >>=-Every (send m k) f e h = (e.0, λ x. >>=-Every (k x) f (e.1 x) h)
  >>=-Every (resolve s p k) f e h = λ x. >>=-Every (k x) f (e x) h
  >>=-Every (type_for s c n k) f e h = >>=-Every k f e h
  >>=-Every (get_session s k) f e h = λ x. >>=-Every (k x) f (e x) h
  >>=-Every (fetch_limits s k) f e h = λ x. >>=-Every (k x) f (e x) h

  pub >>-Every : {A B : Type 0} (p : Prog A) (q : Prog B) → Every p → Every q → Every (p >> q)
  unfolding ◌>>◌
  >>-Every p q e h = >>=-Every p (λ _. q) e (λ _. h)

  pub if-Every :
      {A : Type 0} (b : Bool) (p q : Prog A) → Every p → Every q → Every (if b then p else q)
  if-Every true p q e h = e
  if-Every false p q e h = h

  pub now-Every : Every now
  unfolding now
  now-Every x = tt

  pub integer_between-Every : (lo hi : ℕ) → Every (integer_between lo hi)
  unfolding integer_between
  integer_between-Every lo hi x = tt

  pub random_port-Every : Every random_port
  unfolding random_port
  random_port-Every x = tt

  pub is_aborted-Every : Every is_aborted
  unfolding is_aborted
  is_aborted-Every x = tt

  pub atomic-Every :
      {R : Type 0} (op : Database → Database × R)
      → ((db : Database) → Φ db (op db).0)
      → Every (atomic op)
  unfolding atomic
  atomic-Every op h db = (h db, tt)

  pub write-Every : (f : Database → Database) → ((db : Database) → Φ db (f db)) → Every (write f)
  unfolding write
  write-Every f h db = (h db, tt)

  pub query-Every : {R : Type 0} (f : Database → R) → ((db : Database) → Φ db db) → Every (query f)
  unfolding query
  query-Every f h db = (h db, tt)

  pub resolve_recipient-Every : (s p : Text) → Every (resolve_recipient s p)
  unfolding resolve_recipient
  resolve_recipient-Every s p x = tt

  pub show_typing-Every : (s c : Text) (n : ℕ) → Every (show_typing s c n)
  unfolding show_typing
  show_typing-Every s c n = tt

  pub provider_session-Every : (s : Text) → Every (provider_session s)
  unfolding provider_session
  provider_session-Every s x = tt

  pub fetch_account_limits-Every : (s : Text) → Every (fetch_account_limits s)
  unfolding fetch_account_limits
  fetch_account_limits-Every s x = tt

  pub send_text_message-Every : (m : SendTextMessageInput) → S m → Every (send_text_message m)
  unfolding send_text_message
  send_text_message-Every m h = (h, λ x. tt)

  -- One step of a program of which this holds: the database moves by `Φ` or stays, what is left of
  -- the program is again such, and a message that it sends meets `S`.
  pub step-Every :
      {A : Type 0} (ans : Answers) (s : State) (p : Prog A)
      → Every p
      → Every (step ans s p).1
        × (((step ans s p).0.database ≡ s.database) ⊎ Φ s.database (step ans s p).0.database)
        × (((step ans s p).0.sends ≡ s.sends)
            ⊎ ((m : SendTextMessageInput) × S m × ((step ans s p).0.sends ≡ m ∷ s.sends)))
  unfolding step
  step-Every ans s (done a) e = (tt, inl refl, inl refl)
  step-Every ans s (read_clock k) e = (e ans.time, inl refl, inl refl)
  step-Every ans s (draw k) e = (e ans.pick, inl refl, inl refl)
  step-Every ans s (check_aborted k) e = (e ans.aborted, inl refl, inl refl)
  step-Every ans s (transact f k) e = ((e s.database).1, inr (e s.database).0, inl refl)
  step-Every ans s (send m k) e = (e.1 ans.message, inl refl, inr (m, e.0, refl))
  step-Every ans s (resolve n p k) e = (e ans.recipient, inl refl, inl refl)
  step-Every ans s (type_for n c t k) e = (e, inl refl, inl refl)
  step-Every ans s (get_session n k) e = (e ans.session, inl refl, inl refl)
  step-Every ans s (fetch_limits n k) e = (e ans.limits, inl refl, inl refl)

pub ruleset steps = (
  >>=-Every, >>-Every, if-Every, now-Every, integer_between-Every, random_port-Every,
  is_aborted-Every, atomic-Every, write-Every, query-Every, show_typing-Every,
  provider_session-Every, fetch_account_limits-Every, tt,
)
