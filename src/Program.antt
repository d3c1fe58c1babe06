-- ===== src/Program.antt =====
-- Asynchronous code as a tree of steps. Between two `await`s nothing else runs; at every `await` any
-- number of other workers may run, so a service is the tree of what it awaits: the clock, a random
-- draw, the abort signal, a statement or transaction on the database, a call of the provider. The
-- answers come from outside: `run` takes a program through by itself, `step` by one step, for an
-- interleaving with others (Workers).
pub mod Logic
use whatsapp_notification_pl.Prelude.{ℕ, suc, Bool, Option, List, ◌∷◌, Text}
use whatsapp_notification_pl.Database.Records.{Database}
use whatsapp_notification_pl.Domain.Failure.{ProviderFailure}
use whatsapp_notification_pl.Domain.AccountLimits.{AccountLimits}
use whatsapp_notification_pl.Domain.SessionStatus.{ProviderSessionStatus}

-- `ProviderResult` of packages/domain/src/provider/whatsapp-provider.port.ts
pub data ProviderResult (A : Type 0) : Type 0 where
  succeeded : A → ProviderResult A
  failed : ProviderFailure → ProviderResult A

pub record ProviderSession : Type 0 where
  pub status : ProviderSessionStatus
  pub phone_number : Option Text
  pub push_name : Option Text
  pub account_limits : Option AccountLimits

pub record ResolvedRecipient : Type 0 where
  pub is_registered : Bool
  pub chat_identifier : Option Text

-- The provider is told the first three; the notification is noted for the theorems.
pub record SendTextMessageInput : Type 0 where
  pub session_name : Text
  pub chat_identifier : Text
  pub text : Text
  pub notification_id : ℕ

pub data Prog (A : Type 0) : Type 0 where
  done : A → Prog A
  read_clock : (ℕ → Prog A) → Prog A
  draw : ((ℕ → ℕ → ℕ) → Prog A) → Prog A
  check_aborted : (Bool → Prog A) → Prog A
  transact : (Database → Database) → (Database → Prog A) → Prog A
  send : SendTextMessageInput → (ProviderResult Text → Prog A) → Prog A
  resolve :
      (session_name phone_number : Text) → (ProviderResult ResolvedRecipient → Prog A) → Prog A
  type_for : (session_name chat_identifier : Text) → (milliseconds : ℕ) → Prog A → Prog A
  get_session : Text → (ProviderResult (Option ProviderSession) → Prog A) → Prog A
  fetch_limits : Text → (ProviderResult AccountLimits → Prog A) → Prog A

infixl 5 ◌>>=◌ ◌>>◌
unfoldable pub ◌>>=◌ : {A B : Type 0} → Prog A → (A → Prog B) → Prog B
done a >>= f = f a
read_clock k >>= f = read_clock (λ x. k x >>= f)
draw k >>= f = draw (λ x. k x >>= f)
check_aborted k >>= f = check_aborted (λ x. k x >>= f)
transact t k >>= f = transact t (λ x. k x >>= f)
send m k >>= f = send m (λ x. k x >>= f)
resolve s p k >>= f = resolve s p (λ x. k x >>= f)
type_for s c n k >>= f = type_for s c n (k >>= f)
get_session s k >>= f = get_session s (λ x. k x >>= f)
fetch_limits s k >>= f = fetch_limits s (λ x. k x >>= f)

unfoldable pub ◌>>◌ : {A B : Type 0} → Prog A → Prog B → Prog B
unfolding ◌>>=◌
p >> q = p >>= λ _. q

unfoldable pub now : Prog ℕ
now = read_clock done

unfoldable pub integer_between : ℕ → ℕ → Prog ℕ
integer_between lo hi = draw (λ pick. done (pick lo hi))

unfoldable pub random_port : Prog (ℕ → ℕ → ℕ)
random_port = draw done

unfoldable pub is_aborted : Prog Bool
is_aborted = check_aborted done

-- One statement, or one transaction, with its result.
unfoldable pub atomic : {R : Type 0} → (Database → Database × R) → Prog R
atomic op = transact (λ db. (op db).0) (λ db. done (op db).1)

unfoldable pub write : (Database → Database) → Prog (Unit {0})
write f = transact f (λ db. done tt)

unfoldable pub query : {R : Type 0} → (Database → R) → Prog R
query f = transact (λ db. db) (λ db. done (f db))

unfoldable pub send_text_message : SendTextMessageInput → Prog (ProviderResult Text)
send_text_message m = send m done

unfoldable pub resolve_recipient :
    (session_name phone_number : Text) → Prog (ProviderResult ResolvedRecipient)
resolve_recipient s p = resolve s p done

unfoldable pub show_typing : (session_name chat_identifier : Text) → ℕ → Prog (Unit {0})
show_typing s c n = type_for s c n (done tt)

unfoldable pub provider_session : Text → Prog (ProviderResult (Option ProviderSession))
provider_session s = get_session s done

unfoldable pub fetch_account_limits : Text → Prog (ProviderResult AccountLimits)
fetch_account_limits s = fetch_limits s done

-- What the world outside answers at one moment.
pub record Answers : Type 0 where
  pub time : ℕ
  pub pick : ℕ → ℕ → ℕ
  pub aborted : Bool
  pub message : ProviderResult Text
  pub recipient : ProviderResult ResolvedRecipient
  pub session : ProviderResult (Option ProviderSession)
  pub limits : ProviderResult AccountLimits

-- The database, the messages that the provider was told to send, the latest first.
pub record State : Type 0 where
  pub database : Database
  pub sends : List SendTextMessageInput

unfoldable pub step : {A : Type 0} → Answers → State → Prog A → State × Prog A
step ans s (done a) = (s, done a)
step ans s (read_clock k) = (s, k ans.time)
step ans s (draw k) = (s, k ans.pick)
step ans s (check_aborted k) = (s, k ans.aborted)
step ans s (transact f k) = (record s { database = f s.database }, k s.database)
step ans s (send m k) = (record s { sends = m ∷ s.sends }, k ans.message)
step ans s (resolve n p k) = (s, k ans.recipient)
step ans s (type_for n c t k) = (s, k)
step ans s (get_session n k) = (s, k ans.session)
step ans s (fetch_limits n k) = (s, k ans.limits)

-- The program by itself, from the await number `i` on, each answered by the next of `answers`; with
-- the number of the next await.
unfoldable pub run : {A : Type 0} → (ℕ → Answers) → ℕ → State → Prog A → ℕ × State × A
run answers i s (done a) = (i, s, a)
run answers i s (read_clock k) = run answers (suc i) s (k (answers i).time)
run answers i s (draw k) = run answers (suc i) s (k (answers i).pick)
run answers i s (check_aborted k) = run answers (suc i) s (k (answers i).aborted)
run answers i s (transact f k) =
    run answers (suc i) (record s { database = f s.database }) (k s.database)
run answers i s (send m k) =
    run answers (suc i) (record s { sends = m ∷ s.sends }) (k (answers i).message)
run answers i s (resolve n p k) = run answers (suc i) s (k (answers i).recipient)
run answers i s (type_for n c t k) = run answers (suc i) s k
run answers i s (get_session n k) = run answers (suc i) s (k (answers i).session)
run answers i s (fetch_limits n k) = run answers (suc i) s (k (answers i).limits)
