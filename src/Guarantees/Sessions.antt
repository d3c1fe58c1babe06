-- ===== src/Guarantees/Sessions.antt =====
-- The connections of an application: their creation, their deletion, and whose they are.
pub mod Deletion
pub mod Creation
pub mod Recreation
pub mod Keeping
pub mod Tenants
use whatsapp_notification_pl.Prelude.{ℕ, zero, suc, ◌≡◌, ap, Option, none, some}
use whatsapp_notification_pl.Database.Records.{WhatsAppSession, Database}
use whatsapp_notification_pl.Database.Sessions
use whatsapp_notification_pl.Database.Transaction.{Result, ok, error}
use whatsapp_notification_pl.Services.Sessions.Tasks.{
  SessionError, whatsapp_session_not_found, Task, ◌>>=◌, Moment, Trace, meanwhile, run,
}
use whatsapp_notification_pl.Services.Sessions.{or_fail, get_or_fail}

-- Nobody else writes.
abbrev pub undisturbed : (ℕ → Moment) → ℕ → Moment
undisturbed moments i = record (moments i) { others = λ db. db }

-- The database at an await, if the task itself has written nothing.
abbrev pub seen : (ℕ → Moment) → Database → ℕ → Database
seen moments db zero = (moments 0).others db
seen moments db (suc i) = (moments (suc i)).others (seen moments db i)

module _ {A : Type 0} (moments : ℕ → Moment) (i : ℕ) (trace : Trace) (application_id session_id : ℕ)
    (f : WhatsAppSession → Task A) where
  abbrev after_reading : Option WhatsAppSession → Trace × Result SessionError A
  unfolding ◌>>=◌
  after_reading o = run moments (suc i) (meanwhile (moments i) trace) (or_fail o >>= f)

  pub get-or-fail-found :
      (row : WhatsAppSession)
      → Sessions.find_by_id application_id session_id ((moments i).others trace.database) ≡ some row
      → run moments i trace (get_or_fail application_id session_id >>= f)
        ≡ run moments (suc i) (meanwhile (moments i) trace) (f row)
  unfolding run get_or_fail ◌>>=◌
  get-or-fail-found row e = ap after_reading e

  pub get-or-fail-missing :
      Sessions.find_by_id application_id session_id ((moments i).others trace.database) ≡ none
      → run moments i trace (get_or_fail application_id session_id >>= f)
        ≡ (meanwhile (moments i) trace, error whatsapp_session_not_found)
  unfolding run get_or_fail ◌>>=◌
  get-or-fail-missing e = ap after_reading e

pub get-or-fail-last :
    (moments : ℕ → Moment) (i : ℕ) (trace : Trace) (application_id session_id : ℕ)
    (row : WhatsAppSession)
    → Sessions.find_by_id application_id session_id ((moments i).others trace.database) ≡ some row
    → run moments i trace (get_or_fail application_id session_id)
      ≡ (meanwhile (moments i) trace, ok row)
unfolding run get_or_fail ◌>>=◌
get-or-fail-last moments i trace application_id session_id row e =
    ap (λ o. run moments (suc i) (meanwhile (moments i) trace) (or_fail o)) e
