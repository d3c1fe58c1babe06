-- ===== src/Guarantees/Sessions/Keeping/Operations.antt =====
-- What the statements of an operation on a connection keep, the operation keeps.
use whatsapp_notification_pl.Prelude.{
  ℕ, ◌≡◌, refl, Bool, true, false, not, Option, none, some, List, [], ◌∷◌, arith, if◌then◌else◌,
  find?, Text,
}
use whatsapp_notification_pl.Database.Records.{
  WhatsAppSession, LastError, forgotten_by_provider, Database,
}
use whatsapp_notification_pl.Database.Listing.{exists_for_session}
use whatsapp_notification_pl.Database.Sessions
use whatsapp_notification_pl.Database.Sessions.{list_for_application}
use whatsapp_notification_pl.Database.Sessions.Lifecycle
use whatsapp_notification_pl.Database.Sessions.Lifecycle.{is_session, without_session}
use whatsapp_notification_pl.Domain.Failure.{ProviderFailure}
use whatsapp_notification_pl.Domain.SessionStatus.{ProviderSessionStatus, stopped}
use whatsapp_notification_pl.Program.{ProviderResult, ProviderSession, succeeded, failed}
use whatsapp_notification_pl.Services.Sessions.Tasks.{
  Task, throw, ◌>>=◌, ◌>>◌, SessionError, whatsapp_provider_unavailable,
}
use whatsapp_notification_pl.Services.Sessions.{
  SessionPorts, or_fail, get_or_fail, record_live, record_and_return, is_not_found,
  recreate_at_provider, start, stop, logout, is_gone, delete,
}
use whatsapp_notification_pl.Guarantees.Sessions.Keeping.{Keeps, same_database}

-- Reading the connection of an application.
module _ (P : Database → Type 0) (application_id session_id : ℕ) where
  found-key :
      (row : WhatsAppSession) (db : Database)
      → Sessions.find_by_id application_id session_id db ≡ some row
      → row.id ≡ session_id
  unfolding Sessions.find_by_id
  found-key row db e = go db.sessions e
    where
      go :
          (rows : List WhatsAppSession)
          → find? (is_session application_id session_id) rows ≡ some row
          → row.id ≡ session_id
      go [] h = cc
      go (r ∷ rows) h = ground (arith, go rows)

  get-or-fail-Keeps :
      {A : Type 0} (f : WhatsAppSession → Task A)
      → ((row : WhatsAppSession) → row.id ≡ session_id → Keeps P (f row))
      → Keeps P (get_or_fail application_id session_id >>= f)
  unfolding get_or_fail ◌>>=◌
  get-or-fail-Keeps f h db p = (
    (λ next e. same_database P db next p e),
    go (Sessions.find_by_id application_id session_id db) (λ row e. h row (found-key row db e)),
  )
    where
      go :
          (o : Option WhatsAppSession)
          → ((row : WhatsAppSession) → o ≡ some row → Keeps P (f row))
          → Keeps P (or_fail o >>= f)
      go none k = tt
      go (some row) k = k row refl

  get_or_fail-Keeps : Keeps P (get_or_fail application_id session_id)
  unfolding get_or_fail ◌>>=◌
  get_or_fail-Keeps db p = (
    (λ next e. same_database P db next p e),
    go (Sessions.find_by_id application_id session_id db),
  )
    where
      go : (o : Option WhatsAppSession) → Keeps P (or_fail o)
      go none = tt
      go (some row) = tt

-- Recording a status keeps the predicate.
abbrev pub KeptByStatus : (Database → Type 0) → (session_id : ℕ) → Type 0
KeptByStatus P session_id =
    (status : ProviderSessionStatus) (phone_number push_name : Option Text)
    (last_error : Option LastError) (now : ℕ) (db : Database)
    → P db
    → P (Sessions.record_status session_id status phone_number push_name last_error now db)

by-answer :
    {A : Type 0} (P : Database → Type 0) (on_failure : ProviderFailure → Task A)
    (on_success : ProviderSession → Task A)
    → ((f : ProviderFailure) → Keeps P (on_failure f))
    → ((live : ProviderSession) → Keeps P (on_success live))
    → (answer : ProviderResult ProviderSession)
    → Keeps P (elim answer as (λ _. Task A) [
      | failed f ↦ on_failure f
      | succeeded live ↦ on_success live
    ])
by-answer P on_failure on_success h k (failed f) = h f
by-answer P on_failure on_success h k (succeeded live) = k live

by-test :
    {A : Type 0} (P : Database → Type 0) (b : Bool) (x y : Task A)
    → Keeps P x
    → Keeps P y
    → Keeps P (if b then x else y)
by-test P true x y h k = h
by-test P false x y h k = k

module _ (P : Database → Type 0) (application_id session_id : ℕ)
    (records : KeptByStatus P session_id) where
  record-live-Keeps :
      (status : ProviderSessionStatus) (phone_number push_name : Option Text)
      (last_error : Option LastError)
      → Keeps P (
          record_live session_id status phone_number push_name last_error
          >> get_or_fail application_id session_id)
  unfolding ◌>>◌ ◌>>=◌
  record-live-Keeps status phone_number push_name last_error now db p = (
    (λ next e.
        same_database P _ next (records status phone_number push_name last_error now db p) e),
    get_or_fail-Keeps P application_id session_id,
  )

  record-and-return-Keeps :
      (status : ProviderSessionStatus)
      → Keeps P (record_and_return application_id session_id status)
  unfolding record_and_return
  record-and-return-Keeps status =
      get-or-fail-Keeps P application_id session_id
        (λ existing.
          record_live session_id status existing.phone_number existing.push_name none
          >> get_or_fail application_id session_id)
        (λ existing e. record-live-Keeps status existing.phone_number existing.push_name none)

  pub stop-Keeps : Keeps P (stop application_id session_id)
  unfolding stop ◌>>=◌
  stop-Keeps = get-or-fail-Keeps P application_id session_id _ (λ row e.
      by-answer P (λ f. throw whatsapp_provider_unavailable)
        (λ live. record_and_return application_id session_id live.status) (λ f. tt)
        (λ live. record-and-return-Keeps live.status))

  pub logout-Keeps : Keeps P (logout application_id session_id)
  unfolding logout ◌>>=◌
  logout-Keeps = get-or-fail-Keeps P application_id session_id _ (λ row e.
      by-answer P _ (λ live. record_and_return application_id session_id live.status)
        (λ f.
          by-test P (is_not_found f) _ (throw whatsapp_provider_unavailable)
            (record-live-Keeps stopped row.phone_number row.push_name (some forgotten_by_provider))
            tt)
        (λ live. record-and-return-Keeps live.status))

recreate-at-provider-Keeps :
    (P : Database → Type 0) (ports : SessionPorts) (row : WhatsAppSession)
    → KeptByStatus P row.id
    → Keeps P (recreate_at_provider ports row)
unfolding recreate_at_provider ◌>>=◌
recreate-at-provider-Keeps P ports row records =
    by-answer P (λ f. throw whatsapp_provider_unavailable) _ (λ f. tt)
      (λ live.
        record-live-Keeps P row.application_id row.id records live.status live.phone_number
          live.push_name none)

pub start-Keeps :
    (P : Database → Type 0) (ports : SessionPorts) (application_id session_id : ℕ)
    → KeptByStatus P session_id
    → Keeps P (start ports application_id session_id)
unfolding start ◌>>=◌
start-Keeps P ports application_id session_id records =
    get-or-fail-Keeps P application_id session_id _ (λ row e.
      by-answer P _ (λ live. record_and_return application_id session_id live.status)
        (λ f.
          by-test P (is_not_found f) (recreate_at_provider ports row)
            (throw whatsapp_provider_unavailable)
            (recreate-at-provider-Keeps P ports row (rw (e) records)) tt)
        (λ live. record-and-return-Keeps P application_id session_id records live.status))

pub delete-Keeps :
    (P : Database → Type 0) (application_id session_id : ℕ)
    → ((db next : Database)
        → P db
        → Lifecycle.delete application_id session_id db ≡ some next
        → P next)
    → Keeps P (delete application_id session_id)
unfolding delete ◌>>=◌
delete-Keeps P application_id session_id removes =
    get-or-fail-Keeps P application_id session_id _ (λ row e db p. (
      (λ next e. same_database P db next p e),
      by-test P (exists_for_session application_id session_id db)
          (throw SessionError.whatsapp_session_in_use) _ tt
          (λ answer.
            by-test P (not (is_gone answer)) (throw whatsapp_provider_unavailable) _ tt
              (λ db p. ((λ next e. removes db next p e), tt))),
    ))
