-- ===== src/Services/Sessions.antt =====
-- packages/composition/src/whatsapp/whatsapp-session.service.ts: the connections of an
-- application, here and at the provider. Encryption and the text of an identifier are arguments;
-- logging is left out.
pub mod Tasks
use whatsapp_notification_pl.Prelude.{
  ℕ, ◌==◌, Bool, true, Option, none, some, [], ◌∷◌, ◌++◌, is_just, not, if◌then◌else◌, Text, codes,
}
use whatsapp_notification_pl.Configuration.{Configuration}
use whatsapp_notification_pl.Database.Records.{
  WhatsAppSession, forgotten_by_provider, LastError, Database,
}
use whatsapp_notification_pl.Database.Sessions
use whatsapp_notification_pl.Database.Sessions.Lifecycle
use whatsapp_notification_pl.Database.Listing.{exists_for_session}
use whatsapp_notification_pl.Domain.Failure.{ProviderFailure}
use whatsapp_notification_pl.Domain.SessionStatus.{
  ◌is◌, ProviderSessionStatus, stopped, scan_qr_code,
}
use whatsapp_notification_pl.Program
use whatsapp_notification_pl.Program.{ProviderResult, succeeded, failed}
use whatsapp_notification_pl.Services.Connections.{refresh_status}
use whatsapp_notification_pl.Services.Sessions.Tasks.{
  whatsapp_session_not_found, whatsapp_session_not_scannable, whatsapp_session_in_use,
  whatsapp_provider_unavailable, create_session, start_session, stop_session, logout_session, Task,
  done, throw, read_clock, ask, ask_deletion, ask_qr_code, await, ◌>>=◌, ◌>>◌, query, change,
}

pub record SessionPorts : Type 0 where
  pub show_identifier : ℕ → Text
  -- with the key of the platform
  pub encrypt_secret : Text → Text
  pub decrypt_secret : Text → Text
  pub webhook_public_url : Text
  pub configuration : Configuration

-- What a creation generates, and the clock of the database, which fills the columns left out.
pub record Generated : Type 0 where
  pub session_id : ℕ
  pub signing_key : Text
  pub database_now : ℕ

abbrev pub slash : ℕ
slash = b'/'

-- `replace(/\/+$/, '')`
abbrev pub strip_slashes : Text → Text
strip_slashes [] = []
strip_slashes (c ∷ text) = elim (strip_slashes text) [
  | [] ↦ if c == slash then [] else c ∷ []
  | d ∷ rest ↦ c ∷ d ∷ rest
]

unfoldable pub to_provider_session_name : SessionPorts → (session_id : ℕ) → Text
to_provider_session_name ports session_id = codes "wnp-" ++ ports.show_identifier session_id

unfoldable pub to_webhook_url : SessionPorts → (session_id : ℕ) → Text
to_webhook_url ports session_id =
    strip_slashes ports.webhook_public_url
    ++ (codes "/webhooks/whatsapp/" ++ ports.show_identifier session_id)

abbrev pub or_fail : Option WhatsAppSession → Task WhatsAppSession
or_fail (some found) = done found
or_fail none = throw whatsapp_session_not_found

unfoldable pub get_or_fail : (application_id session_id : ℕ) → Task WhatsAppSession
get_or_fail application_id session_id = do
  found ← query (Sessions.find_by_id application_id session_id)
  or_fail found

-- `recordStatus` with the status that the caller names.
abbrev pub record_live :
    (session_id : ℕ)
    → ProviderSessionStatus
    → (phone_number push_name : Option Text) → Option LastError
    → Task (Unit {0})
record_live session_id status phone_number push_name last_error = read_clock (λ now. change (λ db.
    some (Sessions.record_status session_id status phone_number push_name last_error now db)))

unfoldable pub record_and_return :
    (application_id session_id : ℕ) → ProviderSessionStatus → Task WhatsAppSession
record_and_return application_id session_id status = do
  existing ← get_or_fail application_id session_id
  record_live session_id status existing.phone_number existing.push_name none
  get_or_fail application_id session_id

abbrev pub is_not_found : ProviderFailure → Bool
is_not_found failure = is_just failure.provider_status_code 404

unfoldable pub recreate_at_provider : SessionPorts → WhatsAppSession → Task WhatsAppSession
recreate_at_provider ports row = do
  created ←
      ask
        (create_session (record {
          session_name = row.provider_session_name;
          webhook_url = to_webhook_url ports row.id;
          webhook_signing_key = ports.decrypt_secret row.webhook_signing_key_ciphertext;
        }))
        done
  elim created [
    | failed f ↦ throw whatsapp_provider_unavailable
    | succeeded live ↦ do
      record_live row.id live.status live.phone_number live.push_name none
      get_or_fail row.application_id row.id
  ]

abbrev pub created_row :
    SessionPorts → Generated → (application_id : ℕ) → (display_name : Text) → WhatsAppSession
created_row ports generated application_id display_name = record {
  id = generated.session_id;
  application_id = application_id;
  provider = codes "WAHA";  -- the default of the column
  provider_session_name = to_provider_session_name ports generated.session_id;
  display_name = display_name;
  webhook_signing_key_ciphertext = ports.encrypt_secret generated.signing_key;
  status = stopped;
  phone_number = none;
  push_name = none;
  send_pacing_minimum_seconds = 30;
  send_pacing_maximum_seconds = 60;
  next_send_allowed_at = generated.database_now;
  sending_paused_until = none;
  sending_paused_reason = none;
  account_limits = none;
  account_limits_checked_at = none;
  last_status_at = generated.database_now;
  last_error = none;
  updated_at = generated.database_now;
}

unfoldable pub create :
    SessionPorts → Generated → (application_id : ℕ) → (display_name : Text) → Task WhatsAppSession
create ports generated application_id display_name = do
  let row = created_row ports generated application_id display_name
  change (Lifecycle.insert row)
  created ←
      ask
        (create_session (record {
          session_name = row.provider_session_name;
          webhook_url = to_webhook_url ports row.id;
          webhook_signing_key = generated.signing_key;
        }))
        done
  elim created [
    | failed f ↦ do
      change (Lifecycle.delete application_id row.id)
      throw whatsapp_provider_unavailable
    | succeeded live ↦ do
      record_live row.id live.status live.phone_number live.push_name none
      get_or_fail application_id row.id
  ]

unfoldable pub get : SessionPorts → (application_id session_id : ℕ) → Task WhatsAppSession
get ports application_id session_id = do
  row ← get_or_fail application_id session_id
  await (refresh_status ports.configuration row) done

abbrev pub value_or_unavailable : {A : Type 0} → ProviderResult A → Task A
value_or_unavailable (succeeded a) = done a
value_or_unavailable (failed f) = throw whatsapp_provider_unavailable

unfoldable pub get_qr_code : SessionPorts → (application_id session_id : ℕ) → Task Text
get_qr_code ports application_id session_id = do
  row ← get ports application_id session_id
  if not (row.status is scan_qr_code)
      then throw whatsapp_session_not_scannable
      else ask_qr_code row.provider_session_name value_or_unavailable

unfoldable pub start : SessionPorts → (application_id session_id : ℕ) → Task WhatsAppSession
start ports application_id session_id = do
  row ← get_or_fail application_id session_id
  started ← ask (start_session row.provider_session_name) done
  elim started [
    | failed f ↦
        if is_not_found f
        then recreate_at_provider ports row
        else throw whatsapp_provider_unavailable
    | succeeded live ↦ record_and_return application_id session_id live.status
  ]

unfoldable pub stop : (application_id session_id : ℕ) → Task WhatsAppSession
stop application_id session_id = do
  row ← get_or_fail application_id session_id
  stopped_there ← ask (stop_session row.provider_session_name) done
  elim stopped_there [
    | failed f ↦ throw whatsapp_provider_unavailable
    | succeeded live ↦ record_and_return application_id session_id live.status
  ]

unfoldable pub logout : (application_id session_id : ℕ) → Task WhatsAppSession
logout application_id session_id = do
  row ← get_or_fail application_id session_id
  logged_out ← ask (logout_session row.provider_session_name) done
  elim logged_out [
    | failed f ↦
        if is_not_found f
        then (do
          record_live session_id stopped row.phone_number row.push_name (some forgotten_by_provider)
          get_or_fail application_id session_id)
        else throw whatsapp_provider_unavailable
    | succeeded live ↦ record_and_return application_id session_id live.status
  ]

-- The deletion at the provider is done, or there was nothing to delete.
abbrev pub is_gone : ProviderResult (Unit {0}) → Bool
is_gone (succeeded a) = true
is_gone (failed f) = is_not_found f

abbrev pub remove_gone :
    (application_id session_id : ℕ) → ProviderResult (Unit {0}) → Task (Unit {0})
remove_gone application_id session_id deleted =
    if not (is_gone deleted)
    then throw whatsapp_provider_unavailable
    else change (Lifecycle.delete application_id session_id)

unfoldable pub delete : (application_id session_id : ℕ) → Task (Unit {0})
delete application_id session_id = do
  row ← get_or_fail application_id session_id
  in_use ← query (exists_for_session application_id session_id)
  if in_use
      then throw whatsapp_session_in_use
      else ask_deletion row.provider_session_name (remove_gone application_id session_id)
