-- ===== src/Database/Sessions/Lifecycle.antt =====
-- packages/database/src/repositories/whatsapp-session.repository.ts: a connection comes and goes.
-- The constraints of packages/database/src/schema are checked here: a row that breaks one, or a
-- deletion that does, is refused (`none`).
use whatsapp_notification_pl.Prelude.{
  ℕ, Bool, not, ◌&&◌, ◌||◌, Option, none, some, [], ◌∷◌, ◌++◌, ◌==◌, if◌then◌else◌, find?, filter,
  any, Text, text_eq,
}
use whatsapp_notification_pl.Database.Records.{WhatsAppSession, WebhookDelivery, Database}
use whatsapp_notification_pl.Database.Listing.{exists_for_session}

-- The primary key.
abbrev pub has_same_id : (new row : WhatsAppSession) → Bool
has_same_id new row = row.id == new.id

-- `whatsapp_sessions_provider_name_unique`: the name at the provider is unique over all tenants.
abbrev pub has_same_provider_name : (new row : WhatsAppSession) → Bool
has_same_provider_name new row =
    text_eq row.provider new.provider && text_eq row.provider_session_name new.provider_session_name

abbrev pub conflicts : (new row : WhatsAppSession) → Bool
conflicts new row = has_same_id new row || has_same_provider_name new row

unfoldable pub insert : WhatsAppSession → Database → Option Database
insert new db =
    if any (conflicts new) db.sessions
    then none
    else some (record db { sessions = db.sessions ++ (new ∷ []) })

unfoldable pub find_by_provider_name :
    (provider_session_name : Text) → Database → Option WhatsAppSession
find_by_provider_name provider_session_name db =
    find? (λ row. text_eq row.provider_session_name provider_session_name) db.sessions

abbrev pub is_session : (application_id session_id : ℕ) → WhatsAppSession → Bool
is_session application_id session_id row =
    row.id == session_id && row.application_id == application_id

abbrev pub is_delivered_to : (application_id session_id : ℕ) → WebhookDelivery → Bool
is_delivered_to application_id session_id row =
    row.whatsapp_session_id == session_id && row.application_id == application_id

abbrev pub without_session : (application_id session_id : ℕ) → Database → Database
without_session application_id session_id db = record db {
  sessions = filter (λ row. not (is_session application_id session_id row)) db.sessions;
  deliveries = filter (λ row. not (is_delivered_to application_id session_id row)) db.deliveries;
}

-- Notifications restrict the deletion of the connection they refer to; its callbacks go with it.
unfoldable pub delete : (application_id session_id : ℕ) → Database → Option Database
delete application_id session_id db =
    if not (any (is_session application_id session_id) db.sessions)
    then some db
    else if exists_for_session application_id session_id db
    then none
    else some (without_session application_id session_id db)
