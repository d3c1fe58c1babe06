-- ===== src/Database/Sessions.antt =====
-- packages/database/src/repositories/whatsapp-session.repository.ts: the statements on sessions.
pub mod Laws
pub mod Pacing
pub mod Lifecycle
use whatsapp_notification_pl.Prelude.{
  ℕ, ◌+◌, ◌-◌, ◌*◌, max, Bool, true, false, not, ◌&&◌, ◌||◌, Option, none, some, List, leb, ◌==◌,
  get_or, is_some, is_just, is_before, map_option, find?, filter, any, update_where, Text,
}
use whatsapp_notification_pl.Database.Records.{LastError, WhatsAppSession, Database}
use whatsapp_notification_pl.Domain.AccountLimits.{AccountLimits, SendingPause}
use whatsapp_notification_pl.Domain.SessionStatus.{ProviderSessionStatus}

module _ (session_id : ℕ) where
  abbrev pub update_session : (WhatsAppSession → WhatsAppSession) → Database → Database
  update_session change db = record db {
    sessions = update_where (λ row. row.id == session_id) change db.sessions;
  }

  unfoldable pub find_by_id_without_tenant_scope : Database → Option WhatsAppSession
  find_by_id_without_tenant_scope db = find? (λ row. row.id == session_id) db.sessions

unfoldable pub find_by_id : (application_id session_id : ℕ) → Database → Option WhatsAppSession
find_by_id application_id session_id db =
    find? (λ row. row.id == session_id && row.application_id == application_id) db.sessions

-- The table is kept in the order of creation.
unfoldable pub list_for_application : (application_id : ℕ) → Database → List WhatsAppSession
list_for_application application_id db =
    filter (λ row. row.application_id == application_id) db.sessions

unfoldable pub record_status :
    (session_id : ℕ)
    → ProviderSessionStatus
    → (phone_number push_name : Option Text) → Option LastError
    → (now : ℕ) → Database
    → Database
record_status session_id status phone_number push_name last_error now =
    update_session session_id (λ row. record row {
      status = status;
      phone_number = phone_number;
      push_name = push_name;
      last_error = last_error;
      last_status_at = now;
      updated_at = now;
    })

-- The result tells whether the refresh is this caller's.
unfoldable pub claim_account_limits_refresh :
    (session_id now stale_before : ℕ) → Database → Database × Bool
claim_account_limits_refresh session_id now stale_before db =
    let is_stale : WhatsAppSession → Bool = λ row.
      row.id == session_id
      && (not (is_some row.account_limits_checked_at)
          || is_before row.account_limits_checked_at stale_before) in
    (
      record db {
        sessions =
            update_where is_stale (λ row. record row { account_limits_checked_at = some now })
              db.sessions;
      },
      any is_stale db.sessions,
    )

unfoldable pub invalidate_account_limits : (session_id : ℕ) → Database → Database
invalidate_account_limits session_id =
    update_session session_id (λ row. record row { account_limits_checked_at = none })

-- `greatest(coalesce(current, new), new)`
abbrev pub greatest : Option ℕ → ℕ → ℕ
greatest current new = max (get_or current new) new

abbrev pub store_limits : Option AccountLimits → ℕ → WhatsAppSession → WhatsAppSession
store_limits none now row = row
store_limits (some limits) now row = record row {
  account_limits = some limits;
  account_limits_checked_at = some now;
}

abbrev pub store_pause : Option SendingPause → WhatsAppSession → WhatsAppSession
store_pause none row = row
store_pause (some pause) row = record row {
  sending_paused_until = some (greatest row.sending_paused_until pause.paused_until);
  sending_paused_reason = some pause.reason;
}

unfoldable pub record_account_limits :
    (session_id : ℕ) → Option AccountLimits → Option SendingPause → (now : ℕ) → Database → Database
record_account_limits session_id limits pause now =
    update_session session_id
      (λ row. record (store_pause pause (store_limits limits now row)) { updated_at = now })

unfoldable pub end_sending_pause : (session_id observed_paused_until : ℕ) → Database → Database
end_sending_pause session_id observed_paused_until db = record db {
  sessions =
      update_where
        (λ row. row.id == session_id && is_just row.sending_paused_until observed_paused_until)
        (λ row. record row { sending_paused_until = none; sending_paused_reason = none })
        db.sessions;
}

-- `min + floor(random() * (max - min + 1))` seconds: a draw between the two bounds.
abbrev pub pacing_interval : (ℕ → ℕ → ℕ) → WhatsAppSession → ℕ
pacing_interval draw row =
    (row.send_pacing_minimum_seconds
      + draw 0 (row.send_pacing_maximum_seconds - row.send_pacing_minimum_seconds))
    * 1000

abbrev pub next_send_of : WhatsAppSession → ℕ
next_send_of row = row.next_send_allowed_at

-- `now` is the worker's clock, `database_now` that of the database, whose draw is `draw`. The
-- result is whether the slot was reserved, and the time of the next one.
unfoldable pub reserve_send_slot :
    (session_id now database_now : ℕ) → (draw : ℕ → ℕ → ℕ) → Database → Database × (Bool × ℕ)
reserve_send_slot session_id now database_now draw db =
    let is_open : WhatsAppSession → Bool =
      λ row. row.id == session_id && leb row.next_send_allowed_at now in
    let reserve : WhatsAppSession → WhatsAppSession = λ row. record row {
      next_send_allowed_at = database_now + pacing_interval draw row;
      updated_at = now;
    } in
    let db' = record db { sessions = update_where is_open reserve db.sessions } in
    (
      db',
      elim (find? is_open db.sessions) [
        | some row ↦ (true, database_now + pacing_interval draw row)
        | none ↦ (
          false,
          get_or (map_option next_send_of (find? (λ row. row.id == session_id) db.sessions)) now,
        )
      ],
    )
