-- ===== src/Database/Sessions/Laws.antt =====
-- The pauses and the send slots of a connection.
use whatsapp_notification_pl.Prelude.{
  ℕ, max, ◌≡◌, refl, ap, ◌∙◌, Option, none, some, List, [], ◌∷◌, arith, ◌==◌, get_or, map_option,
  find?, update_where,
}
use whatsapp_notification_pl.Database.Records.{WhatsAppSession, Database}
use whatsapp_notification_pl.Domain.AccountLimits.{AccountLimits, SendingPause}
use whatsapp_notification_pl.Database.Sessions.{
  find_by_id_without_tenant_scope, record_account_limits, store_limits, store_pause,
}

find-session :
    (id : ℕ) (f : WhatsAppSession → WhatsAppSession) (rows : List WhatsAppSession)
    → ((r : WhatsAppSession) → (f r).id ≡ r.id)
    → find? (λ r. r.id == id) (update_where (λ r. r.id == id) f rows)
      ≡ map_option f (find? (λ r. r.id == id) rows)
find-session id f [] h = refl
find-session id f (r ∷ rows) h = ground (arith, h r, find-session id f rows h)

store-id :
    (pause : Option SendingPause) (limits : Option AccountLimits) (t : ℕ) (r : WhatsAppSession)
    → (store_pause pause (store_limits limits t r)).id ≡ r.id
store-id pause limits t r = ground arith

-- What two workers learn at once about a connection never shortens its pause: after a pause is
-- recorded, the connection is paused until exactly the later of the two ends (the new one, where it
-- was not paused), and after a report without a pause it is paused until exactly when it was.
pub record_account_limits-longer :
    (id : ℕ) (limits : Option AccountLimits) (pause : Option SendingPause) (t : ℕ) (db : Database)
    (r : WhatsAppSession)
    → find_by_id_without_tenant_scope id db ≡ some r
    → (r' : WhatsAppSession) × (find_by_id_without_tenant_scope id
          (record_account_limits id limits pause t db)
        ≡ some r')
      × (pause ≡ none → r'.sending_paused_until ≡ r.sending_paused_until)
      × ((p : SendingPause)
          → pause ≡ some p
          → r'.sending_paused_until ≡ some (max (get_or r.sending_paused_until 0) p.paused_until))
unfolding find_by_id_without_tenant_scope record_account_limits
record_account_limits-longer id limits pause t db r e =
    let f : WhatsAppSession → WhatsAppSession =
      λ x. record (store_pause pause (store_limits limits t x)) { updated_at = t } in
    (
      f r,
      find-session id f db.sessions (λ x. store-id pause limits t x) ∙ ap (map_option f) e,
      (λ h. ground (arith, h)),
      (λ p h. ground (arith, h)),
    )
