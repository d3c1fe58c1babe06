-- ===== src/Database/Deliveries/Laws.antt =====
-- A callback of the provider is written once and worked on until it is processed.
use whatsapp_notification_pl.Prelude.{
  ℕ, ◌≡◌, refl, inl, inr, Bool, true, not, ◌&&◌, none, some, List, [], ◌∷◌, ◌++◌, arith, ◌==◌,
  Bool-cases, is_some, find?, any, update_where, Text, text_eq,
}
use whatsapp_notification_pl.Database.Records.{WebhookDelivery, WebhookOutcome, Database}
use whatsapp_notification_pl.Database.Deliveries.{
  is_same_callback, record_delivery, claim_for_processing, mark_processed,
}

text_eq_refl : (t : Text) → text_eq t t ≡ true
text_eq_refl [] = refl
text_eq_refl (c ∷ t) = ground (arith, text_eq_refl t)

any-append_last :
    (p : WebhookDelivery → Bool) (rows : List WebhookDelivery) (d : WebhookDelivery)
    → p d ≡ true
    → any p (rows ++ d ∷ []) ≡ true
any-append_last p [] d h = ground arith
any-append_last p (r ∷ rows) d h = ground (arith, any-append_last p rows d h)

is_same_refl :
    (d : WebhookDelivery) → is_same_callback d.whatsapp_session_id d.provider_event_id d ≡ true
is_same_refl d = ground (arith, text_eq_refl d.provider_event_id)

recorded :
    (d : WebhookDelivery) (db : Database)
    → any
        (is_same_callback d.whatsapp_session_id d.provider_event_id)
        (record_delivery d db).0.deliveries
      ≡ true
unfolding record_delivery
recorded d db =
    elim (Bool-cases
      (any (is_same_callback d.whatsapp_session_id d.provider_event_id) db.deliveries)) [
        | inl seen ↦ rw seen seen
        | inr new ↦ rw new (any-append_last _ db.deliveries d (is_same_refl d))
      ]

repeated :
    (e : WebhookDelivery) (db : Database)
    → any (is_same_callback e.whatsapp_session_id e.provider_event_id) db.deliveries ≡ true
    → record_delivery e db ≡ (db, none)
unfolding record_delivery
repeated e db h = rw h refl

-- A callback that the provider repeats, with the same session and event identifier, is not written
-- again: the database stays as the first left it, and no row is returned.
pub record_delivery-repeated :
    (d e : WebhookDelivery) (db : Database)
    → e.whatsapp_session_id ≡ d.whatsapp_session_id
    → e.provider_event_id ≡ d.provider_event_id
    → record_delivery e (record_delivery d db).0 ≡ ((record_delivery d db).0, none)
record_delivery-repeated d e db session event =
    repeated e (record_delivery d db).0 (rw (session, event) (recorded d db))

find-processed :
    (id : ℕ) (o : WebhookOutcome) (t : ℕ) (rows : List WebhookDelivery)
    → find?
        (λ r. r.id == id && not (is_some r.processed_at))
        (update_where
          (λ r. r.id == id)
          (λ r. record r { processed_at = some t; outcome = some o })
          rows)
      ≡ none
find-processed id o t [] = refl
find-processed id o t (r ∷ rows) = ground (arith, find-processed id o t rows)

-- Once a callback is marked as processed, no job of it that the queue delivers again works on it.
claim_for_processing-mark_processed :
    (id : ℕ) (o : WebhookOutcome) (t : ℕ) (db : Database)
    → (claim_for_processing id (mark_processed id o t db)).1 ≡ none
unfolding claim_for_processing mark_processed
claim_for_processing-mark_processed id o t db = rw (find-processed id o t db.deliveries) refl
