-- ===== src/Services/Ingestion/Laws.antt =====
-- A callback is filed once, and only when it is authentic.
use whatsapp_notification_pl.Prelude.{
  ℕ, ◌≡◌, refl, ◌⊎◌, inl, inr, Bool, true, false, not, Option, none, some, [], ◌∷◌, ◌++◌,
  if◌then◌else◌, any, Text, text_eq, text_eq_lem,
}
use whatsapp_notification_pl.Database.Records.{WhatsAppSession}
use whatsapp_notification_pl.Database.Sessions.{find_by_id_without_tenant_scope}
use whatsapp_notification_pl.Database.Deliveries.{record_delivery, is_same_callback}
use whatsapp_notification_pl.Provider.Callback.{
  is_near, is_webhook_signature_valid, is_webhook_timestamp_acceptable,
}
use whatsapp_notification_pl.Services.Ingestion.{
  IngestWebhookInput, WebhookIngestionOutcome, accepted, duplicate, rejected, malformed,
  unknown_session, invalid_signature, stale_timestamp, IngestWebhookResult, WebhookEnvelope,
  IngestionPorts, Inbox, reject, delivery_of, enqueue_recorded, record_and_enqueue, file_envelope,
  ingest_authentic, ingest_signed, ingest_for, ingest,
}

-- A callback carries no timestamp (no header, or an empty one), or one that is within the tolerance
-- of the clock, on either side.
abbrev pub IsUndatedOrNear : IngestionPorts → (now : ℕ) → Option Text → Type 0
IsUndatedOrNear ports now header =
    (header ≡ none)
    ⊎ (header ≡ some [])
    ⊎ ((timestamp : Text) × (header ≡ some timestamp)
        × (is_near (ports.number timestamp) now ports.webhook_tolerance_seconds ≡ true))

undated_or_near :
    (ports : IngestionPorts) (now : ℕ) (header : Option Text)
    → is_webhook_timestamp_acceptable ports.number header now ports.webhook_tolerance_seconds ≡ true
    → IsUndatedOrNear ports now header
unfolding is_webhook_timestamp_acceptable
undated_or_near ports now none h = inl refl
undated_or_near ports now (some []) h = inr (inl refl)
undated_or_near ports now (some (c ∷ rest)) h = inr (inr (c ∷ rest, refl, h))

-- A callback is filed: its session is known and its own key signs the body as it came, it carries
-- no timestamp or one within the tolerance, and its delivery and the job for that delivery are the
-- only change.
pub record IsFiled (ports : IngestionPorts) (input : IngestWebhookInput) (delivery_id now : ℕ)
    (inbox inbox' : Inbox) : Type 0 where
  pub session : WhatsAppSession
  pub envelope : WebhookEnvelope
  pub signing_key : Text
  pub signature : Text
  pub known :
      find_by_id_without_tenant_scope input.whatsapp_session_id inbox.database ≡ some session
  pub key_readable : ports.read_signing_key session.id ≡ some signing_key
  pub signed : input.signature ≡ some signature
  pub authentic : signature ≡ ports.hmac signing_key input.raw_body
  pub undated_or_near : IsUndatedOrNear ports now input.timestamp_header
  pub parsed : ports.parse_webhook_envelope input.raw_body ≡ some envelope
  pub unseen : any (is_same_callback session.id envelope.id) inbox.database.deliveries ≡ false
  pub database : inbox'.database ≡ record (inbox.database) {
    deliveries = inbox.database.deliveries ++ delivery_of delivery_id session envelope now ∷ [];
  }
  pub jobs :
      inbox'.webhook_jobs
      ≡ inbox.webhook_jobs
        ++ record { correlation_id = input.correlation_id; webhook_delivery_id = delivery_id } ∷ []

abbrev pub IsJustified :
    IngestionPorts
    → IngestWebhookInput
    → (delivery_id now : ℕ) → (inbox inbox' : Inbox) → WebhookIngestionOutcome
    → Type 0
IsJustified ports input delivery_id now inbox inbox' accepted =
    IsFiled ports input delivery_id now inbox inbox'
IsJustified ports input delivery_id now inbox inbox' duplicate = inbox' ≡ inbox
IsJustified ports input delivery_id now inbox inbox' rejected = inbox' ≡ inbox
IsJustified ports input delivery_id now inbox inbox' malformed = inbox' ≡ inbox

module _ (ports : IngestionPorts) (input : IngestWebhookInput) (delivery_id now : ℕ)
    (inbox : Inbox) where
  Justified : Inbox × IngestWebhookResult → Type 0
  Justified r = IsJustified ports input delivery_id now inbox r.0 r.1.outcome

  -- A callback whose session is known, with that session's key and the signature that came.
  module _ (session : WhatsAppSession) (signing_key signature : Text)
      (known : find_by_id_without_tenant_scope input.whatsapp_session_id inbox.database
        ≡ some session)
      (key_readable : ports.read_signing_key session.id ≡ some signing_key)
      (signed : input.signature ≡ some signature)
      (authentic : signature ≡ ports.hmac signing_key input.raw_body)
      (recent : is_webhook_timestamp_acceptable ports.number input.timestamp_header now
          ports.webhook_tolerance_seconds
        ≡ true) where
    recorded_lem :
        (envelope : WebhookEnvelope)
        → ports.parse_webhook_envelope input.raw_body ≡ some envelope
        → Justified (
            record_and_enqueue input.correlation_id
              (delivery_of delivery_id session envelope now)
              inbox)
    unfolding record_and_enqueue record_delivery Justified
    recorded_lem envelope parsed =
        go (any (is_same_callback session.id envelope.id) inbox.database.deliveries) refl
      where
        go :
            (seen : Bool)
            → any (is_same_callback session.id envelope.id) inbox.database.deliveries ≡ seen
            → Justified (
                enqueue_recorded input.correlation_id
                  (if seen then (inbox.database, none) else (
                    record (inbox.database) {
                      deliveries =
                          inbox.database.deliveries
                          ++ delivery_of delivery_id session envelope now ∷ [];
                    },
                    some (delivery_of delivery_id session envelope now),
                  ))
                  inbox.webhook_jobs)
        go true e = refl
        go false e = record {
          session = session;
          envelope = envelope;
          signing_key = signing_key;
          signature = signature;
          known = known;
          key_readable = key_readable;
          signed = signed;
          authentic = authentic;
          undated_or_near = undated_or_near ports now input.timestamp_header recent;
          parsed = parsed;
          unseen = e;
          database = refl;
          jobs = refl;
        }

    file_envelope_lem :
        (o : Option WebhookEnvelope)
        → ports.parse_webhook_envelope input.raw_body ≡ o
        → Justified (file_envelope input.correlation_id delivery_id session o now inbox)
    unfolding Justified
    file_envelope_lem none e = refl
    file_envelope_lem (some envelope) e = recorded_lem envelope e

  ingest_authentic_lem :
      (session : WhatsAppSession) (signing_key signature : Text)
      → find_by_id_without_tenant_scope input.whatsapp_session_id inbox.database ≡ some session
      → ports.read_signing_key session.id ≡ some signing_key
      → input.signature ≡ some signature
      → signature ≡ ports.hmac signing_key input.raw_body
      → Justified (ingest_authentic ports input delivery_id now session inbox)
  unfolding ingest_authentic Justified
  ingest_authentic_lem session signing_key signature known key_readable signed authentic =
      go
        (is_webhook_timestamp_acceptable ports.number input.timestamp_header now
          ports.webhook_tolerance_seconds)
        refl
    where
      go :
          (b : Bool)
          → is_webhook_timestamp_acceptable ports.number input.timestamp_header now
              ports.webhook_tolerance_seconds
            ≡ b
          → Justified (
              if not b
              then reject stale_timestamp inbox
              else file_envelope input.correlation_id delivery_id session
                  (ports.parse_webhook_envelope input.raw_body)
                  now
                  inbox)
      go false e = refl
      go true e =
          file_envelope_lem session signing_key signature known key_readable signed authentic e
            (ports.parse_webhook_envelope input.raw_body) refl

  ingest_signed_lem :
      (session : WhatsAppSession) (signature : Text) (o : Option Text)
      → find_by_id_without_tenant_scope input.whatsapp_session_id inbox.database ≡ some session
      → input.signature ≡ some signature
      → ports.read_signing_key session.id ≡ o
      → Justified (ingest_signed ports input delivery_id now session o signature inbox)
  unfolding Justified is_webhook_signature_valid
  ingest_signed_lem session signature none known signed e = refl
  ingest_signed_lem session signature (some signing_key) known signed e =
      go (text_eq signature (ports.hmac signing_key input.raw_body)) refl
    where
      go :
          (b : Bool)
          → text_eq signature (ports.hmac signing_key input.raw_body) ≡ b
          → Justified (
              if not b
              then reject invalid_signature inbox
              else ingest_authentic ports input delivery_id now session inbox)
      go false k = refl
      go true k =
          ingest_authentic_lem session signing_key signature known e signed
            (text_eq_lem signature (ports.hmac signing_key input.raw_body) k)

  ingest_for_lem :
      (session : WhatsAppSession) (o : Option Text)
      → find_by_id_without_tenant_scope input.whatsapp_session_id inbox.database ≡ some session
      → input.signature ≡ o
      → Justified (ingest_for ports input delivery_id now session o inbox)
  unfolding Justified
  ingest_for_lem session none known e = refl
  ingest_for_lem session (some []) known e = refl
  ingest_for_lem session (some (c ∷ rest)) known e =
      ingest_signed_lem session (c ∷ rest) (ports.read_signing_key session.id) known e refl

  -- A callback that is not accepted changes nothing; one that is accepted is of a known session,
  -- carries the signature of its body under that session's key, carries no timestamp or one within
  -- the tolerance of the clock, is parsed, was not seen before, and adds exactly its delivery and the
  -- job for that delivery.
  pub ingest-IsJustified :
      IsJustified ports input delivery_id now inbox
        (ingest ports input delivery_id now inbox).0
        (ingest ports input delivery_id now inbox).1.outcome
  unfolding ingest Justified
  ingest-IsJustified =
      go (find_by_id_without_tenant_scope input.whatsapp_session_id inbox.database) refl
    where
      go :
          (o : Option WhatsAppSession)
          → find_by_id_without_tenant_scope input.whatsapp_session_id inbox.database ≡ o
          → Justified (elim o as (λ _. Inbox × IngestWebhookResult) [
            | none ↦ reject unknown_session inbox
            | some session ↦ ingest_for ports input delivery_id now session input.signature inbox
          ])
      go none e = refl
      go (some session) e = ingest_for_lem session input.signature e refl
