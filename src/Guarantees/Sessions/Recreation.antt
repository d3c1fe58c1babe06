-- ===== src/Guarantees/Sessions/Recreation.antt =====
-- `start` of packages/composition/src/whatsapp/whatsapp-session.service.ts, on a session that the
-- provider has forgotten.
use whatsapp_notification_pl.Prelude.{
  ℕ, suc, ◌≡◌, refl, ap, ◌∙◌, true, Option, none, some, ◌∷◌, Text,
}
use whatsapp_notification_pl.Database.Records.{WhatsAppSession}
use whatsapp_notification_pl.Database.Sessions
use whatsapp_notification_pl.Database.Transaction.{Result}
use whatsapp_notification_pl.Domain.Failure.{ProviderFailure}
use whatsapp_notification_pl.Program.{ProviderResult, ProviderSession, succeeded, failed}
use whatsapp_notification_pl.Services.Sessions.Tasks.{
  SessionError, ProviderCall, create_session, start_session, Task, throw,
  whatsapp_provider_unavailable, run, Moment, Trace, ◌>>=◌, ◌>>◌,
}
use whatsapp_notification_pl.Services.Sessions.{
  SessionPorts, Generated, or_fail, to_provider_session_name, to_webhook_url, get_or_fail,
  record_live, is_not_found, recreate_at_provider, create, start,
}
use whatsapp_notification_pl.Guarantees.Sessions.{undisturbed, get-or-fail-found}
use whatsapp_notification_pl.Guarantees.Sessions.Creation.{
  IsFresh, connected, new_row, create_done, find-connected,
}

module _ (moments : ℕ → Moment) where
  get-or-fail-calls :
      (i : ℕ) (trace : Trace) (application_id session_id : ℕ)
      → (run (undisturbed moments) i trace (get_or_fail application_id session_id)).0.calls
        ≡ trace.calls
  unfolding run get_or_fail ◌>>=◌
  get-or-fail-calls i trace application_id session_id =
      go (Sessions.find_by_id application_id session_id trace.database)
    where
      go :
          (o : Option WhatsAppSession)
          → (run (undisturbed moments) (suc i) trace (or_fail o)).0.calls ≡ trace.calls
      go none = refl
      go (some row) = refl

  abbrev recreation : SessionPorts → WhatsAppSession → ProviderCall
  recreation ports row = create_session (record {
    session_name = row.provider_session_name;
    webhook_url = to_webhook_url ports row.id;
    webhook_signing_key = ports.decrypt_secret row.webhook_signing_key_ciphertext;
  })

  recreate-at-provider-calls :
      (i : ℕ) (trace : Trace) (ports : SessionPorts) (row : WhatsAppSession)
      → (run (undisturbed moments) i trace (recreate_at_provider ports row)).0.calls
        ≡ recreation ports row ∷ trace.calls
  unfolding run recreate_at_provider ◌>>=◌ ◌>>◌
  recreate-at-provider-calls i trace ports row = go (moments i).session
    where
      go :
          (answer : ProviderResult ProviderSession)
          → (run
              (undisturbed moments)
              (suc i)
              (record trace { calls = recreation ports row ∷ trace.calls })
              (elim answer as (λ _. Task WhatsAppSession) [
                | failed f ↦ throw whatsapp_provider_unavailable
                | succeeded live ↦
                    record_live row.id live.status live.phone_number live.push_name none
                    >> get_or_fail row.application_id row.id
              ])).0.calls
            ≡ recreation ports row ∷ trace.calls
      go (failed f) = refl
      go (succeeded live) = get-or-fail-calls _ _ row.application_id row.id

  start-forgotten :
      (trace : Trace) (ports : SessionPorts) (application_id session_id : ℕ) (row : WhatsAppSession)
      (f : ProviderFailure)
      → Sessions.find_by_id application_id session_id trace.database ≡ some row
      → (moments 1).session ≡ failed f
      → is_not_found f ≡ true
      → (run (undisturbed moments) 0 trace (start ports application_id session_id)).0.calls
        ≡ recreation ports row ∷ start_session row.provider_session_name ∷ trace.calls
  unfolding start ◌>>=◌ run
  start-forgotten trace ports application_id session_id row f e answered not_found =
      ap (λ out. out.0.calls)
        (get-or-fail-found (undisturbed moments) 0 trace application_id session_id _ row e)
      ∙ rw (run, answered, not_found)
          (recreate-at-provider-calls 2
            (record trace { calls = start_session row.provider_session_name ∷ trace.calls }) ports
            row)

-- A connection that was created and that the provider has since forgotten is created there once more
-- by starting it: the provider is asked to create just what it was asked at first, the name, the
-- address of the callbacks and the signing key, if nobody else writes meanwhile, the generated
-- identifier and name were fresh, and what is encrypted is decrypted to itself.
pub start-create :
    (moments later : ℕ → Moment) (trace : Trace) (ports : SessionPorts) (generated : Generated)
    (application_id : ℕ) (display_name : Text) (live : ProviderSession) (f : ProviderFailure)
    → IsFresh (new_row moments trace ports generated application_id display_name) trace.database
    → ports.decrypt_secret (ports.encrypt_secret generated.signing_key) ≡ generated.signing_key
    → (moments 1).session ≡ succeeded live
    → (later 1).session ≡ failed f
    → is_not_found f ≡ true
    → (creation : ProviderCall) × ((run
          (undisturbed moments)
          0
          trace
          (create ports generated application_id display_name)).0.calls
        ≡ creation ∷ trace.calls)
      × ((run
            (undisturbed later)
            0
            (run
              (undisturbed moments)
              0
              trace
              (create ports generated application_id display_name)).0
            (start ports application_id generated.session_id)).0.calls
          ≡ creation
            ∷ start_session (to_provider_session_name ports generated.session_id)
            ∷ creation
            ∷ trace.calls)
start-create moments later trace ports generated application_id display_name live f fresh inverse
      created forgotten not_found =
    let row = new_row moments trace ports generated application_id display_name in
    let done_there =
      create_done moments trace ports generated application_id display_name live fresh created in
    (
      creation_of generated.signing_key,
      ap (λ out. out.0.calls) done_there,
      ap
            (λ (out : Trace × Result SessionError WhatsAppSession).
              (run (undisturbed later) 0 out.0
                (start ports application_id generated.session_id)).0.calls)
            done_there
          ∙ start-forgotten later _ ports application_id generated.session_id
              (connected row live (moments 2).time) f
              (find-connected row live (moments 2).time trace.database fresh.no_session) forgotten
              not_found
          ∙ ap
              (λ key.
                creation_of key
                ∷ start_session row.provider_session_name
                ∷ creation_of generated.signing_key
                ∷ trace.calls)
              inverse,
    )
  where
    creation_of : Text → ProviderCall
    creation_of key = create_session (record {
      session_name = to_provider_session_name ports generated.session_id;
      webhook_url = to_webhook_url ports generated.session_id;
      webhook_signing_key = key;
    })
