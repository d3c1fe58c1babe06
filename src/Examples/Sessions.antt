-- ===== src/Examples/Sessions.antt =====
-- The theorems on connections at concrete inputs: one connection of the application 7, and the
-- application 8.
use whatsapp_notification_pl.Prelude.{ℕ, ◌==◌, ◌≡◌, refl, none, some, [], ◌∷◌, if◌then◌else◌, codes}
use whatsapp_notification_pl.Database.Records.{Database}
use whatsapp_notification_pl.Database.Listing.{exists_for_session}
use whatsapp_notification_pl.Database.Sessions.{find_by_id}
use whatsapp_notification_pl.Database.Transaction.{error}
use whatsapp_notification_pl.Domain.Failure.{ProviderFailure, provider_invalid_request, permanent}
use whatsapp_notification_pl.Domain.SessionStatus.{ProviderSessionStatus}
use whatsapp_notification_pl.Program.{ProviderSession, succeeded, failed}
use whatsapp_notification_pl.Services.Sessions.Tasks.{
  ProviderCall, start_session, delete_session, database_refused, Moment, Trace, run,
}
use whatsapp_notification_pl.Services.Sessions.{
  SessionPorts, Generated, to_provider_session_name, create, start, delete,
}
use whatsapp_notification_pl.Guarantees.Sessions.{undisturbed}
use whatsapp_notification_pl.Guarantees.Sessions.Deletion.{Deletes, delete_lem, delete-race}
use whatsapp_notification_pl.Guarantees.Sessions.Creation.{Creates, create_both_or_neither}
use whatsapp_notification_pl.Guarantees.Sessions.Tenants.{LeaveOthers, operations_leave_others}
use whatsapp_notification_pl.Guarantees.Sessions.Recreation.{start-create}
use whatsapp_notification_pl.Examples.{notification, session, database_with, configuration, answers}

abbrev live : ProviderSession
live = record {
  status = ProviderSessionStatus.scan_qr_code;
  phone_number = none;
  push_name = none;
  account_limits = none;
}

abbrev not_found : ProviderFailure
not_found = record {
  code = provider_invalid_request;
  classification = permanent;
  retry_after_seconds = none;
  provider_status_code = some 404;
}

abbrev moments : ℕ → Moment
moments i = record {
  others = λ db. db;
  time = 1000;
  session = succeeded live;
  deletion = succeeded tt;
  qr_code = succeeded [];
  refresh = λ j. answers;
}

abbrev forgetful : ℕ → Moment
forgetful i = record (moments i) { session = failed not_found }

-- A notification of the connection is written while it is deleted.
abbrev busy : ℕ → Moment
busy i = record (moments i) {
  others = λ db. if i == 3 then record db { notifications = notification ∷ [] } else db;
}

abbrev unused : Database
unused = record (database_with notification) { notifications = [] }

abbrev trace : Trace
trace = record { database = unused; calls = [] }

abbrev ports : SessionPorts
ports = record {
  show_identifier = λ id. id ∷ [];
  encrypt_secret = λ key. b'#' ∷ key;
  decrypt_secret = λ text. elim text [ [] ↦ [] | c ∷ key ↦ key ];
  webhook_public_url = codes "https://example.org/";
  configuration = configuration;
}

abbrev generated : Generated
generated = record { session_id = 5; signing_key = codes "key"; database_now = 900 }

delete_lem_example : Deletes moments trace 7 3
delete_lem_example = delete_lem moments trace 7 3

delete-race_example : run busy 0 trace (delete 7 3) ≡ (
  record { database = database_with notification; calls = delete_session (b's' ∷ []) ∷ [] },
  error database_refused,
)
unfolding find_by_id exists_for_session
delete-race_example = delete-race busy trace 7 3 session session refl refl refl refl refl

create_both_or_neither_example :
    Creates moments trace ports generated 7 (codes "Shop") (succeeded live)
unfolding exists_for_session to_provider_session_name
create_both_or_neither_example =
    create_both_or_neither moments trace ports generated 7 (codes "Shop")
      (record { no_session = refl; no_notification = refl; no_delivery = refl })

-- The application 8 names the connection of 7.
operations_leave_others_example : LeaveOthers moments trace ports 8 3 7
operations_leave_others_example =
    operations_leave_others moments trace ports 8 3 7 (tt, tt) (λ e. cc e)

start-create_example :
    (creation : ProviderCall) × ((run
        (undisturbed moments)
        0
        trace
        (create ports generated 7 (codes "Shop"))).0.calls
      ≡ creation ∷ [])
    × ((run
          (undisturbed forgetful)
          0
          (run (undisturbed moments) 0 trace (create ports generated 7 (codes "Shop"))).0
          (start ports 7 5)).0.calls
        ≡ creation ∷ start_session (to_provider_session_name ports 5) ∷ creation ∷ [])
unfolding exists_for_session to_provider_session_name
start-create_example =
    start-create moments forgetful trace ports generated 7 (codes "Shop") live not_found
      (record { no_session = refl; no_notification = refl; no_delivery = refl }) refl refl refl refl
