-- ===== src/Database/SendAttempts.antt =====
-- packages/database/src/repositories/notification-send-attempt.repository.ts: the ledger of the
-- calls to the provider; and the delivery settings of application.repository.ts.
use whatsapp_notification_pl.Prelude.{
  ℕ, Bool, true, not, ◌&&◌, Option, none, some, [], ◌∷◌, ◌++◌, ◌==◌, is_some, map_option, find?,
  filter, order_by, update_where, Text,
}
use whatsapp_notification_pl.Database.Records.{
  SendAttemptOutcome, SendAttempt, UnknownOutcomePolicy, Database,
}
use whatsapp_notification_pl.Domain.Failure.{ProviderFailureCode}

-- A row for an attempt that was begun and not yet answered.
unfoldable pub begin : (application_id notification_id attempt_number now : ℕ) → Database → Database
begin application_id notification_id attempt_number now db = record db {
  attempts =
      db.attempts
      ++ record {
        application_id = application_id;
        notification_id = notification_id;
        attempt_number = attempt_number;
        request_started_at = now;
        request_finished_at = none;
        outcome = none;
        provider_message_id = none;
        failure_code = none;
      }
        ∷ [];
}

abbrev pub is_attempt : (application_id notification_id attempt_number : ℕ) → SendAttempt → Bool
is_attempt application_id notification_id attempt_number row =
    row.notification_id == notification_id
    && (row.application_id == application_id && row.attempt_number == attempt_number)

unfoldable pub resolve :
    (application_id notification_id attempt_number : ℕ)
    → SendAttemptOutcome
    → (provider_message_id : Option Text) → (failure_code : Option ProviderFailureCode) → (now : ℕ)
    → Database
    → Database
resolve application_id notification_id attempt_number outcome message_id code now db = record db {
  attempts =
      update_where (is_attempt application_id notification_id attempt_number)
        (λ row. record row {
          outcome = some outcome;
          request_finished_at = some now;
          provider_message_id = message_id;
          failure_code = code;
        })
        db.attempts;
}

abbrev pub is_unresolved : (application_id notification_id : ℕ) → SendAttempt → Bool
is_unresolved application_id notification_id row =
    row.notification_id == notification_id
    && (row.application_id == application_id && not (is_some row.outcome))

unfoldable pub find_unresolved :
    (application_id notification_id : ℕ) → Database → Option SendAttempt
find_unresolved application_id notification_id db =
    find? (λ row. true)
      (order_by (λ row. row.attempt_number)
        (filter (is_unresolved application_id notification_id) db.attempts))

unfoldable pub find_delivery_settings :
    (application_id : ℕ) → Database → Option UnknownOutcomePolicy
find_delivery_settings application_id db =
    map_option (λ row. row.unknown_outcome_policy)
      (find? (λ row. row.id == application_id && not (is_some row.archived_at)) db.applications)
