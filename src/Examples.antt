-- ===== src/Examples.antt =====
-- The theorems at concrete inputs: one notification, one connection, two workers.
mod Rules
mod Statements
mod Creation
mod Texts
mod Ingestion
mod Listing
mod Sessions
mod RateLimits
use whatsapp_notification_pl.Prelude.{
  codes, ℕ, ◌≤◌, ◌≡◌, refl, Bool, true, false, none, some, List, [], ◌∷◌, ◌++◌, replicate,
}
use whatsapp_notification_pl.Database.Records.{
  Notification, WhatsAppSession, UnknownOutcomePolicy, Job, Database,
}
use whatsapp_notification_pl.Domain.Acknowledgement.{DeliveryAcknowledgement, value}
use whatsapp_notification_pl.Domain.SessionStatus.{ProviderSessionStatus}
use whatsapp_notification_pl.Domain.Status.{
  queued, retrying, cancelled, is_terminal_notification_status,
}
use whatsapp_notification_pl.Configuration.{Configuration}
use whatsapp_notification_pl.Program.{ProviderResult, Answers}
use whatsapp_notification_pl.Services.Dispatch.{DispatchInput}
use whatsapp_notification_pl.Workers.{
  Move, start, proceed, kill, dispatch_task, maintenance_task, cancel_waiting_task, moves,
}
use whatsapp_notification_pl.Guarantees.Journey.{at_rest, moves-keep_terminal}
use whatsapp_notification_pl.Guarantees.Cancellation.{cancel_waiting_transaction-for_good}
use whatsapp_notification_pl.Services.Queries.{cancel_waiting_transaction}
use whatsapp_notification_pl.Guarantees.Rows.{row_of}
use whatsapp_notification_pl.Guarantees.Budget.{moves-sent_messages}
use whatsapp_notification_pl.Guarantees.Budget.Logic.{sent_messages}
use whatsapp_notification_pl.Database.Notifications.{no_changes, claim_for_dispatch, begin_attempt}
use whatsapp_notification_pl.Database.Records.{EventType, Payload}
use whatsapp_notification_pl.Domain.Status.{processing}
use whatsapp_notification_pl.Services.Dispatch.{TransitionStep, record_transition}
use whatsapp_notification_pl.Guarantees.Exclusion.{claim_for_dispatch-exclusive}
use whatsapp_notification_pl.Guarantees.StaleClaim.{stale_claim_lem}
use whatsapp_notification_pl.Guarantees.Retries.{moves-RetriesAwaited}
use whatsapp_notification_pl.Guarantees.Retries.Awaits.{RetriesAwaited}

abbrev notification : Notification
notification = record {
  id = 1;
  application_id = 7;
  whatsapp_session_id = 3;
  status = queued;
  recipient_phone_number = b'+' ∷ b'5' ∷ b'5' ∷ [];
  recipient_chat_identifier = some (b'5' ∷ b'5' ∷ []);
  rendered_body = b'h' ∷ b'i' ∷ [];
  scheduled_at = none;
  attempt_count = 0;
  maximum_attempts = 2;
  next_attempt_at = none;
  claim_token = none;
  claimed_at = none;
  provider_message_id = none;
  provider_acknowledgement = value DeliveryAcknowledgement.pending;
  sent_at = none;
  delivered_at = none;
  read_at = none;
  failed_at = none;
  cancelled_at = none;
  failure_code = none;
  failure_classification = none;
  idempotency_key_id = none;
  correlation_id = some 11;
  metadata = [];
  created_at = 500;
  updated_at = 500;
}

abbrev session : WhatsAppSession
session = record {
  id = 3;
  application_id = 7;
  provider = codes "WAHA";
  provider_session_name = b's' ∷ [];
  display_name = b'n' ∷ [];
  webhook_signing_key_ciphertext = b'c' ∷ [];
  status = ProviderSessionStatus.working;
  phone_number = none;
  push_name = none;
  send_pacing_minimum_seconds = 3;
  send_pacing_maximum_seconds = 8;
  next_send_allowed_at = 0;
  sending_paused_until = some 400;
  sending_paused_reason = none;
  account_limits = none;
  account_limits_checked_at = none;
  last_status_at = 0;
  last_error = none;
  updated_at = 0;
}

abbrev database_with : Notification → Database
database_with row = record {
  applications =
      record {
        id = 7;
        archived_at = none;
        unknown_outcome_policy = UnknownOutcomePolicy.retry_policy;
      }
      ∷ [];
  notifications = row ∷ [];
  events = [];
  attempts = [];
  sessions = session ∷ [];
  deliveries = [];
  idempotency_keys = [];
  jobs = [];
}

abbrev configuration : Configuration
configuration = record {
  maximum_lifetime_hours = 24;
  maximum_connection_wait_minutes = 30;
  stuck_claim_timeout_seconds = 300;
  restriction_fallback_pause_hours = 6;
  simulate_typing = false;
}

abbrev answers : Answers
answers = record {
  time = 1000;
  pick = λ lo hi. lo;
  aborted = false;
  message = ProviderResult.succeeded (b'm' ∷ []);
  recipient =
      ProviderResult.succeeded
        (record { is_registered = true; chat_identifier = some (b'5' ∷ b'5' ∷ []) });
  session = ProviderResult.succeeded (
      some (record {
        status = ProviderSessionStatus.working;
        phone_number = none;
        push_name = none;
        account_limits = none;
      }));
  limits = ProviderResult.succeeded (record { reachout_timelock = none; new_chat_quota = none });
}

abbrev accepts : List Job → Job → Bool
accepts jobs j = true

abbrev input : DispatchInput
input = record { application_id = 7; notification_id = 1; correlation_id = 11 }

-- Two deliveries of one job, worked on in turn, a maintenance run and a cancellation.
abbrev schedule : List Move
schedule =
    start (dispatch_task 21 input)
    ∷ start (dispatch_task 22 input)
    ∷ proceed 0 answers
    ∷ proceed 0 answers
    ∷ proceed 1 answers
    ∷ start maintenance_task
    ∷ start (cancel_waiting_task 7 none none)
    ∷ (replicate 40 (proceed 0 answers)
        ++ (replicate 12 (proceed 1 answers) ++ (replicate 8 (proceed 2 answers) ++ kill 3 ∷ [])))

sends_of_schedule : ℕ
sends_of_schedule =
    sent_messages 1
      (moves accepts configuration schedule
        (at_rest (record { database = database_with notification; sends = [] }))).state.sends

moves-sent_messages_example :
    sent_messages 1
      (moves accepts configuration schedule
        (at_rest (record { database = database_with notification; sends = [] }))).state.sends
    ≤ 2
moves-sent_messages_example =
    moves-sent_messages accepts configuration schedule (database_with notification) 1 notification
      refl refl

abbrev stopped_row : Notification
stopped_row = record notification { status = cancelled }

moves-keep_terminal_example :
    (r' : Notification) × (row_of 1
        (moves accepts configuration schedule (
          at_rest (record {
            database = database_with stopped_row;
            sends = [];
          }))).state.database.notifications
      ≡ some r')
    × (r'.status ≡ cancelled)
unfolding is_terminal_notification_status
moves-keep_terminal_example =
    moves-keep_terminal accepts configuration schedule
      (record { database = database_with stopped_row; sends = [] }) 1 stopped_row refl refl

cancel_waiting_transaction-for_good_example :
    ((r' : Notification) × (row_of 1
          (moves accepts configuration schedule (record {
            state = record {
              database =
                  (cancel_waiting_transaction 7 none (some 12) 1000 (database_with notification)).0;
              sends = [];
            };
            workers = [];
          })).state.database.notifications
        ≡ some r')
      × (r'.status ≡ cancelled))
    × ((claim_for_dispatch 7 1 21 1200
          (moves accepts configuration schedule (record {
            state = record {
              database =
                  (cancel_waiting_transaction 7 none (some 12) 1000 (database_with notification)).0;
              sends = [];
            };
            workers = [];
          })).state.database).1
        ≡ none)
unfolding moves
cancel_waiting_transaction-for_good_example =
    cancel_waiting_transaction-for_good accepts configuration [] schedule
      (record { database = database_with notification; sends = [] }) 7 none (some 12) 1000 1 21 1200
      notification (tt, tt) refl refl

abbrev waiting_row : Notification
waiting_row = record notification { status = retrying; next_attempt_at = some 900 }

abbrev waiting_database : Database
waiting_database = record (database_with waiting_row) {
  jobs =
      record {
        correlation_id = 11;
        notification_id = 1;
        application_id = 7;
        singleton_key = 1;
        start_after = some 900;
      }
      ∷ [];
}

moves-RetriesAwaited_example :
    RetriesAwaited
      (moves accepts configuration schedule
        (at_rest (record { database = waiting_database; sends = [] }))).state.database
moves-RetriesAwaited_example =
    moves-RetriesAwaited accepts configuration schedule
      (record { database = waiting_database; sends = [] }) ((λ _. (900, refl, refl)), tt)

claim_for_dispatch-exclusive_example :
    (claim_for_dispatch 7 1 22 1500
      (claim_for_dispatch 7 1 21 1000 (database_with notification)).0).1
    ≡ none
unfolding claim_for_dispatch
claim_for_dispatch-exclusive_example =
    claim_for_dispatch-exclusive 7 1 21 22 1000 1500 (database_with notification)
      (record notification {
        status = processing;
        claim_token = some 21;
        claimed_at = some 1000;
        updated_at = 1000;
      })
      refl refl

-- The row as the second worker, with the token 22, holds it.
abbrev held_row : Notification
held_row = record notification { status = processing; claim_token = some 22; claimed_at = some 900 }

abbrev late_retry : TransitionStep
late_retry = record {
  next_status = retrying;
  event_type = EventType.retry_scheduled;
  attempt_number = some 1;
  changes = record no_changes { next_attempt_at = some (some 61_000); claim_token = some none };
  payload = Payload.empty;
  enqueue_at = some 61_000;
  now = 1000;
}

stale_claim_lem_example :
    ((begin_attempt 7 1 21 [] 1000 (database_with held_row)).1 ≡ none)
    × (r' : Notification) × (row_of 1
          (record_transition notification late_retry input (database_with held_row)).notifications
        ≡ some r')
    × (r'.status ≡ retrying)
stale_claim_lem_example =
    stale_claim_lem notification late_retry input (database_with held_row) held_row [] 21 22 1000
      refl refl refl refl refl refl
