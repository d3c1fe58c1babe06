-- ===== src/Examples/Ingestion.antt =====
-- The theorem on the filing of callbacks at a concrete input.
use whatsapp_notification_pl.Prelude.{some, [], ◌++◌, codes}
use whatsapp_notification_pl.Database.Records.{ProviderEvent}
use whatsapp_notification_pl.Provider.Callback.{fraction}
use whatsapp_notification_pl.Services.Ingestion.{IngestWebhookInput, IngestionPorts, Inbox, ingest}
use whatsapp_notification_pl.Services.Ingestion.Laws.{IsJustified, ingest-IsJustified}
use whatsapp_notification_pl.Examples.{notification, database_with}

-- A signature is the key, then the body; every body is one event.
abbrev ports : IngestionPorts
ports = record {
  read_signing_key = λ session_id. some (codes "key");
  hmac = λ signing_key raw_body. signing_key ++ raw_body;
  number = λ header. fraction 400 1;
  parse_webhook_envelope =
      λ raw_body. some (record { id = raw_body; event = ProviderEvent.unsupported });
  webhook_tolerance_seconds = 300;
}

abbrev callback : IngestWebhookInput
callback = record {
  whatsapp_session_id = 3;
  raw_body = codes "e1";
  signature = some (codes "keye1");
  timestamp_header = some (codes "400");
  correlation_id = 9;
}

abbrev empty_inbox : Inbox
empty_inbox = record { database = database_with notification; webhook_jobs = [] }

ingest-IsJustified_example :
    IsJustified ports callback 77 500_000 empty_inbox
      (ingest ports callback 77 500_000 empty_inbox).0
      (ingest ports callback 77 500_000 empty_inbox).1.outcome
ingest-IsJustified_example = ingest-IsJustified ports callback 77 500_000 empty_inbox
