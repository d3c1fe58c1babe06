-- ===== src/Lib.antt =====
-- The notification platform: applications send WhatsApp messages through a queue, workers deliver
-- them, and callbacks of the provider report what became of them.
--
-- The parts, and how they work together. A notification is a row of a table. A worker takes a job
-- from the queue, claims the row, finds out about the connection and the recipient, counts an
-- attempt, sends, and records the outcome; a maintenance loop releases claims of workers that died
-- and queues what is due; callbacks move a sent row on; tenants cancel what has not left yet. All of
-- these run at once on one database.
--
-- Prelude: names and lists that the other modules share.
-- Domain: packages/domain/src, one child for each source file: the lifecycle (Status), receipts
--   (Acknowledgement), the failure table (Failure), retries (RetryPolicy), restrictions of an account
--   (AccountLimits), connections (SessionStatus), typing (TypingDuration), numbers (PhoneNumber), keys
--   of applications (ApiKeyFormat), messages with placeholders (Template and its Rendering).
-- Provider: packages/provider-whatsapp/src: what an answer means (Classification, classify-failure.ts)
--   and whether a callback is authentic (Callback, webhook.ts).
-- Database: packages/database/src/repositories. The tables are a record of lists of rows (Records);
--   a statement is a function on the database, with its result. `UPDATE … WHERE … RETURNING` updates
--   every row that meets the condition and returns the first. What is handed to the queue
--   (packages/queue/src/enqueue-in-transaction.ts) is the list `jobs`, whether the queue keeps it or
--   answers null. Transaction is a transaction that may throw, and then leaves nothing
--   (tenant-scope.ts). Of the constraints of packages/database/src/schema, an insertion checks those
--   that its caller can violate.
-- Configuration: the settings that the services read.
-- Program: a service is a tree of the steps that it awaits: the clock, a random draw, the abort
--   signal, one statement or transaction, one call of the provider. The answers of the clock, the
--   draw and the provider come from outside and are arbitrary. Program.Logic reasons on such trees.
-- Services: packages/composition/src. Dispatch with Waiting, Sending and Entry is
--   notification/dispatch-notification.service.ts, split where it branches; Maintenance is
--   notification-maintenance.service.ts; Queries is the cancellation of
--   notification-query.service.ts; Connections is whatsapp/connection-state.service.ts and
--   connection-limits.service.ts; Webhooks is webhook/process-webhook.service.ts; Creation with
--   Requests, Claiming and Writing is notification/create-notification.service.ts, whose digest,
--   order of texts and generated identifiers are arguments. Listing is the rest of
--   notification-query.service.ts, over the pages of Database.Listing. Ingestion is
--   webhook/ingest-webhook.service.ts; it is run on an inbox, the database with the callbacks' queue.
--   RateLimits is rate-limit/rate-limit.service.ts, over the bucket of Database.RateLimits, which is
--   the function of packages/database/migrations/0006_rate_limit_function.sql.
--   Sessions is whatsapp/whatsapp-session.service.ts, on trees of its own (Sessions.Tasks), since it
--   makes other calls of the provider; what other processes write while it waits is an argument.
-- Workers: any number of these at once. A move starts a task, lets one worker take one step, or kills
--   it; a job may be delivered any number of times.
-- Contract: the interface between the services and what is said of them: `Admits`, one law for each
--   transaction. A relation that admits them all is kept by every step of every worker.
-- Guarantees: relations that do, and what follows for the platform; Guarantees.Creation is about
--   the creation of notifications, from its steps to the whole, Guarantees.Sessions about connections.
-- Examples: the theorems at concrete inputs.
--
-- Conventions. Numbers are natural numbers: a Date is its milliseconds, an identifier or a token a
-- number, a text the list of its code units; seconds and counts of the source are never negative. A
-- difference that is negative in the source when a clock is behind is zero here; it is only compared
-- with bounds that are not negative. The programs end by themselves; only the parser of templates runs
-- on fuel, one more than the length of its text, and Domain.Template.Laws proves that enough.
--
-- Not modelled: logging and correlation, priorities, failure reasons and other texts for people,
-- encryption, the HTTP client of the provider and the shapes of its answers, the queue's own storage
-- and its policies, sign-in and tenants, row level security, the controllers and the web pages.
-- Creation is one transaction on the database and not a task of Workers, nor are the operations on
-- connections, which a person starts. Statements on PostgreSQL are
-- taken to be atomic.
pub mod Prelude
pub mod Domain
pub mod Provider
pub mod Database
pub mod Configuration
pub mod Program
pub mod Services
pub mod Workers
pub mod Contract
pub mod Guarantees
pub mod Examples
