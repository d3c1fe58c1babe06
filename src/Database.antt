-- ===== src/Database.antt =====
-- The tables and the statements that the services run on them, packages/database/src and
-- packages/queue/src.
pub mod Records
pub mod Notifications
pub mod SendAttempts
pub mod Sessions
pub mod Deliveries
pub mod Transaction
pub mod IdempotencyKeys
pub mod Listing
pub mod RateLimits
