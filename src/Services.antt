-- ===== src/Services.antt =====
-- The services of packages/composition/src, as programs.
pub mod Connections
pub mod Dispatch
pub mod Maintenance
pub mod Webhooks
pub mod Queries
pub mod Creation
pub mod Listing
pub mod Ingestion
pub mod RateLimits
pub mod Sessions
