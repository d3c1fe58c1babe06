-- ===== src/Guarantees.antt =====
-- What holds of the whole platform, however its workers interleave.
pub mod Rows
pub mod Transactions
pub mod Lifecycle
pub mod Journey
pub mod Cancellation
pub mod Retries
pub mod Budget
pub mod Exclusion
pub mod StaleClaim
pub mod Creation
pub mod Sessions
