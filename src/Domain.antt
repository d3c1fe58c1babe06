-- ===== src/Domain.antt =====
-- The domain rules, packages/domain/src: pure functions, one child for each source file.
pub mod Status
pub mod Acknowledgement
pub mod Failure
pub mod RetryPolicy
pub mod AccountLimits
pub mod SessionStatus
pub mod TypingDuration
pub mod PhoneNumber
pub mod ApiKeyFormat
pub mod Template
