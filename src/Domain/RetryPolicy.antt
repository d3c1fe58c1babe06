-- ===== src/Domain/RetryPolicy.antt =====
-- packages/domain/src/notification/retry-policy.ts: exponential backoff with equal jitter.
-- `RandomPort` is the function `integer_between`. A Date is its number of milliseconds. The
-- factor's power is a natural number: callers pass an attempt number of at least 1.
pub mod Laws
use whatsapp_notification_pl.Prelude.{ℕ, ◌+◌, ◌-◌, ◌*◌, ◌/◌, ◌^◌, min, max}

pub record RetryPolicy : Type 0 where
  pub base_delay_seconds : ℕ
  pub backoff_factor : ℕ
  pub maximum_delay_seconds : ℕ
  pub maximum_attempts : ℕ

abbrev pub default_retry_policy : RetryPolicy
default_retry_policy = record {
  base_delay_seconds = 60;
  backoff_factor = 3;
  maximum_delay_seconds = 3600;
  maximum_attempts = 5;
}

abbrev pub session_not_ready_minimum_delay_seconds : ℕ
session_not_ready_minimum_delay_seconds = 300

abbrev pub capped_delay : RetryPolicy → ℕ → ℕ
capped_delay policy attempt_number =
    min (policy.base_delay_seconds * policy.backoff_factor ^ (attempt_number - 1))
      policy.maximum_delay_seconds

module _ (integer_between : ℕ → ℕ → ℕ) where
  unfoldable pub compute_retry_delay_seconds : RetryPolicy → ℕ → ℕ
  compute_retry_delay_seconds policy attempt_number =
      let capped = capped_delay policy attempt_number in
      let half = capped / 2 in half + integer_between 0 (capped - half)

  unfoldable pub compute_next_attempt_at : RetryPolicy → ℕ → (now minimum_delay_seconds : ℕ) → ℕ
  unfolding compute_retry_delay_seconds
  compute_next_attempt_at policy attempt_number now minimum_delay_seconds =
      now + max (compute_retry_delay_seconds policy attempt_number) minimum_delay_seconds * 1000
