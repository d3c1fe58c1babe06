-- ===== src/Services/RateLimits.antt =====
-- packages/composition/src/rate-limit/rate-limit.service.ts: the decision on one request, which
-- lets the request through where the database has none.
pub mod Pruning
use whatsapp_notification_pl.Prelude.{ℕ, ◌-◌, ◌*◌, Bool, true, false, Option, none, some, List}
use whatsapp_notification_pl.Database.RateLimits.{
  RateLimitBucket, RateLimitPolicy, RateLimitDecision, IntervalOf,
}
use whatsapp_notification_pl.Database.RateLimits

pub record RateLimitOutcome : Type 0 where
  pub decision : RateLimitDecision
  pub limit : ℕ
  pub was_degraded : Bool

abbrev pub sign_in_policy : RateLimitPolicy
sign_in_policy = record { requests_per_period = 10; burst_allowance = 5; period_seconds = 60 }

abbrev pub registration_policy : RateLimitPolicy
registration_policy = record { requests_per_period = 60; burst_allowance = 30; period_seconds = 60 }

abbrev pub degraded : RateLimitPolicy → RateLimitOutcome
degraded policy = record {
  decision = record {
    is_allowed = true;
    remaining_requests = policy.requests_per_period;
    retry_after = 0;
    resets_after = 0;
  };
  limit = policy.requests_per_period;
  was_degraded = true;
}

-- The bucket after it and the outcome; whether the database can be reached is up to the
-- surroundings.
unfoldable pub consume :
    IntervalOf
    → RateLimitPolicy
    → (now : ℕ) → (is_reachable : Bool) → (bucket : Option ℕ) → Option ℕ × RateLimitOutcome
consume interval policy now false bucket = (bucket, degraded policy)
consume interval policy now true bucket = elim (RateLimits.consume interval policy now bucket) [
  | none ↦ (bucket, degraded policy)
  | some result ↦ (
    result.0,
    record { decision = result.1; limit = policy.requests_per_period; was_degraded = false },
  )
]

-- `now` in microseconds.
unfoldable pub prune :
    (now older_than_seconds : ℕ) → List RateLimitBucket → List RateLimitBucket × ℕ
prune now older_than_seconds = RateLimits.prune (now - older_than_seconds * 1_000_000)
