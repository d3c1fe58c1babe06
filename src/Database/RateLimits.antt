-- ===== src/Database/RateLimits.antt =====
-- packages/database/src/repositories/rate-limit.repository.ts and the function `consume_rate_limit`
-- of packages/database/migrations/0006_rate_limit_function.sql, on the bucket of one subject: the
-- time at which its next request would be on pace, if it has a row. Times are microseconds; the
-- interval that the database makes of a number of seconds is an argument.
pub mod Laws
pub mod Retry
pub mod LeakyBucket
use whatsapp_notification_pl.Prelude.{
  ℕ, ◌+◌, ◌-◌, ◌*◌, ◌/◌, max, Bool, true, false, not, ◌||◌, Option, none, some, List, leb, ltb,
  ◌==◌, if◌then◌else◌, get_or, map_option, length, find?, filter, Text, text_eq,
}

pub record RateLimitPolicy : Type 0 where
  pub requests_per_period : ℕ
  pub burst_allowance : ℕ
  pub period_seconds : ℕ

pub record RateLimitDecision : Type 0 where
  pub is_allowed : Bool
  pub remaining_requests : ℕ
  -- in microseconds
  pub retry_after : ℕ
  pub resets_after : ℕ

-- `make_interval` of the seconds of the period over the requests in it.
abbrev pub IntervalOf : Type 0
IntervalOf = (period_seconds requests_per_period : ℕ) → ℕ

abbrev pub emission_interval : IntervalOf → RateLimitPolicy → ℕ
emission_interval interval policy = interval policy.period_seconds policy.requests_per_period

abbrev pub delay_tolerance : IntervalOf → RateLimitPolicy → ℕ
delay_tolerance interval policy = emission_interval interval policy * max policy.burst_allowance 1

-- The arrival that the statement writes, where it grants the request. A missing row is inserted
-- whatever the tolerance.
abbrev pub granted_arrival : (emission tolerance : ℕ) → (bucket : Option ℕ) → (now : ℕ) → Option ℕ
granted_arrival emission tolerance none now = some (now + emission)
granted_arrival emission tolerance (some arrival) now =
    if leb (max arrival now + emission) (now + tolerance)
    then some (max arrival now + emission)
    else none

-- An interval is a microsecond at least: only a policy of more than two million requests a second
-- has a shorter one, by which the database would refuse to divide.
abbrev pub granted_decision : (emission tolerance arrival now : ℕ) → RateLimitDecision
granted_decision emission tolerance arrival now = record {
  is_allowed = true;
  remaining_requests = (now + tolerance - arrival) / emission;
  retry_after = 0;
  resets_after = arrival - now;
}

abbrev pub refused_decision :
    (emission tolerance : ℕ) → (bucket : Option ℕ) → (now : ℕ) → RateLimitDecision
refused_decision emission tolerance bucket now =
    let effective_arrival = max (get_or bucket now) now in
    record {
      is_allowed = false;
      remaining_requests = 0;
      retry_after = effective_arrival + emission - (tolerance + now);
      resets_after = effective_arrival - now;
    }

abbrev pub decide :
    (emission tolerance : ℕ) → (bucket : Option ℕ) → (now : ℕ) → Option ℕ × RateLimitDecision
decide emission tolerance bucket now = elim (granted_arrival emission tolerance bucket now) [
  | some arrival ↦ (some arrival, granted_decision emission tolerance arrival now)
  | none ↦ (bucket, refused_decision emission tolerance bucket now)
]

-- The policy has a positive allowance and period; otherwise the function raises.
unfoldable pub consume :
    IntervalOf
    → RateLimitPolicy
    → (now : ℕ) → (bucket : Option ℕ) → Option (Option ℕ × RateLimitDecision)
consume interval policy now bucket =
    if policy.requests_per_period == 0 || policy.period_seconds == 0
    then none
    else some
        (decide (emission_interval interval policy) (delay_tolerance interval policy) bucket now)

-- A row: the bucket of a subject.
pub record RateLimitBucket : Type 0 where
  pub subject : Text
  pub theoretical_arrival_at : ℕ
  pub updated_at : ℕ

-- The rows that are left, and how many are not.
unfoldable pub prune : (older_than : ℕ) → List RateLimitBucket → List RateLimitBucket × ℕ
prune older_than rows = (
  filter (λ row. not (ltb row.updated_at older_than)) rows,
  length (filter (λ row. ltb row.updated_at older_than) rows),
)

abbrev pub is_of : Text → RateLimitBucket → Bool
is_of subject row = text_eq row.subject subject

abbrev pub arrival_of : RateLimitBucket → ℕ
arrival_of row = row.theoretical_arrival_at

-- What `consume` is given.
abbrev pub bucket_of : (subject : Text) → List RateLimitBucket → Option ℕ
bucket_of subject rows = map_option arrival_of (find? (is_of subject) rows)
