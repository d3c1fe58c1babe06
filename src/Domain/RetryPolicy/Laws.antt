-- ===== src/Domain/RetryPolicy/Laws.antt =====
-- Bounds of the backoff.
use whatsapp_notification_pl.Prelude.{ℕ, zero, suc, ◌+◌, ◌-◌, ◌*◌, ◌/◌, ◌^◌, ◌≤◌, max, ◌≡◌, arith}
use native.Mathlib.Nat.{pow-zero, pow-suc, zero-add, suc-add}
use whatsapp_notification_pl.Domain.RetryPolicy.{
  RetryPolicy, default_retry_policy, capped_delay, compute_retry_delay_seconds,
  compute_next_attempt_at,
}

-- What `RandomPort` documents: a whole number between the two bounds, both included.
abbrev pub InRange : (ℕ → ℕ → ℕ) → Type 0
InRange integer_between =
    (lo hi : ℕ) → lo ≤ hi → (lo ≤ integer_between lo hi) × (integer_between lo hi ≤ hi)

pow_pos : (b n : ℕ) → 1 ≤ b → 1 ≤ b ^ n
pow_pos b zero h = rw pow-zero (omega arith)
pow_pos b (suc n) h = rw pow-suc (grind (arith, pow_pos b n h))

-- If the random draw keeps to its bounds, the delay lies between half the capped exponential delay
-- and the whole of it, which is within the maximum of the policy.
retry_delay_bounds :
    (integer_between : ℕ → ℕ → ℕ) (policy : RetryPolicy) (attempt_number : ℕ)
    → InRange integer_between
    → let capped = capped_delay policy attempt_number in
      let delay = compute_retry_delay_seconds integer_between policy attempt_number in
      (capped / 2 ≤ delay) × (delay ≤ capped) × (delay ≤ policy.maximum_delay_seconds)
unfolding compute_retry_delay_seconds
retry_delay_bounds integer_between policy n random =
    let capped = capped_delay policy n in
    let r = random 0 (capped - capped / 2) (omega arith) in omega (arith, r.0, r.1)

pow-le-pow : (b m k : ℕ) → 1 ≤ b → b ^ m ≤ b ^ (k + m)
pow-le-pow b m zero h = rw zero-add (omega arith)
pow-le-pow b m (suc k) h = rw (suc-add, pow-suc) (grind (arith, pow-le-pow b m k h))

-- With a backoff factor of at least one, the capped delay of a later attempt is no shorter than that
-- of an earlier one.
pub capped_delay_mono :
    (policy : RetryPolicy) (m n : ℕ)
    → 1 ≤ policy.backoff_factor
    → m ≤ n
    → capped_delay policy m ≤ capped_delay policy n
capped_delay_mono policy m n h le =
    let shift : (n - 1 - (m - 1)) + (m - 1) ≡ n - 1 = omega arith in
    let p : policy.backoff_factor ^ (m - 1) ≤ policy.backoff_factor ^ (n - 1) =
      rw (← shift) (pow-le-pow policy.backoff_factor (m - 1) (n - 1 - (m - 1)) h) in
    grind arith

-- If the random draw keeps to its bounds, the default policy spaces retries by half a minute at least
-- and an hour at most.
pub default_retry_delay_bounds :
    (integer_between : ℕ → ℕ → ℕ) (attempt_number : ℕ)
    → InRange integer_between
    → let delay = compute_retry_delay_seconds integer_between default_retry_policy attempt_number in
      (30 ≤ delay) × (delay ≤ 3600)
default_retry_delay_bounds integer_between n random =
    let b = retry_delay_bounds integer_between default_retry_policy n random in
    let p = pow_pos 3 (n - 1) (omega arith) in omega (arith, b.0, b.1, b.2, p)

-- If the random draw keeps to its bounds, the next attempt under the default policy lies in the
-- future by at least the policy's half minute and by at least the
-- floor that the caller asks for, and by no more than the hour or that floor.
pub next_attempt_at_bounds :
    (integer_between : ℕ → ℕ → ℕ) (attempt_number now minimum_delay_seconds : ℕ)
    → InRange integer_between
    → let at =
        compute_next_attempt_at integer_between default_retry_policy attempt_number now
          minimum_delay_seconds in
      (now + 30 * 1000 ≤ at)
      × (now + minimum_delay_seconds * 1000 ≤ at)
      × (at ≤ now + max 3600 minimum_delay_seconds * 1000)
unfolding compute_next_attempt_at
next_attempt_at_bounds integer_between n now floor random =
    omega (arith, default_retry_delay_bounds integer_between n random)
