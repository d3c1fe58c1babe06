-- ===== src/Database/RateLimits/Retry.antt =====
-- When a refused caller may come again.
use whatsapp_notification_pl.Prelude.{
  ℕ, ◌+◌, ◌-◌, ◌≤◌, ◌<◌, max, ◌≡◌, refl, sym, ap, ◌∙◌, Bool, true, false, ◌||◌, Option, none, some,
  arith, ◌==◌, if◌then◌else◌, is_some, map_option,
}
use whatsapp_notification_pl.Database.RateLimits.{
  RateLimitPolicy, RateLimitDecision, IntervalOf, emission_interval, delay_tolerance,
  granted_arrival, granted_decision, refused_decision, decide, consume,
}
use whatsapp_notification_pl.Database.RateLimits.Laws.{tolerance_bound}

-- At some time, for the arrival of the bucket, a request is refused.
abbrev waits : (emission tolerance arrival now : ℕ) → ℕ
waits emission tolerance arrival now = max arrival now + emission - (tolerance + now)

refused_until :
    (emission tolerance arrival now : ℕ)
    → emission ≤ tolerance
    → granted_arrival emission tolerance (some arrival) now ≡ none
    → (0 < waits emission tolerance arrival now)
      × ((waited : ℕ)
          → waited < waits emission tolerance arrival now
          → is_some (granted_arrival emission tolerance (some arrival) (now + waited)) ≡ false)
      × (is_some (
            granted_arrival emission tolerance
              (some arrival)
              (now + waits emission tolerance arrival now))
          ≡ true)
refused_until emission tolerance arrival now h e =
    (ground arith, (λ waited k. ground arith), ground arith)

decide_allowed :
    (emission tolerance : ℕ) (bucket : Option ℕ) (now : ℕ)
    → (decide emission tolerance bucket now).1.is_allowed
      ≡ is_some (granted_arrival emission tolerance bucket now)
decide_allowed emission tolerance bucket now =
    elim (granted_arrival emission tolerance bucket now)
      as (λ o.
        ((elim o as (λ _. Option ℕ × RateLimitDecision) [
          | some arrival ↦ (some arrival, granted_decision emission tolerance arrival now)
          | none ↦ (bucket, refused_decision emission tolerance bucket now)
        ]).1.is_allowed
          ≡ is_some o)) [ none ↦ refl | some arrival ↦ refl ]

pub decide_refused :
    (emission tolerance : ℕ) (bucket : Option ℕ) (now : ℕ)
    → granted_arrival emission tolerance bucket now ≡ none
    → decide emission tolerance bucket now
      ≡ (bucket, refused_decision emission tolerance bucket now)
decide_refused emission tolerance bucket now e = simp (decide, e)

unfoldable pub raises : RateLimitPolicy → Bool
raises policy = policy.requests_per_period == 0 || policy.period_seconds == 0

pub consumed :
    (interval : IntervalOf) (policy : RateLimitPolicy) (now : ℕ) (bucket : Option ℕ)
    (result : Option ℕ × RateLimitDecision)
    → consume interval policy now bucket ≡ some result
    → (raises policy ≡ false)
      × (decide (emission_interval interval policy) (delay_tolerance interval policy) bucket now
          ≡ result)
unfolding consume raises
consumed interval policy now bucket result e = go (raises policy) e
  where
    go :
        (b : Bool)
        → (if b
            then none
            else some (
                decide
                  (emission_interval interval policy)
                  (delay_tolerance interval policy)
                  bucket
                  now))
          ≡ some result
        → (b ≡ false)
          × (decide (emission_interval interval policy) (delay_tolerance interval policy) bucket now
              ≡ result)
    go true e = absurd (cc e)
    go false e = (refl, cc e)

-- Whether a request at a time is allowed.
abbrev pub allowed_at : IntervalOf → RateLimitPolicy → (bucket : Option ℕ) → (now : ℕ) → Option Bool
allowed_at interval policy bucket now =
    map_option (λ result. result.1.is_allowed) (consume interval policy now bucket)

pub allowed-at-granted :
    (interval : IntervalOf) (policy : RateLimitPolicy) (bucket : Option ℕ) (now : ℕ)
    → raises policy ≡ false
    → allowed_at interval policy bucket now
      ≡ some (
          is_some (
            granted_arrival
              (emission_interval interval policy)
              (delay_tolerance interval policy)
              bucket
              now))
unfolding consume raises
allowed-at-granted interval policy bucket now h = rw (h) (
    ap some (
      decide_allowed (emission_interval interval policy) (delay_tolerance interval policy) bucket
        now))

-- A refused request changes nothing, and is told exactly when to come again: as long as no other
-- request of the subject comes first, it is refused at every time before `retry_after` has passed
-- and granted at that time.
pub retry_after_lem :
    (interval : IntervalOf) (policy : RateLimitPolicy) (now : ℕ) (bucket after : Option ℕ)
    (decision : RateLimitDecision)
    → consume interval policy now bucket ≡ some (after, decision)
    → decision.is_allowed ≡ false
    → (after ≡ bucket)
      × (0 < decision.retry_after)
      × ((waited : ℕ)
          → waited < decision.retry_after
          → allowed_at interval policy after (now + waited) ≡ some false)
      × (allowed_at interval policy after (now + decision.retry_after) ≡ some true)
retry_after_lem interval policy now bucket after decision e h =
    let (fine, same) = consumed interval policy now bucket (after, decision) e in
    go bucket fine same
      (sym (decide_allowed emission tolerance bucket now) ∙ ap (λ r. r.1.is_allowed) same ∙ h)
  where
    emission : ℕ
    emission = emission_interval interval policy

    tolerance : ℕ
    tolerance = delay_tolerance interval policy

    go :
        (before : Option ℕ)
        → raises policy ≡ false
        → decide emission tolerance before now ≡ (after, decision)
        → is_some (granted_arrival emission tolerance before now) ≡ false
        → (after ≡ before)
          × (0 < decision.retry_after)
          × ((waited : ℕ)
              → waited < decision.retry_after
              → allowed_at interval policy after (now + waited) ≡ some false)
          × (allowed_at interval policy after (now + decision.retry_after) ≡ some true)
    go none fine same refused = absurd (cc refused)
    go (some arrival) fine same refused =
        let none_granted =
          is_none (granted_arrival emission tolerance (some arrival) now) refused in
        let answer = sym same ∙ decide_refused emission tolerance (some arrival) now none_granted in
        let waits_same : decision.retry_after ≡ waits emission tolerance arrival now =
          ap (λ r. r.1.retry_after) answer in
        let (positive, earlier, then_granted) =
          refused_until emission tolerance arrival now
            (tolerance_bound emission policy.burst_allowance) none_granted in
        rw (ap (λ r. r.0) answer, waits_same)
          (
            refl,
            positive,
            (λ waited k.
                allowed-at-granted interval policy (some arrival) (now + waited) fine
                ∙ ap some (earlier waited k)),
            allowed-at-granted interval policy (some arrival)
                  (now + waits emission tolerance arrival now) fine
                ∙ ap some then_granted,
          )
      where
        is_none : (o : Option ℕ) → is_some o ≡ false → o ≡ none
        is_none none e = refl
        is_none (some a) e = absurd (cc e)
