-- ===== src/Database/RateLimits/Laws.antt =====
-- How many requests a policy lets through.
use whatsapp_notification_pl.Prelude.{
  ℕ, zero, suc, ◌+◌, ◌*◌, ◌≤◌, max, ◌≡◌, refl, ap, ◌⊎◌, inl, inr, Bool, true, false, ◌||◌, Option,
  none, some, List, [], ◌∷◌, arith, ◌==◌, if◌then◌else◌, get_or, All,
}
use whatsapp_notification_pl.Database.RateLimits.{
  RateLimitPolicy, RateLimitDecision, IntervalOf, emission_interval, delay_tolerance,
  granted_arrival, granted_decision, refused_decision, consume,
}

-- The number of the requests at these times, one after the other, that are granted; a policy that
-- raises grants none.
abbrev pub granted : IntervalOf → RateLimitPolicy → (bucket : Option ℕ) → (times : List ℕ) → ℕ
granted interval policy bucket [] = 0
granted interval policy bucket (now ∷ times) = elim (consume interval policy now bucket) [
  | none ↦ 0
  | some result ↦
      let later = granted interval policy result.0 times in
      if result.1.is_allowed then suc later else later
]

abbrev grants : (emission tolerance : ℕ) → (bucket : Option ℕ) → (times : List ℕ) → ℕ
grants emission tolerance bucket [] = 0
grants emission tolerance bucket (now ∷ times) =
    elim (granted_arrival emission tolerance bucket now) [
      | none ↦ grants emission tolerance bucket times
      | some arrival ↦ suc (grants emission tolerance (some arrival) times)
    ]

granted-arrival_bounds :
    (emission tolerance : ℕ) (bucket : Option ℕ) (now level start arrival : ℕ)
    → emission ≤ tolerance
    → start ≤ now
    → level ≤ max (get_or bucket 0) start
    → granted_arrival emission tolerance bucket now ≡ some arrival
    → (level + emission ≤ arrival) × (arrival ≤ now + tolerance)
granted-arrival_bounds emission tolerance none now level start arrival h k l e = ground arith
granted-arrival_bounds emission tolerance (some before) now level start arrival h k l e =
    ground arith

-- Within a window that begins at `start`.
abbrev pub IsWithin : (start window : ℕ) → ℕ → Type 0
IsWithin start window time = (start ≤ time) × (time ≤ start + window)

suc_times : (c e : ℕ) → suc c * e ≡ e + c * e
suc_times c e = omega arith

grants_bound :
    (emission tolerance : ℕ) (bucket : Option ℕ) (times : List ℕ) (level start window : ℕ)
    → emission ≤ tolerance
    → All (IsWithin start window) times
    → level ≤ max (get_or bucket 0) start
    → (grants emission tolerance bucket times ≡ 0)
      ⊎ (level + grants emission tolerance bucket times * emission ≤ start + window + tolerance)
grants_bound emission tolerance bucket [] level start window h k l = inl refl
grants_bound emission tolerance bucket (now ∷ times) level start window h ((after, before), ks) l =
    go (granted_arrival emission tolerance bucket now) refl
      (grants_bound emission tolerance bucket times level start window h ks l)
      (λ arrival m.
        grants_bound emission tolerance (some arrival) times (level + emission) start window h ks m)
  where
    step :
        (arrival c : ℕ)
        → level + emission ≤ arrival
        → arrival ≤ now + tolerance
        → (c ≡ 0) ⊎ (level + emission + c * emission ≤ start + window + tolerance)
        → level + suc c * emission ≤ start + window + tolerance
    step arrival c low high (inl none_later) =
        omega
          (arith, suc_times c emission, ap (λ (n : ℕ). n * emission) none_later, low, high, before)
    step arrival c low high (inr some_later) = omega (arith, suc_times c emission, some_later)

    go :
        (o : Option ℕ)
        → granted_arrival emission tolerance bucket now ≡ o
        → (grants emission tolerance bucket times ≡ 0)
          ⊎ (level + grants emission tolerance bucket times * emission ≤ start + window + tolerance)
        → ((arrival : ℕ)
            → level + emission ≤ max arrival start
            → (grants emission tolerance (some arrival) times ≡ 0)
              ⊎ (level + emission + grants emission tolerance (some arrival) times * emission
                  ≤ start + window + tolerance))
        → ((elim o as (λ _. ℕ) [
          | none ↦ grants emission tolerance bucket times
          | some arrival ↦ suc (grants emission tolerance (some arrival) times)
        ])
            ≡ 0)
          ⊎ (level
                + (elim o as (λ _. ℕ) [
                  | none ↦ grants emission tolerance bucket times
                  | some arrival ↦ suc (grants emission tolerance (some arrival) times)
                ])
                  * emission
              ≤ start + window + tolerance)
    go none e same later = same
    go (some arrival) e same later =
        let (low, high) =
          granted-arrival_bounds emission tolerance bucket now level start arrival h after l e in
        inr (
          step arrival (grants emission tolerance (some arrival) times) low high
            (later arrival (omega (arith, low))))

-- A policy that raises grants nothing, and any other what its interval and tolerance grant.
granted-grants :
    (interval : IntervalOf) (policy : RateLimitPolicy) (bucket : Option ℕ) (times : List ℕ)
    → granted interval policy bucket times
      ≤ grants (emission_interval interval policy) (delay_tolerance interval policy) bucket times
unfolding consume
granted-grants interval policy bucket [] = omega arith
granted-grants interval policy bucket (now ∷ times) =
    go (policy.requests_per_period == 0 || policy.period_seconds == 0)
      (granted_arrival emission tolerance bucket now) (granted-grants interval policy bucket times)
      (λ arrival. granted-grants interval policy (some arrival) times)
  where
    emission : ℕ
    emission = emission_interval interval policy

    tolerance : ℕ
    tolerance = delay_tolerance interval policy

    go :
        (raises : Bool) (o : Option ℕ)
        → granted interval policy bucket times ≤ grants emission tolerance bucket times
        → ((arrival : ℕ)
            → granted interval policy (some arrival) times
              ≤ grants emission tolerance (some arrival) times)
        → (elim (if raises
              then none
              else some (elim o as (λ _. Option ℕ × RateLimitDecision) [
                | some arrival ↦ (some arrival, granted_decision emission tolerance arrival now)
                | none ↦ (bucket, refused_decision emission tolerance bucket now)
              ]))
            as (λ _. ℕ) [
              | none ↦ 0
              | some result ↦
                  let later = granted interval policy result.0 times in
                  if result.1.is_allowed then suc later else later
            ])
          ≤ elim o as (λ _. ℕ) [
            | none ↦ grants emission tolerance bucket times
            | some arrival ↦ suc (grants emission tolerance (some arrival) times)
          ]
    go true o same later = omega arith
    go false none same later = same
    go false (some arrival) same later = omega (arith, later arrival)

times_mono : (a c e : ℕ) → a ≤ c → a * e ≤ c * e
times_mono zero c e h = omega arith
times_mono (suc a) zero e h = omega (arith, h)
times_mono (suc a) (suc c) e h =
    omega (arith, times_mono a c e (omega (arith, h)), suc_times a e, suc_times c e)

pub tolerance_bound : (e burst : ℕ) → e ≤ e * max burst 1
tolerance_bound e zero = omega arith
tolerance_bound e (suc burst) = rw (is_max burst) (omega (arith, expand burst))
  where
    is_max : (k : ℕ) → max (suc k) 1 ≡ suc k
    is_max k = omega arith

    expand : (k : ℕ) → e * suc k ≡ e + e * k
    expand k = omega arith

-- In a window of any length, whatever the requests and whenever they come, a policy grants one
-- subject no more requests than fit the window with the burst allowance: their emission intervals
-- together are no longer than the window and the tolerance, which is an interval for each request
-- of the allowance. No request of the window comes before its start or after its end.
pub granted_bound :
    (interval : IntervalOf) (policy : RateLimitPolicy) (bucket : Option ℕ) (times : List ℕ)
    (start window : ℕ)
    → All (IsWithin start window) times
    → granted interval policy bucket times * emission_interval interval policy
      ≤ window + delay_tolerance interval policy
granted_bound interval policy bucket times start window h = go (
    grants_bound emission tolerance bucket times start start window
      (tolerance_bound emission policy.burst_allowance) h (omega arith))
  where
    emission : ℕ
    emission = emission_interval interval policy

    tolerance : ℕ
    tolerance = delay_tolerance interval policy

    fewer :
        granted interval policy bucket times * emission
        ≤ grants emission tolerance bucket times * emission
    fewer =
        times_mono (granted interval policy bucket times) (grants emission tolerance bucket times)
          emission (granted-grants interval policy bucket times)

    go :
        (grants emission tolerance bucket times ≡ 0)
          ⊎ (start + grants emission tolerance bucket times * emission ≤ start + window + tolerance)
        → granted interval policy bucket times * emission ≤ window + tolerance
    go (inl nothing) = omega (arith, fewer, ap (λ (n : ℕ). n * emission) nothing)
    go (inr some_granted) = omega (arith, fewer, some_granted)
