-- ===== src/Database/RateLimits/LeakyBucket.antt =====
-- What the buckets of the database implement: a bucket that leaks at a constant rate.
use whatsapp_notification_pl.Prelude.{
  ℕ, ◌+◌, ◌-◌, ◌≤◌, ◌<◌, ◌≡◌, refl, ap, Bool, true, false, ◌||◌, Option, none, some, List, [], ◌∷◌,
  arith, ◌==◌, leb, if◌then◌else◌, is_some,
}
use whatsapp_notification_pl.Database.RateLimits.{
  RateLimitPolicy, RateLimitDecision, IntervalOf, emission_interval, delay_tolerance,
  granted_arrival, granted_decision, refused_decision, consume,
}
use whatsapp_notification_pl.Database.RateLimits.Laws.{tolerance_bound}

-- What was in it when it was last poured into; it loses one unit a microsecond.
pub record LeakyBucket : Type 0 where
  pub level : ℕ
  pub poured_at : ℕ

abbrev pub level_at : LeakyBucket → (now : ℕ) → ℕ
level_at leaky now = leaky.level - (now - leaky.poured_at)

-- A request pours an amount into it, unless that would overflow it.
abbrev pub fits : (amount capacity : ℕ) → LeakyBucket → (now : ℕ) → Bool
fits amount capacity leaky now = leb (level_at leaky now + amount) capacity

abbrev pub poured : (amount : ℕ) → LeakyBucket → (now : ℕ) → LeakyBucket
poured amount leaky now = record { level = level_at leaky now + amount; poured_at = now }

abbrev pub pour_all : (amount capacity : ℕ) → LeakyBucket → (times : List ℕ) → List Bool
pour_all amount capacity leaky [] = []
pour_all amount capacity leaky (now ∷ times) = elim (fits amount capacity leaky now) [
  | true ↦ true ∷ pour_all amount capacity (poured amount leaky now) times
  | false ↦ false ∷ pour_all amount capacity leaky times
]

-- The bucket in the database that stands for a leaky one.
abbrev pub Represents : (bucket : Option ℕ) → LeakyBucket → Type 0
Represents none leaky = leaky.level ≡ 0
Represents (some arrival) leaky = leaky.level ≡ arrival - leaky.poured_at

-- The times do not go back.
abbrev pub IsAscending : (start : ℕ) → (times : List ℕ) → Type 0
IsAscending start [] = Unit
IsAscending start (now ∷ times) = (start ≤ now) × IsAscending now times

-- The answers to requests at these times, up to one for which the function raises.
abbrev pub decisions :
    IntervalOf → RateLimitPolicy → (bucket : Option ℕ) → (times : List ℕ) → List Bool
decisions interval policy bucket [] = []
decisions interval policy bucket (now ∷ times) = elim (consume interval policy now bucket) [
  | none ↦ []
  | some result ↦ result.1.is_allowed ∷ decisions interval policy result.0 times
]

granted-arrival-fits :
    (emission tolerance : ℕ) (bucket : Option ℕ) (leaky : LeakyBucket) (now : ℕ)
    → emission ≤ tolerance
    → leaky.poured_at ≤ now
    → Represents bucket leaky
    → is_some (granted_arrival emission tolerance bucket now) ≡ fits emission tolerance leaky now
granted-arrival-fits emission tolerance none leaky now h k r = ground arith
granted-arrival-fits emission tolerance (some arrival) leaky now h k r = ground arith

granted-arrival-Represents :
    (emission tolerance : ℕ) (bucket : Option ℕ) (leaky : LeakyBucket) (now arrival : ℕ)
    → leaky.poured_at ≤ now
    → Represents bucket leaky
    → granted_arrival emission tolerance bucket now ≡ some arrival
    → Represents (some arrival) (poured emission leaky now)
granted-arrival-Represents emission tolerance none leaky now arrival k r e = ground arith
granted-arrival-Represents emission tolerance (some before) leaky now arrival k r e = ground arith

never_raises :
    (policy : RateLimitPolicy)
    → 0 < policy.requests_per_period
    → 0 < policy.period_seconds
    → (policy.requests_per_period == 0 || policy.period_seconds == 0) ≡ false
never_raises policy h k = ground arith

-- For a policy with a positive allowance and period, and requests whose times do not go back, the
-- rows of the database answer as the leaky bucket does into which every request pours its emission
-- interval and which holds the delay tolerance, if the row stands for the bucket when they begin.
pub decisions-pour_all :
    (interval : IntervalOf) (policy : RateLimitPolicy) (bucket : Option ℕ) (leaky : LeakyBucket)
    (times : List ℕ)
    → 0 < policy.requests_per_period
    → 0 < policy.period_seconds
    → Represents bucket leaky
    → IsAscending leaky.poured_at times
    → decisions interval policy bucket times
      ≡ pour_all (emission_interval interval policy) (delay_tolerance interval policy) leaky times
unfolding consume
decisions-pour_all interval policy bucket leaky [] h k r ascending = refl
decisions-pour_all interval policy bucket leaky (now ∷ times) h k r (after, ascending) =
    go (policy.requests_per_period == 0 || policy.period_seconds == 0)
      (granted_arrival emission tolerance bucket now) (fits emission tolerance leaky now)
      (never_raises policy h k)
      (granted-arrival-fits emission tolerance bucket leaky now
        (tolerance_bound emission policy.burst_allowance) after r)
      (decisions-pour_all interval policy bucket leaky times h k r
        (ascending_from times (omega arith) ascending))
      (λ arrival e.
        decisions-pour_all interval policy (some arrival) (poured emission leaky now) times h k
          (granted-arrival-Represents emission tolerance bucket leaky now arrival after r e)
          ascending)
      refl
  where
    emission : ℕ
    emission = emission_interval interval policy

    tolerance : ℕ
    tolerance = delay_tolerance interval policy

    ascending_from :
        (later : List ℕ)
        → leaky.poured_at ≤ now
        → IsAscending now later
        → IsAscending leaky.poured_at later
    ascending_from [] j a = a
    ascending_from (time ∷ later) j (before, a) = (omega (arith, j, before), a)

    go :
        (raises : Bool) (o : Option ℕ) (b : Bool)
        → raises ≡ false
        → is_some o ≡ b
        → decisions interval policy bucket times ≡ pour_all emission tolerance leaky times
        → ((arrival : ℕ)
            → granted_arrival emission tolerance bucket now ≡ some arrival
            → decisions interval policy (some arrival) times
              ≡ pour_all emission tolerance (poured emission leaky now) times)
        → granted_arrival emission tolerance bucket now ≡ o
        → (elim (if raises
              then none
              else some (elim o as (λ _. Option ℕ × RateLimitDecision) [
                | some arrival ↦ (some arrival, granted_decision emission tolerance arrival now)
                | none ↦ (bucket, refused_decision emission tolerance bucket now)
              ]))
            as (λ _. List Bool) [
              | none ↦ []
              | some result ↦ result.1.is_allowed ∷ decisions interval policy result.0 times
            ])
          ≡ elim b as (λ _. List Bool) [
            | true ↦ true ∷ pour_all emission tolerance (poured emission leaky now) times
            | false ↦ false ∷ pour_all emission tolerance leaky times
          ]
    go true o b fine same refused granted_then e = absurd (cc fine)
    go false none true fine same refused granted_then e = absurd (cc same)
    go false none false fine same refused granted_then e = ap (λ answers. false ∷ answers) refused
    go false (some arrival) true fine same refused granted_then e =
        ap (λ answers. true ∷ answers) (granted_then arrival e)
    go false (some arrival) false fine same refused granted_then e = absurd (cc same)
