-- ===== src/Examples/RateLimits.antt =====
-- The theorems on the rate limit at concrete inputs: the allowance of sign-ins.
use whatsapp_notification_pl.Prelude.{
  replicate, List, codes, ℕ, Option, ◌+◌, ◌*◌, ◌/◌, ◌≤◌, ◌<◌, ◌≡◌, refl, true, false, none, some,
  [], ◌∷◌, arith,
}
use whatsapp_notification_pl.Services.RateLimits
use whatsapp_notification_pl.Services.RateLimits.Pruning.{prune-consume}
use whatsapp_notification_pl.Database.RateLimits.{
  RateLimitPolicy, RateLimitBucket, bucket_of, prune, IntervalOf, consume, emission_interval,
  delay_tolerance,
}
use whatsapp_notification_pl.Database.RateLimits.Laws.{granted, granted_bound}
use whatsapp_notification_pl.Database.RateLimits.Retry.{allowed_at, retry_after_lem}
use whatsapp_notification_pl.Database.RateLimits.LeakyBucket.{
  decisions, pour_all, decisions-pour_all,
}
use whatsapp_notification_pl.Services.RateLimits.{sign_in_policy}

abbrev microseconds : IntervalOf
microseconds period_seconds requests_per_period = period_seconds * 1000000 / requests_per_period

granted_bound_example :
    granted microseconds sign_in_policy none (5 ∷ 6 ∷ 7 ∷ [])
      * emission_interval microseconds sign_in_policy
    ≤ 10 + delay_tolerance microseconds sign_in_policy
granted_bound_example =
    granted_bound microseconds sign_in_policy none (5 ∷ 6 ∷ 7 ∷ []) 0 10
      ((omega arith, omega arith), ((omega arith, omega arith), ((omega arith, omega arith), tt)))

-- A bucket a minute ahead of the clock.
abbrev bucket : Option ℕ
bucket = some 60000007

retry_after_lem_example :
    (bucket ≡ bucket)
    × (0 < 36000000)
    × ((waited : ℕ)
        → waited < 36000000
        → allowed_at microseconds sign_in_policy bucket (7 + waited) ≡ some false)
    × (allowed_at microseconds sign_in_policy bucket (7 + 36000000) ≡ some true)
unfolding consume
retry_after_lem_example =
    retry_after_lem microseconds sign_in_policy 7 bucket bucket
      (record {
        is_allowed = false;
        remaining_requests = 0;
        retry_after = 36000000;
        resets_after = 60000000;
      })
      refl refl

-- Seven requests at once and one after a pause: five, the burst allowance, and the last are granted.
decisions-pour_all_example :
    decisions microseconds sign_in_policy none (5 ∷ 5 ∷ 5 ∷ 5 ∷ 5 ∷ 5 ∷ 5 ∷ 6000005 ∷ [])
    ≡ pour_all 6000000 30000000
        (record { level = 0; poured_at = 0 })
        (5 ∷ 5 ∷ 5 ∷ 5 ∷ 5 ∷ 5 ∷ 5 ∷ 6000005 ∷ [])
decisions-pour_all_example =
    decisions-pour_all microseconds sign_in_policy none (record { level = 0; poured_at = 0 })
      (5 ∷ 5 ∷ 5 ∷ 5 ∷ 5 ∷ 5 ∷ 5 ∷ 6000005 ∷ []) (omega arith) (omega arith) refl
      (
        omega arith,
        (
          omega arith,
          (
            omega arith,
            (omega arith, (omega arith, (omega arith, (omega arith, (omega arith, tt))))),
          ),
        ),
      )

decisions_test :
    decisions microseconds sign_in_policy none (5 ∷ 5 ∷ 5 ∷ 5 ∷ 5 ∷ 5 ∷ 5 ∷ 6000005 ∷ [])
    ≡ true ∷ true ∷ true ∷ true ∷ true ∷ false ∷ false ∷ true ∷ []
unfolding consume
decisions_test = refl

-- Two rows; the older was last used more than an hour before.
abbrev rows : List RateLimitBucket
rows =
    record { subject = codes "a"; theoretical_arrival_at = 6_000_005; updated_at = 5 }
    ∷ record {
      subject = codes "b";
      theoretical_arrival_at = 3_606_000_000;
      updated_at = 3_600_000_000;
    }
    ∷ []

prune-consume_example :
    consume microseconds sign_in_policy 3_700_000_000
      (bucket_of (codes "a") (RateLimits.prune 3_650_000_000 3600 rows).0)
    ≡ consume microseconds sign_in_policy 3_700_000_000 (bucket_of (codes "a") rows)
prune-consume_example =
    prune-consume microseconds sign_in_policy 3_650_000_000 3600 3_700_000_000 (codes "a") rows
      ((refl, tt), (tt, tt)) (omega arith, (omega arith, tt)) (omega arith) (omega arith)
      (omega arith)

-- An application may be given one request a minute and a burst of a thousand. An hour and a minute
-- after the burst, its row allows sixty-one requests at once, and without the row there are more.
abbrev slow_policy : RateLimitPolicy
slow_policy = record { requests_per_period = 1; burst_allowance = 1000; period_seconds = 60 }

abbrev spent : List RateLimitBucket
spent = record { subject = codes "a"; theoretical_arrival_at = 60_000_000_000; updated_at = 0 } ∷ []

remembered_test :
    granted microseconds slow_policy (bucket_of (codes "a") spent) (replicate 70 3_660_000_000) ≡ 61
unfolding consume
remembered_test = refl

forgotten_test :
    granted microseconds slow_policy
      (bucket_of (codes "a") (RateLimits.prune 3_660_000_000 3600 spent).0)
      (replicate 70 3_660_000_000)
    ≡ 70
unfolding consume RateLimits.prune prune
forgotten_test = refl
