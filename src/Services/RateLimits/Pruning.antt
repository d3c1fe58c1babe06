-- ===== src/Services/RateLimits/Pruning.antt =====
-- What is lost with the rows that are pruned.
use whatsapp_notification_pl.Prelude.{
  ℕ, ◌+◌, ◌-◌, ◌*◌, ◌≤◌, ◌≡◌, refl, sym, ap, Bool, true, false, not, ◌||◌, Option, none, some, List,
  [], ◌∷◌, arith, ltb, ◌==◌, if◌then◌else◌, map_option, find?, filter, All, Text, text_eq,
  text_eq_lem, ltb→lt,
}
use whatsapp_notification_pl.Database.RateLimits.{
  RateLimitPolicy, IntervalOf, RateLimitBucket, emission_interval, delay_tolerance, granted_arrival,
  decide, consume, prune, is_of, arrival_of, bucket_of,
}
use whatsapp_notification_pl.Services.RateLimits
use whatsapp_notification_pl.Database.RateLimits.Laws.{tolerance_bound}

-- The primary key.
abbrev pub HasUniqueSubjects : List RateLimitBucket → Type 0
HasUniqueSubjects [] = Unit
HasUniqueSubjects (row ∷ rows) =
    All (λ other. text_eq other.subject row.subject ≡ false) rows × HasUniqueSubjects rows

-- What every grant leaves: no more ahead of its time than the tolerance.
abbrev pub IsWithinTolerance : (tolerance : ℕ) → RateLimitBucket → Type 0
IsWithinTolerance tolerance row = row.theoretical_arrival_at ≤ row.updated_at + tolerance

-- A bucket that has run empty is as good as none.
granted-arrival-empty :
    (emission tolerance arrival now : ℕ)
    → emission ≤ tolerance
    → arrival ≤ now
    → granted_arrival emission tolerance (some arrival) now
      ≡ granted_arrival emission tolerance none now
granted-arrival-empty emission tolerance arrival now h k = ground arith

decide-empty :
    (emission tolerance arrival now : ℕ)
    → emission ≤ tolerance
    → arrival ≤ now
    → decide emission tolerance (some arrival) now ≡ decide emission tolerance none now
decide-empty emission tolerance arrival now h k =
    rw (decide, granted-arrival-empty emission tolerance arrival now h k) refl

-- The buckets of a subject before and after differ only if what is gone was empty.
data Forgets (now : ℕ) : Option ℕ → Option ℕ → Type 0 where
  same : (bucket : Option ℕ) → Forgets now bucket bucket
  empty : (arrival : ℕ) → arrival ≤ now → Forgets now (some arrival) none

find-apart :
    (p : RateLimitBucket → Bool) (subject : Text) (rows : List RateLimitBucket)
    → All (λ other. text_eq other.subject subject ≡ false) rows
    → bucket_of subject (filter p rows) ≡ none
find-apart p subject [] u = refl
find-apart p subject (r ∷ rows) (u, us) = go (find-apart p subject rows us) (p r)
  where
    go :
        bucket_of subject (filter p rows) ≡ none
        → (b : Bool) → bucket_of subject (if b then r ∷ filter p rows else filter p rows) ≡ none
    go rest true = rw (u) rest
    go rest false = rest

bucket-of-prune :
    (tolerance older_than now : ℕ) (subject : Text) (rows : List RateLimitBucket)
    → older_than + tolerance ≤ now
    → HasUniqueSubjects rows
    → All (IsWithinTolerance tolerance) rows
    → Forgets now (bucket_of subject rows) (bucket_of subject (prune older_than rows).0)
unfolding prune
bucket-of-prune tolerance older_than now subject [] h u w = same none
bucket-of-prune tolerance older_than now subject (row ∷ rows) h (u, us) (w, ws) =
    go (text_eq row.subject subject) (ltb row.updated_at older_than) refl refl
      (bucket-of-prune tolerance older_than now subject rows h us ws)
  where
    recent : List RateLimitBucket
    recent = filter (λ r. not (ltb r.updated_at older_than)) rows

    go :
        (b k : Bool)
        → text_eq row.subject subject ≡ b
        → ltb row.updated_at older_than ≡ k
        → Forgets now (bucket_of subject rows) (bucket_of subject recent)
        → Forgets now
            (map_option arrival_of
              (if text_eq row.subject subject then some row else find? (is_of subject) rows))
            (bucket_of subject (if not k then row ∷ recent else recent))
    go false true e l rest = rw (e) rest
    go false false e l rest = rw (e) rest
    go true false e l rest = rw (e) (same (some row.theoretical_arrival_at))
    go true true e l rest =
        rw
          (
            e,
            find-apart (λ r. not (ltb r.updated_at older_than)) subject rows
                (rw (sym (text_eq_lem row.subject subject e)) u),
          )
          (empty row.theoretical_arrival_at (omega (arith, ltb→lt _ _ l, w)))

-- A policy that raises raises with any bucket.
consume-Forgets :
    (interval : IntervalOf) (policy : RateLimitPolicy) (now : ℕ) {before after : Option ℕ}
    → Forgets now before after
    → consume interval policy now after ≡ consume interval policy now before
unfolding consume
consume-Forgets interval policy now (same bucket) = refl
consume-Forgets interval policy now (empty arrival h) =
    ap
      (λ result.
        if policy.requests_per_period == 0 || policy.period_seconds == 0 then none else some result)
      (sym (
        decide-empty (emission_interval interval policy) (delay_tolerance interval policy) arrival
          now (tolerance_bound (emission_interval interval policy) policy.burst_allowance) h))

-- Pruning changes no answer: if the tolerance of a policy is over by the time for which rows are
-- kept, and no bucket is further ahead of its last request than that, every subject is answered at
-- any later time, and left with the bucket, as without the pruning.
pub prune-consume :
    (interval : IntervalOf) (policy : RateLimitPolicy) (pruned_at older_than_seconds now : ℕ)
    (subject : Text) (rows : List RateLimitBucket)
    → HasUniqueSubjects rows
    → All (IsWithinTolerance (delay_tolerance interval policy)) rows
    → delay_tolerance interval policy ≤ older_than_seconds * 1_000_000
    → older_than_seconds * 1_000_000 ≤ pruned_at
    → pruned_at ≤ now
    → consume interval policy now
        (bucket_of subject (RateLimits.prune pruned_at older_than_seconds rows).0)
      ≡ consume interval policy now (bucket_of subject rows)
unfolding RateLimits.prune
prune-consume interval policy pruned_at older_than_seconds now subject rows u w kept enough later =
    consume-Forgets interval policy now (
      bucket-of-prune (delay_tolerance interval policy) (pruned_at - older_than_seconds * 1_000_000)
        now subject rows (omega (arith, kept, enough, later)) u w)
