-- ===== src/Guarantees/Retries/Awaits.antt =====
-- Rows that wait for a retry, and how updates leave them.
use whatsapp_notification_pl.Prelude.{
  ℕ, ◌≡◌, refl, sym, ap, ◌≢◌, Bool, true, false, ◌&&◌, none, some, List, [], ◌∷◌, ◌++◌, arith, ◌==◌,
  if◌then◌else◌, ==_iff, get_or, is_just, find?, any, update_where, All,
}
use mathlib.Core.Path.{subst}
use whatsapp_notification_pl.Database.Records.{Notification, Job, Database}
use whatsapp_notification_pl.Database.Notifications.{Changes}
use whatsapp_notification_pl.Domain.Status.{NotificationStatus, retrying, ◌is◌}
use whatsapp_notification_pl.Database.Notifications.{apply_changes, has_key}
use whatsapp_notification_pl.Guarantees.Rows.{is-eq, &&-left, &&-right}

abbrev pub is_job_for : (id t : ℕ) → Job → Bool
is_job_for id t j = j.notification_id == id && is_just j.start_after t

-- A row that is RETRYING says when it is due, and a job for that very time was handed to the queue.
abbrev pub Awaited : List Job → Notification → Type 0
Awaited jobs r =
    r.status ≡ retrying
    → (t : ℕ) × (r.next_attempt_at ≡ some t) × (any (is_job_for r.id t) jobs ≡ true)

abbrev pub RetriesAwaited : Database → Type 0
RetriesAwaited db = All (Awaited db.jobs) db.notifications

abbrev pub Keeps : Database → Database → Type 0
Keeps db db' = RetriesAwaited db → RetriesAwaited db'

pub any-append : (p : Job → Bool) (xs ys : List Job) → any p xs ≡ true → any p (xs ++ ys) ≡ true
any-append p [] ys h = cc
any-append p (x ∷ xs) ys h = ground (arith, any-append p xs ys)

pub any-last : (p : Job → Bool) (xs : List Job) (x : Job) → p x ≡ true → any p (xs ++ x ∷ []) ≡ true
any-last p [] x h = ground arith
any-last p (y ∷ xs) x h = ground (arith, any-last p xs x h)

pub Awaited-more :
    (jobs more : List Job) (r : Notification) → Awaited jobs r → Awaited (jobs ++ more) r
Awaited-more jobs more r a h = let (t, e, j) = a h in (t, e, any-append _ jobs more j)

pub All-map :
    (P Q : Notification → Type 0) (rows : List Notification)
    → ((r : Notification) → P r → Q r)
    → All P rows
    → All Q rows
All-map P Q [] f h = tt
All-map P Q (r ∷ rows) f (p, h) = (f r p, All-map P Q rows f h)

-- Rows after an update: those that it met are as `f` leaves them.
pub All-update :
    (P Q : Notification → Type 0) (c : Notification → Bool) (f : Notification → Notification)
    (rows : List Notification)
    → ((r : Notification) → P r → Q r)
    → ((r : Notification) → c r ≡ true → P r → Q (f r))
    → All P rows
    → All Q (update_where c f rows)
All-update P Q c f [] keep met h = tt
All-update P Q c f (r ∷ rows) keep met (p, h) = (go (c r) refl, All-update P Q c f rows keep met h)
  where
    go : (b : Bool) → c r ≡ b → Q (if b then f r else r)
    go true e = met r e p
    go false e = keep r p

pub update-none :
    (c : Notification → Bool) (f : Notification → Notification) (rows : List Notification)
    → find? c rows ≡ none
    → update_where c f rows ≡ rows
update-none c f [] h = refl
update-none c f (r ∷ rows) h = ground (arith, update-none c f rows)

-- An update that leaves the awaited rows it does not meet, and makes awaited rows of the others.
pub transition-Awaits :
    (a n : ℕ) (s t : NotificationStatus) (c : Changes) (u : ℕ) (rows : List Notification)
    (jobs jobs' : List Job)
    → ((r : Notification) → Awaited jobs r → Awaited jobs' r)
    → ((r : Notification)
        → r.id ≡ n
        → r.status ≡ s
        → Awaited jobs r
        → Awaited jobs' (apply_changes t u c r))
    → All (Awaited jobs) rows
    → All
        (Awaited jobs')
        (update_where (λ r. has_key a n r && r.status is s) (apply_changes t u c) rows)
transition-Awaits a n s t c u rows jobs jobs' keep met h =
    All-update (Awaited jobs) (Awaited jobs') _ _ rows keep
      (λ r e p.
        met r
          ((==_iff r.id n).0 (&&-left (r.id == n) _ (&&-left (has_key a n r) (r.status is s) e)))
          (is-eq r.status s (&&-right (has_key a n r) _ e)) p)
      h

-- A move to another status than RETRYING leaves nothing to wait for.
pub leaves-Awaits :
    (a n : ℕ) (s t : NotificationStatus) (c : Changes) (u : ℕ) (rows : List Notification)
    (jobs : List Job)
    → t ≢ retrying
    → All (Awaited jobs) rows
    → All
        (Awaited jobs)
        (update_where (λ r. has_key a n r && r.status is s) (apply_changes t u c) rows)
leaves-Awaits a n s t c u rows jobs away =
    transition-Awaits a n s t c u rows jobs jobs (λ r p. p) (λ r e₁ e₂ p h. absurd (away h))

-- A move to RETRYING that sets the due time, with a job for that time.
pub waits-Awaits :
    (a n : ℕ) (s t : NotificationStatus) (c : Changes) (u due : ℕ) (j : Job)
    (rows : List Notification) (jobs : List Job)
    → c.next_attempt_at ≡ some (some due)
    → is_job_for n due j ≡ true
    → All (Awaited jobs) rows
    → All
        (Awaited (jobs ++ j ∷ []))
        (update_where (λ r. has_key a n r && r.status is s) (apply_changes t u c) rows)
waits-Awaits a n s t c u due j rows jobs e k =
    transition-Awaits a n s t c u rows jobs (jobs ++ j ∷ []) (Awaited-more jobs (j ∷ []))
      (λ r same e₂ p h. (
        due,
        ap (λ o. get_or o r.next_attempt_at) e,
        any-last _ jobs j (subst (λ i. is_job_for i due j ≡ true) (sym same) k),
      ))
