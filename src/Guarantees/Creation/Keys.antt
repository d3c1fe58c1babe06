-- ===== src/Guarantees/Creation/Keys.antt =====
-- An idempotency key from its first claim to its completion.
use whatsapp_notification_pl.Prelude.{
  ℕ, ◌+◌, ◌*◌, ◌≡◌, refl, ap, ◌∙◌, Bool, true, false, ◌&&◌, Option, none, some, List, [], ◌∷◌, ◌++◌,
  arith, ◌==◌, if◌then◌else◌, get_or, find?, update_where, Text, text_eq, text_eq_refl,
}
use whatsapp_notification_pl.Database.Records.{IdempotencyKey, completed, Database}
use whatsapp_notification_pl.Database.Transaction.{ok, error}
use whatsapp_notification_pl.Database.IdempotencyKeys.{
  IdempotencyClaimInput, IdempotencyClaim, claimed, exists_already, find_key, holds_key,
  claimed_row, complete_row, reap, claim, complete,
}
use whatsapp_notification_pl.Database.IdempotencyKeys
use whatsapp_notification_pl.Services.Creation.Requests.{
  NotificationRequest, Generated, idempotency_key_reused,
}
use whatsapp_notification_pl.Services.Creation.Claiming.{
  idempotency_window_hours, completed_claim, claim_idempotency_key,
}

-- A row that is appended where none met a condition, and then changed, is the first to meet it.
find-update_where :
    {A : Type 0} (p q : A → Bool) (f : A → A) (xs : List A) (x : A)
    → ((y : A) → p (f y) ≡ p y)
    → find? p xs ≡ none
    → p x ≡ true
    → q x ≡ true
    → find? p (update_where q f (xs ++ x ∷ [])) ≡ some (f x)
find-update_where p q f [] x keeps h e e' = rw (e', keeps x, e)
find-update_where p q f (y ∷ xs) x keeps h e e' =
    go (p y) refl h (λ n. find-update_where p q f xs x keeps n e e')
  where
    same : (b : Bool) → p (if b then f y else y) ≡ p y
    same true = keeps y
    same false = refl

    go :
        (b : Bool)
        → p y ≡ b
        → (if b then some y else find? p xs) ≡ none
        → (find? p xs ≡ none → find? p (update_where q f (xs ++ x ∷ [])) ≡ some (f x))
        → (if p (if q y then f y else y)
            then some (if q y then f y else y)
            else find? p (update_where q f (xs ++ x ∷ [])))
          ≡ some (f x)
    go true k n later = cc
    go false k n later = rw (same (q y), k) (later n)

-- The claim of a key that a row holds reads that row.
claim-found :
    (id : ℕ) (input : IdempotencyClaimInput) (db : Database) (row : IdempotencyKey)
    → find_key input.application_id input.key db ≡ some row
    → claim id none input db ≡ (db, exists_already row)
unfolding claim
claim-found id input db row h = go (find_key input.application_id input.key db) h
  where
    go :
        (o : Option IdempotencyKey)
        → o ≡ some row
        → elim o as (λ _. Database × IdempotencyClaim) [
          | none ↦ (
            record db { idempotency_keys = db.idempotency_keys ++ claimed_row id input ∷ [] },
            claimed id input.lock_token,
          )
          | some conflicting ↦ (db, IdempotencyKeys.read_claim input o)
        ]
          ≡ (db, exists_already row)
    go none e = cc
    go (some other) e =
        ap (λ (r : IdempotencyKey). (db, exists_already r))
          (ap (λ (o : Option IdempotencyKey). get_or o row) e)

-- A key is recorded: a request with it and this fingerprint is answered from the row.
pub record IsRecorded (application_id : ℕ) (key fingerprint : Text) (db : Database)
    (row : IdempotencyKey) : Type 0 where
  pub found : find_key application_id key db ≡ some row
  pub matching : text_eq row.request_fingerprint fingerprint ≡ true
  pub is_completed : row.state ≡ completed

pub equal_refl : (n : ℕ) → (n == n) ≡ true
equal_refl n = ground arith

-- A key that was claimed first and then completed is recorded.
pub first-IsRecorded :
    (application_id id : ℕ) (input : IdempotencyClaimInput) (ids : Option (List ℕ))
    (resource_id : Option ℕ) (db db' : Database)
    → input.application_id ≡ application_id
    → find_key application_id input.key db ≡ none
    → db'.idempotency_keys
      ≡ update_where
          (λ row. row.id == id && row.lock_token == input.lock_token)
          (complete_row ids resource_id)
          (db.idempotency_keys ++ claimed_row id input ∷ [])
    → IsRecorded application_id input.key input.request_fingerprint db'
        (complete_row ids resource_id (claimed_row id input))
first-IsRecorded application_id id input ids resource_id db db' same_app absent keys = record {
  found =
      ap (find? (holds_key application_id input.key)) keys
      ∙ find-update_where (holds_key application_id input.key)
          (λ row. row.id == id && row.lock_token == input.lock_token) (complete_row ids resource_id)
          db.idempotency_keys (claimed_row id input) (λ y. refl) absent
          (rw (same_app, equal_refl application_id, text_eq_refl input.key))
          (rw (equal_refl id, equal_refl input.lock_token));
  matching = text_eq_refl input.request_fingerprint;
  is_completed = refl;
}

-- A claim of a recorded key tells what was recorded, and changes nothing.
pub claim_recorded :
    (generated : Generated) (request : NotificationRequest) (fingerprint : Text) (now : ℕ)
    (db : Database) (key : Text) (row : IdempotencyKey)
    → generated.reaped ≡ none
    → request.idempotency_key ≡ some key
    → IsRecorded request.application_id key fingerprint db row
    → claim_idempotency_key generated request fingerprint now db
      ≡ ok (db, completed_claim row.resource_id row.notification_ids)
unfolding claim_idempotency_key claim
claim_recorded generated request fingerprint now db key row unreaped named r = rw (
  named,
  unreaped,
  claim-found generated.idempotency_key_id
      (record {
        application_id = request.application_id;
        key = key;
        request_path = request.request_path;
        request_fingerprint = fingerprint;
        lock_token = generated.lock_token;
        expires_at = now + idempotency_window_hours * 3_600_000;
      })
      db row r.found,
  r.matching,
  r.is_completed,
)

-- A claim of a key that another request has recorded throws.
pub claim_reused :
    (generated : Generated) (request : NotificationRequest) (fingerprint : Text) (now : ℕ)
    (db : Database) (key : Text) (row : IdempotencyKey)
    → generated.reaped ≡ none
    → request.idempotency_key ≡ some key
    → find_key request.application_id key db ≡ some row
    → text_eq row.request_fingerprint fingerprint ≡ false
    → claim_idempotency_key generated request fingerprint now db ≡ error idempotency_key_reused
unfolding claim_idempotency_key claim
claim_reused generated request fingerprint now db key row unreaped named found other = rw (
  named,
  unreaped,
  claim-found generated.idempotency_key_id
      (record {
        application_id = request.application_id;
        key = key;
        request_path = request.request_path;
        request_fingerprint = fingerprint;
        lock_token = generated.lock_token;
        expires_at = now + idempotency_window_hours * 3_600_000;
      })
      db row found,
  other,
)
