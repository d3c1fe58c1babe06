-- ===== src/Database/IdempotencyKeys.antt =====
-- packages/database/src/repositories/idempotency-key.repository.ts: the claims on the keys that
-- clients send.
use whatsapp_notification_pl.Prelude.{
  ℕ, Bool, true, false, not, ◌&&◌, Option, none, some, List, [], ◌∷◌, ◌++◌, ltb, ◌==◌, length, take,
  find?, filter, any, update_where, Text, text_eq,
}
use whatsapp_notification_pl.Database.Records.{IdempotencyKey, in_flight, completed, Database}

pub record IdempotencyClaimInput : Type 0 where
  pub application_id : ℕ
  pub key : Text
  pub request_path : Text
  pub request_fingerprint : Text
  pub lock_token : ℕ
  pub expires_at : ℕ

pub data IdempotencyClaim : Type 0 where
  claimed : (id lock_token : ℕ) → IdempotencyClaim
  exists_already : IdempotencyKey → IdempotencyClaim

abbrev pub holds_key : (application_id : ℕ) → (key : Text) → IdempotencyKey → Bool
holds_key application_id key row = row.application_id == application_id && text_eq row.key key

abbrev pub find_key : (application_id : ℕ) → (key : Text) → Database → Option IdempotencyKey
find_key application_id key db = find? (holds_key application_id key) db.idempotency_keys

-- `state: 'IN_FLIGHT'`; the database draws the row's identifier.
abbrev pub claimed_row : (id : ℕ) → IdempotencyClaimInput → IdempotencyKey
claimed_row id input = record {
  id = id;
  application_id = input.application_id;
  key = input.key;
  request_path = input.request_path;
  request_fingerprint = input.request_fingerprint;
  state = in_flight;
  lock_token = input.lock_token;
  notification_ids = none;
  resource_id = none;
  expires_at = input.expires_at;
}

-- The row that a deletion of expired keys commits away while the claim is under way, if any.
abbrev pub reap : Option ℕ → Database → Database
reap none db = db
reap (some id) db = record db {
  idempotency_keys = filter (λ row. not (row.id == id)) db.idempotency_keys;
}

-- What the second statement reads, where the insertion met a row of the key.
abbrev pub read_claim : IdempotencyClaimInput → Option IdempotencyKey → IdempotencyClaim
read_claim input none = claimed input.lock_token input.lock_token
read_claim input (some existing) = exists_already existing

unfoldable pub claim :
    (id : ℕ) → (reaped : Option ℕ) → IdempotencyClaimInput → Database → Database × IdempotencyClaim
claim id reaped input db =
    let later = reap reaped db in
    elim (find_key input.application_id input.key db) [
      | none ↦ (
        record later { idempotency_keys = later.idempotency_keys ++ claimed_row id input ∷ [] },
        claimed id input.lock_token,
      )
      | some conflicting ↦ (later, read_claim input (find_key input.application_id input.key later))
    ]

-- `notification_ids` and `resource_id` are what the response's body and the column record.
abbrev pub complete_row : Option (List ℕ) → Option ℕ → IdempotencyKey → IdempotencyKey
complete_row notification_ids resource_id row = record row {
  state = completed;
  notification_ids = notification_ids;
  resource_id = resource_id;
}

unfoldable pub complete :
    (id lock_token : ℕ)
    → (notification_ids : Option (List ℕ)) → (resource_id : Option ℕ) → Database
    → Database
complete id lock_token notification_ids resource_id db = record db {
  idempotency_keys =
      update_where (λ row. row.id == id && row.lock_token == lock_token)
        (complete_row notification_ids resource_id) db.idempotency_keys;
}

abbrev pub is_stale_claim : (id observed_lock_token : ℕ) → IdempotencyKey → Bool
is_stale_claim id observed_lock_token row =
    row.id == id
    && (row.lock_token == observed_lock_token
        && elim row.state [ in_flight ↦ true | completed ↦ false ])

-- The result tells whether the takeover is this caller's; the time of creation is left out.
unfoldable pub take_over_stale_claim :
    (id observed_lock_token new_lock_token : ℕ) → Database → Database × Bool
take_over_stale_claim id observed_lock_token new_lock_token db = (
  record db {
    idempotency_keys =
        update_where (is_stale_claim id observed_lock_token)
          (λ row. record row { lock_token = new_lock_token }) db.idempotency_keys;
  },
  any (is_stale_claim id observed_lock_token) db.idempotency_keys,
)

-- The statement has no order: which of the expired rows are within the limit is the database's
-- choice, here the first.
unfoldable pub delete_expired : (now batch_size : ℕ) → Database → Database × ℕ
delete_expired now batch_size db =
    let expired =
      take batch_size
        (filter (λ (row : IdempotencyKey). ltb row.expires_at now) db.idempotency_keys) in
    (
      record db {
        idempotency_keys =
            filter (λ row. not (any (λ (other : IdempotencyKey). other.id == row.id) expired))
              db.idempotency_keys;
      },
      length expired,
    )
