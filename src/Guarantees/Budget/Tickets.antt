-- ===== src/Guarantees/Budget/Tickets.antt =====
-- An attempt that is counted pays for the message that it sends.
use whatsapp_notification_pl.Prelude.{
  ℕ, ◌+◌, ◌-◌, ◌≤◌, ◌≡◌, refl, ◌∙◌, inl, inr, Bool, true, false, ◌&&◌, Option, none, some, List,
  arith, ltb, leb, ◌==◌, if◌then◌else◌, leb→le, ==_iff, Bool-cases, Option-cases, is_just,
  map_option, find?, Text,
}
use whatsapp_notification_pl.Database.Records.{Notification, WhatsAppSession, Database}
use whatsapp_notification_pl.Domain.Status.{processing, ◌is◌}
use whatsapp_notification_pl.Domain.Failure.{maximum_attempts_exhausted, create_provider_failure}
use whatsapp_notification_pl.Configuration.{Configuration}
use whatsapp_notification_pl.Program.{
  Prog, ProviderResult, SendTextMessageInput, ◌>>=◌, atomic, send_text_message,
}
use whatsapp_notification_pl.Database.Records.{Database}
use whatsapp_notification_pl.Program.Logic.{Every}
use whatsapp_notification_pl.Services.Dispatch.{
  DispatchInput, ClaimResult, claimed, unclaimable, not_due, fail,
}
use whatsapp_notification_pl.Services.Dispatch.Sending.{
  handle_send_failure, attempt_transaction, record_sent, send_attempt, use_attempt,
}
use whatsapp_notification_pl.Contract.Waiting.{fail-Every}
use whatsapp_notification_pl.Contract.Sending.{handle_send_failure-Every, record_sent-Every}
use whatsapp_notification_pl.Database.Notifications.{has_key, begin_attempt}
use whatsapp_notification_pl.Guarantees.Rows.{Advances, &&-left, &&-right, find-true}
use whatsapp_notification_pl.Guarantees.Transactions.{attempt-notifications}
use whatsapp_notification_pl.Guarantees.Lifecycle.{Advances-admits}
use whatsapp_notification_pl.Guarantees.Budget.Attempts.{
  one_if, Moves-cap, Moves-SameMaximum, attempt-cap,
}
use whatsapp_notification_pl.Guarantees.Budget.Logic.{
  counted, Funded, Paid, >>=-Funded, quiet-Funded,
}

-- No program that this is about sends a message.
abbrev pub Silent : SendTextMessageInput → Type 0
Silent m = ⊥

module _ (id maximum : ℕ) where
  abbrev pub Known : Notification → Type 0
  Known n = n.id ≡ id → n.maximum_attempts ≡ maximum

  abbrev pub KnownClaim : ℕ → ClaimResult → Type 0
  KnownClaim t (claimed n) = Known n
  KnownClaim t unclaimable = Unit
  KnownClaim t (not_due due why) = Unit

  -- An attempt of the notification within the budget comes with a unit to pay for the message.
  abbrev pub Ticket : Notification → ℕ → Option ℕ → Type 0
  Ticket n t none = Unit
  Ticket n t (some k) = n.id ≡ id → k ≤ maximum → 1 ≤ t

  abbrev units : Notification → Option ℕ → ℕ
  units n none = 0
  units n (some k) = one_if (n.id == id && leb k maximum)

  pub after_quiet :
      {A B : Type 0} (t : ℕ) (p : Prog A) (f : A → Prog B)
      → Every Advances Silent p
      → ((u : ℕ) (a : A) → Funded id maximum (Paid id maximum) u (f a))
      → Funded id maximum (Paid id maximum) t (p >>= f)
  after_quiet t p f e h =
      >>=-Funded id maximum (Paid id maximum) (Paid id maximum) t p f
        (quiet-Funded id maximum t p e) (λ u a _. h u a)

  pub if-Funded :
      {A : Type 0} (t : ℕ) (b : Bool) (p q : Prog A)
      → (b ≡ true → Funded id maximum (Paid id maximum) t p)
      → (b ≡ false → Funded id maximum (Paid id maximum) t q)
      → Funded id maximum (Paid id maximum) t (if b then p else q)
  if-Funded t true p q e h = e refl
  if-Funded t false p q e h = h refl

  units-Ticket : (n : Notification) (t : ℕ) (o : Option ℕ) → Ticket n (units n o + t) o
  units-Ticket n t none = tt
  units-Ticket n t (some k) = λ same le. ground (arith, same, le)

  attempt-result :
      (n : Notification) (token : ℕ) (c : Text) (t : ℕ) (db : Database)
      → (attempt_transaction n token c t db).1
        ≡ map_option
            (λ r. r.attempt_count + 1)
            (find?
              (λ r.
                has_key n.application_id n.id r
                && (is_just r.claim_token token && r.status is processing))
              db.notifications)
  unfolding attempt_transaction begin_attempt
  attempt-result n token c t db = ground arith

  pay :
      (n : Notification) (t : ℕ)
      → (n.id ≡ id → 1 ≤ t)
      → (t - one_if (n.id == id)) + one_if (n.id == id) ≤ t
  pay n t h = ground (arith, h)

  send_attempt-Funded :
      (t : ℕ) (config : Configuration) (n : Notification) (s : WhatsAppSession) (c : Text)
      (input : DispatchInput) (k : ℕ)
      → (n.id ≡ id → 1 ≤ t)
      → Funded id maximum (Paid id maximum) t (send_attempt config n s c input k)
  unfolding send_attempt send_text_message
  send_attempt-Funded t config n s c input k h =
      >>=-Funded id maximum (Paid id maximum) (Paid id maximum) t _ _
        (t - one_if (n.id == id), pay n t h, λ x. tt)
        (λ u. elim [
          | ProviderResult.failed f ↦ λ _.
              quiet-Funded id maximum u (handle_send_failure config n s k f input)
                (handle_send_failure-Every Silent Advances-admits config n s k f input)
          | ProviderResult.succeeded m ↦ λ _.
              quiet-Funded id maximum u (record_sent n k c m input)
                (record_sent-Every Silent Advances-admits n k c m input)
        ])

  pub use_attempt-Funded :
      (t : ℕ) (config : Configuration) (n : Notification) (s : WhatsAppSession) (c : Text)
      (input : DispatchInput) (o : Option ℕ)
      → Known n
      → Ticket n t o
      → Funded id maximum (Paid id maximum) t (use_attempt config n s c input o)
  unfolding use_attempt
  use_attempt-Funded t config n s c input none known ticket = tt
  use_attempt-Funded t config n s c input (some k) known ticket =
      if-Funded t (ltb n.maximum_attempts k) _ _
        (λ _.
          quiet-Funded id maximum t
            (fail n (create_provider_failure maximum_attempts_exhausted) input (some k))
            (fail-Every Silent Advances-admits n
              (create_provider_failure maximum_attempts_exhausted) input (some k)))
        (λ within.
          send_attempt-Funded t config n s c input k
            (λ same. ticket same (ground (arith, known same, within))))

  abbrev is_open : Notification → ℕ → Notification → Bool
  is_open n token r =
      has_key n.application_id n.id r && (is_just r.claim_token token && r.status is processing)

  counted_attempt :
      (n : Notification) (token : ℕ) (c : Text) (u : ℕ) (db : Database) (r : Notification)
      → find? (is_open n token) db.notifications ≡ some r
      → r.id ≡ id
      → r.attempt_count + 1 ≤ maximum
      → 1 + counted id maximum db ≤ counted id maximum (attempt_transaction n token c u db).0
  unfolding begin_attempt
  counted_attempt n token c u db r found same le = rw (attempt-notifications n token c u db) (
      omega (
        arith,
        attempt-cap id maximum (is_open n token)
            (λ s. record s {
              attempt_count = s.attempt_count + 1;
              recipient_chat_identifier = some c;
              updated_at = u;
            })
            db.notifications r (λ s. refl) (λ s. refl) found same le,
      ))

  found-id :
      (n : Notification) (token : ℕ) (rows : List Notification) (r : Notification)
      → find? (is_open n token) rows ≡ some r
      → (n.id == id) ≡ true
      → r.id ≡ id
  found-id n token rows r e h =
      (==_iff r.id n.id).0 (
        &&-left (r.id == n.id) (r.application_id == n.application_id)
          (&&-left (has_key n.application_id n.id r) _ (find-true (is_open n token) rows r e)))
      ∙ (==_iff n.id id).0 h

  attempt-le :
      (n : Notification) (token : ℕ) (c : Text) (u : ℕ) (db : Database)
      → units n (attempt_transaction n token c u db).1 + counted id maximum db
        ≤ counted id maximum (attempt_transaction n token c u db).0
  attempt-le n token c u db =
      let grows = Moves-cap id maximum _ _ (Advances-admits.attempt n token c u db) in
      rw (attempt-result n token c u db)
        (elim (Option-cases (find? (is_open n token) db.notifications)) [
          | inl absent ↦ rw absent (omega (arith, grows))
          | inr (r, found) ↦
              rw found (elim (Bool-cases (n.id == id && leb (r.attempt_count + 1) maximum)) [
                | inr other ↦ rw other (omega (arith, grows))
                | inl counts ↦ rw counts (
                    counted_attempt n token c u db r found
                      (found-id n token db.notifications r found (&&-left (n.id == id) _ counts))
                      (leb→le (r.attempt_count + 1) maximum (&&-right (n.id == id) _ counts)))
              ])
        ])

  pub attempt-Funded :
      (n : Notification) (token : ℕ) (c : Text) (started t : ℕ)
      → Funded id maximum (Ticket n) t (atomic (attempt_transaction n token c started))
  unfolding atomic
  attempt-Funded n token c started t db sane = (
    Moves-SameMaximum id maximum _ _ (Advances-admits.attempt n token c started db) sane,
    units n (attempt_transaction n token c started db).1 + t,
    omega (arith, attempt-le n token c started db),
    units-Ticket n t (attempt_transaction n token c started db).1,
  )
