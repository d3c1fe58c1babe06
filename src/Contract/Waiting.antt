-- ===== src/Contract/Waiting.antt =====
-- The steps of the dispatcher's claim, transitions and waits.
use whatsapp_notification_pl.Prelude.{ℕ, refl, Option, none, some}
use whatsapp_notification_pl.Database.Records.{Notification, Database}
use whatsapp_notification_pl.Domain.Failure.{ProviderFailure}
use whatsapp_notification_pl.Configuration.{Configuration}
use whatsapp_notification_pl.Program.{SendTextMessageInput}
use whatsapp_notification_pl.Program.Logic.{
  Every, >>=-Every, >>-Every, now-Every, random_port-Every, atomic-Every, write-Every, steps,
}
use whatsapp_notification_pl.Services.Dispatch.{
  DispatchInput, Detail, note_promotion, claim, reschedule, milliseconds_since_due,
  has_outlived_delivery_window, read_unknown_outcome_policy, retry, fail,
}
use whatsapp_notification_pl.Services.Dispatch.Waiting.{
  defer_quietly, check_later, note_pause, hold_for_pause, wait_for_connection, wait_for_pause,
}
use whatsapp_notification_pl.Domain.Status.Laws.{postpone, give_up}
use whatsapp_notification_pl.Contract.{Admits}

module _ {Φ : Database → Database → Type 0} (S : SendTextMessageInput → Type 0) (C : Admits Φ) where
  pub note_promotion-Every :
      (input : DispatchInput) (o : Option Notification) → Every Φ S (note_promotion input o)
  unfolding note_promotion
  note_promotion-Every input none = tt
  note_promotion-Every input (some n) = search (steps, C.event)

  pub claim-Every : (input : DispatchInput) (claim_token : ℕ) → Every Φ S (claim input claim_token)
  unfolding claim
  claim-Every input token = >>=-Every Φ S _ _ (now-Every Φ S) (λ t.
      >>=-Every Φ S _ _ (atomic-Every Φ S _ (C.promote _ _ _)) (λ promoted.
        >>-Every Φ S _ _ (note_promotion-Every input promoted) (
          >>=-Every Φ S _ _ (atomic-Every Φ S _ (C.claim _ _ _ _))
            (elim [ some n ↦ tt | none ↦ search (steps, C.stays) ]))))

  pub reschedule-Every : (input : DispatchInput) (t : ℕ) → Every Φ S (reschedule input t)
  unfolding reschedule
  reschedule-Every input t = search (steps, C.job)

  pub milliseconds_since_due-Every : (n : Notification) → Every Φ S (milliseconds_since_due n)
  unfolding milliseconds_since_due
  milliseconds_since_due-Every n = search steps

  pub has_outlived_delivery_window-Every :
      (config : Configuration) (n : Notification)
      → Every Φ S (has_outlived_delivery_window config n)
  unfolding has_outlived_delivery_window
  has_outlived_delivery_window-Every config n = search (steps, milliseconds_since_due-Every)

  pub read_unknown_outcome_policy-Every : (id : ℕ) → Every Φ S (read_unknown_outcome_policy id)
  unfolding read_unknown_outcome_policy
  read_unknown_outcome_policy-Every id = search (steps, C.stays)

  pub retry-Every :
      (n : Notification) (f : ProviderFailure) (input : DispatchInput) (floor : ℕ) (k : Option ℕ)
      → Every Φ S (retry n f input floor k)
  unfolding retry
  retry-Every n f input floor k = >>=-Every Φ S _ _ (now-Every Φ S) (λ t.
      >>=-Every Φ S _ _ (random_port-Every Φ S) (λ random.
        >>-Every Φ S _ _
          (write-Every Φ S _ (λ db.
            C.transition _ _ _ db
              (record { legal = postpone; scheduled_job = λ e. (_, refl, refl) })))
          tt))

  pub fail-Every :
      (n : Notification) (f : ProviderFailure) (input : DispatchInput) (k : Option ℕ)
      → Every Φ S (fail n f input k)
  unfolding fail
  fail-Every n f input k = >>=-Every Φ S _ _ (now-Every Φ S) (λ t.
      >>-Every Φ S _ _
        (write-Every Φ S _
          (λ db. C.transition _ _ _ db (record { legal = give_up; scheduled_job = λ e. cc })))
        tt)

  pub defer_quietly-Every :
      (n : Notification) (t : ℕ) (input : DispatchInput) (why : Detail)
      → Every Φ S (defer_quietly n t input why)
  unfolding defer_quietly
  defer_quietly-Every n t input why = search (steps, C.deferred)

  check_later-Every : (n : Notification) (input : DispatchInput) → Every Φ S (check_later n input)
  unfolding check_later
  check_later-Every n input = search (steps, defer_quietly-Every)

  pub wait_for_connection-Every :
      (config : Configuration) (n : Notification) (input : DispatchInput)
      → Every Φ S (wait_for_connection config n input)
  unfolding wait_for_connection
  wait_for_connection-Every config n input =
      search (steps, milliseconds_since_due-Every, fail-Every, check_later-Every, retry-Every)

  note_pause-Every :
      (n : Notification) (t : ℕ) (input : DispatchInput) → Every Φ S (note_pause n t input)
  unfolding note_pause
  note_pause-Every n t input = search (steps, retry-Every)

  hold_for_pause-Every :
      (n : Notification) (t : ℕ) (input : DispatchInput) → Every Φ S (hold_for_pause n t input)
  unfolding hold_for_pause
  hold_for_pause-Every n t input = search (steps, defer_quietly-Every, note_pause-Every)

  pub wait_for_pause-Every :
      (config : Configuration) (n : Notification) (t : ℕ) (input : DispatchInput)
      → Every Φ S (wait_for_pause config n t input)
  unfolding wait_for_pause
  wait_for_pause-Every config n t input = search (steps, fail-Every, hold_for_pause-Every)
