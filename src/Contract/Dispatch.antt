-- ===== src/Contract/Dispatch.antt =====
-- The steps of a whole dispatch: the only messages sent are those of the notification it claims.
use whatsapp_notification_pl.Prelude.{ℕ, Option, none, some, Text}
use whatsapp_notification_pl.Database.Records.{Notification, SendAttempt, WhatsAppSession, Database}
use whatsapp_notification_pl.Database.Sessions
use whatsapp_notification_pl.Configuration.{Configuration}
use whatsapp_notification_pl.Program.{ProviderResult, SendTextMessageInput, atomic}
use whatsapp_notification_pl.Database.Records.{Database}
use whatsapp_notification_pl.Program.Logic.{
  Every, >>=-Every, atomic-Every, query-Every, send_text_message-Every, steps,
}
use whatsapp_notification_pl.Services.Dispatch.{DispatchInput, claimed, unclaimable, not_due}
use whatsapp_notification_pl.Services.Dispatch.Sending.{
  chat, settled, send_attempt, use_attempt, start_attempt, deliver_to, deliver,
}
use whatsapp_notification_pl.Services.Dispatch.Entry.{
  settle_unresolved, send_in_slot, pause_or_send, use_session, find_session, attempt_or_settle,
  proceed, put_off, dispatch,
}
use whatsapp_notification_pl.Contract.{Admits}
use whatsapp_notification_pl.Contract.Connections.{prepare_to_send-Every}
use whatsapp_notification_pl.Contract.Waiting.{
  claim-Every, reschedule-Every, has_outlived_delivery_window-Every,
  read_unknown_outcome_policy-Every, fail-Every, defer_quietly-Every, wait_for_connection-Every,
  wait_for_pause-Every,
}
use whatsapp_notification_pl.Contract.Sending.{
  resolve_unknown_outcome-Every, handle_send_failure-Every, recipient_of-Every,
  simulate_typing-Every, record_sent-Every, stop_working-Every,
}

module _ {Φ : Database → Database → Type 0} (S : SendTextMessageInput → Type 0) (C : Admits Φ) where
  pub settle_unresolved-Every :
      (n : Notification) (a : SendAttempt) (input : DispatchInput)
      → Every Φ S (settle_unresolved n a input)
  unfolding settle_unresolved
  settle_unresolved-Every n a input =
      search (steps, read_unknown_outcome_policy-Every S C, resolve_unknown_outcome-Every S C)

  pub reserve-Every :
      (s : WhatsAppSession) (t u : ℕ) (random : ℕ → ℕ → ℕ)
      → Every Φ S (atomic (Sessions.reserve_send_slot s.id t u random))
  unfolding Sessions.reserve_send_slot
  reserve-Every s t u random = atomic-Every Φ S _ (λ db. C.sessions _ db)

  module _ (sends : (m : SendTextMessageInput) → S m) where
    send_attempt-Every :
        (config : Configuration) (n : Notification) (s : WhatsAppSession) (c : Text)
        (input : DispatchInput) (k : ℕ)
        → Every Φ S (send_attempt config n s c input k)
    unfolding send_attempt
    send_attempt-Every config n s c input k =
        >>=-Every Φ S _ _ (send_text_message-Every Φ S _ (sends _)) (elim [
          | ProviderResult.failed f ↦ handle_send_failure-Every S C config n s k f input
          | ProviderResult.succeeded m ↦ record_sent-Every S C n k c m input
        ])

    use_attempt-Every :
        (config : Configuration) (n : Notification) (s : WhatsAppSession) (c : Text)
        (input : DispatchInput) (o : Option ℕ)
        → Every Φ S (use_attempt config n s c input o)
    unfolding use_attempt
    use_attempt-Every config n s c input none = tt
    use_attempt-Every config n s c input (some k) =
        search (steps, fail-Every S C, send_attempt-Every)

    start_attempt-Every :
        (config : Configuration) (n : Notification) (s : WhatsAppSession) (token : ℕ) (c : Text)
        (input : DispatchInput)
        → Every Φ S (start_attempt config n s token c input)
    unfolding start_attempt
    start_attempt-Every config n s token c input = search (steps, C.attempt, use_attempt-Every)

    deliver_to-Every :
        (config : Configuration) (n : Notification) (s : WhatsAppSession) (token : ℕ)
        (input : DispatchInput) (c : Text)
        → Every Φ S (deliver_to config n s token input c)
    unfolding deliver_to
    deliver_to-Every config n s token input c =
        search (steps, simulate_typing-Every S C, stop_working-Every S C, start_attempt-Every) depth
          7

    deliver-Every :
        (config : Configuration) (n : Notification) (s : WhatsAppSession) (token : ℕ)
        (input : DispatchInput)
        → Every Φ S (deliver config n s token input)
    unfolding deliver
    deliver-Every config n s token input =
        >>=-Every Φ S _ _ (recipient_of-Every S C config n s input) (elim [
          | settled r ↦ tt
          | chat identifier ↦ deliver_to-Every config n s token input identifier
        ])

    send_in_slot-Every :
        (config : Configuration) (n : Notification) (s : WhatsAppSession) (token : ℕ)
        (input : DispatchInput)
        → Every Φ S (send_in_slot config n s token input)
    unfolding send_in_slot
    send_in_slot-Every config n s token input =
        search (steps, reserve-Every, deliver-Every, defer_quietly-Every S C) depth 8

    pause_or_send-Every :
        (config : Configuration) (n : Notification) (s : WhatsAppSession) (token t : ℕ)
        (input : DispatchInput)
        → Every Φ S (pause_or_send config n s token t input)
    unfolding pause_or_send
    pause_or_send-Every config n s token t input =
        search (steps, wait_for_pause-Every S C, send_in_slot-Every)

    use_session-Every :
        (config : Configuration) (n : Notification) (s : WhatsAppSession) (token : ℕ)
        (input : DispatchInput)
        → Every Φ S (use_session config n s token input)
    unfolding use_session
    use_session-Every config n s token input =
        >>=-Every Φ S _ _ (prepare_to_send-Every S C config s)
          (λ ready. go ready ready.sending_paused_until)
      where
        go :
            (ready : WhatsAppSession) (o : Option ℕ)
            → Every Φ S (elim o [
              | none ↦ send_in_slot config n ready token input
              | some paused_until ↦ pause_or_send config n ready token paused_until input
            ])
        go ready none = send_in_slot-Every config n ready token input
        go ready (some t) = pause_or_send-Every config n ready token t input

    find_session-Every :
        (config : Configuration) (n : Notification) (token : ℕ) (input : DispatchInput)
        → Every Φ S (find_session config n token input)
    unfolding find_session
    find_session-Every config n token input = >>=-Every Φ S _ _ (query-Every Φ S _ C.stays) (elim [
      | none ↦ fail-Every S C n _ input none
      | some s ↦ search (steps, use_session-Every, wait_for_connection-Every S C)
    ])

    attempt_or_settle-Every :
        (config : Configuration) (n : Notification) (token : ℕ) (input : DispatchInput)
        → Every Φ S (attempt_or_settle config n token input)
    unfolding attempt_or_settle
    attempt_or_settle-Every config n token input =
        >>=-Every Φ S _ _ (query-Every Φ S _ C.stays) (elim [
          | some a ↦ settle_unresolved-Every n a input
          | none ↦ find_session-Every config n token input
        ])

    proceed-Every :
        (config : Configuration) (n : Notification) (token : ℕ) (input : DispatchInput)
        → Every Φ S (proceed config n token input)
    unfolding proceed
    proceed-Every config n token input =
        search
          (steps, has_outlived_delivery_window-Every S C, fail-Every S C, attempt_or_settle-Every)

    pub dispatch-Every :
        (config : Configuration) (token : ℕ) (input : DispatchInput)
        → Every Φ S (dispatch config token input)
    unfolding dispatch put_off
    dispatch-Every config token input = >>=-Every Φ S _ _ (claim-Every S C input token) (elim [
      | unclaimable ↦ tt
      | not_due t why ↦ search (steps, reschedule-Every S C)
      | claimed n ↦ proceed-Every config n token input
    ])
