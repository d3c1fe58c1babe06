-- ===== src/Guarantees/Budget/Dispatch.antt =====
-- A dispatch sends a message of a notification only for an attempt that it counted.
use whatsapp_notification_pl.Prelude.{ℕ, Option, none, some, if◌then◌else◌, Text}
use whatsapp_notification_pl.Database.Records.{Notification, WhatsAppSession}
use whatsapp_notification_pl.Database.SendAttempts
use whatsapp_notification_pl.Database.Sessions
use whatsapp_notification_pl.Domain.Failure.{
  session_missing, delivery_window_expired, create_provider_failure,
}
use whatsapp_notification_pl.Domain.AccountLimits.{is_sending_paused}
use whatsapp_notification_pl.Domain.SessionStatus.{can_session_send}
use whatsapp_notification_pl.Configuration.{Configuration}
use whatsapp_notification_pl.Program.{Prog, done, ◌>>◌, now, random_port, is_aborted, atomic, query}
use whatsapp_notification_pl.Program.Logic.{
  if-Every, now-Every, random_port-Every, is_aborted-Every, query-Every,
}
use whatsapp_notification_pl.Services.Connections.{prepare_to_send}
use whatsapp_notification_pl.Services.Dispatch.{
  DispatchInput, send_pacing, DispatchResult, has_outlived_delivery_window, fail,
}
use whatsapp_notification_pl.Services.Dispatch.Sending.{
  chat, settled, recipient_of, simulate_typing, start_attempt, stop_working, deliver_to, deliver,
}
use whatsapp_notification_pl.Services.Dispatch.Entry.{
  settle_unresolved, send_in_slot, pause_or_send, use_session, find_session, attempt_or_settle,
  proceed,
}
use whatsapp_notification_pl.Contract.Connections.{prepare_to_send-Every}
use whatsapp_notification_pl.Contract.Waiting.{
  has_outlived_delivery_window-Every, fail-Every, defer_quietly-Every, wait_for_connection-Every,
  wait_for_pause-Every,
}
use whatsapp_notification_pl.Contract.Sending.{
  recipient_of-Every, simulate_typing-Every, stop_working-Every,
}
use whatsapp_notification_pl.Services.Dispatch.Waiting.{
  defer_quietly, wait_for_pause, wait_for_connection,
}
use whatsapp_notification_pl.Contract.Dispatch.{settle_unresolved-Every, reserve-Every}
use whatsapp_notification_pl.Guarantees.Rows.{Advances}
use whatsapp_notification_pl.Guarantees.Lifecycle.{Advances-admits}
use whatsapp_notification_pl.Guarantees.Budget.Logic.{Funded, Paid, >>=-Funded, quiet-Funded}
use whatsapp_notification_pl.Guarantees.Budget.Tickets.{
  Silent, Known, Ticket, after_quiet, if-Funded, use_attempt-Funded, attempt-Funded,
}

module _ (id maximum : ℕ) where
  abbrev Payable : Prog DispatchResult → Type 0
  Payable p = (t : ℕ) → Funded id maximum (Paid id maximum) t p

  start_attempt-Funded :
      (config : Configuration) (n : Notification) (s : WhatsAppSession) (token : ℕ) (c : Text)
      (input : DispatchInput)
      → Known id maximum n
      → Payable (start_attempt config n s token c input)
  unfolding start_attempt
  start_attempt-Funded config n s token c input known t =
      after_quiet id maximum t now _ (now-Every Advances Silent) (λ u started.
        >>=-Funded id maximum (Ticket id maximum n) (Paid id maximum) u _ _
          (attempt-Funded id maximum n token c started u)
          (λ v o ticket. use_attempt-Funded id maximum v config n s c input o known ticket))

  deliver_to-Funded :
      (config : Configuration) (n : Notification) (s : WhatsAppSession) (token : ℕ)
      (input : DispatchInput) (c : Text)
      → Known id maximum n
      → Payable (deliver_to config n s token input c)
  unfolding deliver_to ◌>>◌
  deliver_to-Funded config n s token input c known t =
      after_quiet id maximum t
        (if config.simulate_typing then simulate_typing config n s c else done tt) _
        (if-Every Advances Silent config.simulate_typing (simulate_typing config n s c) (done tt)
          (simulate_typing-Every Silent Advances-admits config n s c) tt)
        (λ u _. after_quiet id maximum u is_aborted _ (is_aborted-Every Advances Silent) (λ v stop.
          if-Funded id maximum v stop (stop_working n input)
            (start_attempt config n s token c input)
            (λ _.
              quiet-Funded id maximum v (stop_working n input)
                (stop_working-Every Silent Advances-admits n input))
            (λ _. start_attempt-Funded config n s token c input known v)))

  deliver-Funded :
      (config : Configuration) (n : Notification) (s : WhatsAppSession) (token : ℕ)
      (input : DispatchInput)
      → Known id maximum n
      → Payable (deliver config n s token input)
  unfolding deliver
  deliver-Funded config n s token input known t =
      after_quiet id maximum t (recipient_of config n s input) _
        (recipient_of-Every Silent Advances-admits config n s input)
        (λ u. elim [
          | settled r ↦ tt
          | chat identifier ↦ deliver_to-Funded config n s token input identifier known u
        ])

  send_in_slot-Funded :
      (config : Configuration) (n : Notification) (s : WhatsAppSession) (token : ℕ)
      (input : DispatchInput)
      → Known id maximum n
      → Payable (send_in_slot config n s token input)
  unfolding send_in_slot
  send_in_slot-Funded config n s token input known t =
      after_quiet id maximum t now _ (now-Every Advances Silent) (λ u₁ t₁.
        after_quiet id maximum u₁ now _ (now-Every Advances Silent) (λ u₂ t₂.
          after_quiet id maximum u₂ random_port _ (random_port-Every Advances Silent) (λ u₃ random.
            after_quiet id maximum u₃ (atomic (Sessions.reserve_send_slot s.id t₁ t₂ random)) _
              (reserve-Every Silent Advances-admits s t₁ t₂ random)
              (λ u₄ slot.
                if-Funded id maximum u₄ slot.0 (deliver config n s token input)
                  (defer_quietly n slot.1 input send_pacing)
                  (λ _. deliver-Funded config n s token input known u₄)
                  (λ _.
                    quiet-Funded id maximum u₄ (defer_quietly n slot.1 input send_pacing)
                      (defer_quietly-Every Silent Advances-admits n slot.1 input send_pacing))))))

  pause_or_send-Funded :
      (config : Configuration) (n : Notification) (s : WhatsAppSession) (token until : ℕ)
      (input : DispatchInput)
      → Known id maximum n
      → Payable (pause_or_send config n s token until input)
  unfolding pause_or_send
  pause_or_send-Funded config n s token until input known t =
      after_quiet id maximum t now _ (now-Every Advances Silent) (λ u t₁.
        if-Funded id maximum u (is_sending_paused (some until) t₁)
          (wait_for_pause config n until input) (send_in_slot config n s token input)
          (λ _.
            quiet-Funded id maximum u (wait_for_pause config n until input)
              (wait_for_pause-Every Silent Advances-admits config n until input))
          (λ _. send_in_slot-Funded config n s token input known u))

  use_session-Funded :
      (config : Configuration) (n : Notification) (s : WhatsAppSession) (token : ℕ)
      (input : DispatchInput)
      → Known id maximum n
      → Payable (use_session config n s token input)
  unfolding use_session
  use_session-Funded config n s token input known t =
      after_quiet id maximum t (prepare_to_send config s) _
        (prepare_to_send-Every Silent Advances-admits config s)
        (λ u ready. go u ready ready.sending_paused_until)
    where
      go :
          (u : ℕ) (ready : WhatsAppSession) (o : Option ℕ)
          → Funded id maximum (Paid id maximum) u (elim o [
            | none ↦ send_in_slot config n ready token input
            | some paused_until ↦ pause_or_send config n ready token paused_until input
          ])
      go u ready none = send_in_slot-Funded config n ready token input known u
      go u ready (some until) = pause_or_send-Funded config n ready token until input known u

  find_session-Funded :
      (config : Configuration) (n : Notification) (token : ℕ) (input : DispatchInput)
      → Known id maximum n
      → Payable (find_session config n token input)
  unfolding find_session
  find_session-Funded config n token input known t =
      after_quiet id maximum t (query (Sessions.find_by_id n.application_id n.whatsapp_session_id))
        _ (query-Every Advances Silent _ Advances-admits.stays)
        (λ u. elim [
          | none ↦
              quiet-Funded id maximum u
                (fail n (create_provider_failure session_missing) input none)
                (fail-Every Silent Advances-admits n (create_provider_failure session_missing) input
                  none)
          | some found ↦
              if-Funded id maximum u (can_session_send found.status)
                (use_session config n found token input) (wait_for_connection config n input)
                (λ _. use_session-Funded config n found token input known u)
                (λ _.
                  quiet-Funded id maximum u (wait_for_connection config n input)
                    (wait_for_connection-Every Silent Advances-admits config n input))
        ])

  attempt_or_settle-Funded :
      (config : Configuration) (n : Notification) (token : ℕ) (input : DispatchInput)
      → Known id maximum n
      → Payable (attempt_or_settle config n token input)
  unfolding attempt_or_settle
  attempt_or_settle-Funded config n token input known t =
      after_quiet id maximum t (query (SendAttempts.find_unresolved n.application_id n.id)) _
        (query-Every Advances Silent _ Advances-admits.stays)
        (λ u. elim [
          | some a ↦
              quiet-Funded id maximum u (settle_unresolved n a input)
                (settle_unresolved-Every Silent Advances-admits n a input)
          | none ↦ find_session-Funded config n token input known u
        ])

  pub proceed-Funded :
      (config : Configuration) (n : Notification) (token : ℕ) (input : DispatchInput)
      → Known id maximum n
      → Payable (proceed config n token input)
  unfolding proceed
  proceed-Funded config n token input known t =
      after_quiet id maximum t (has_outlived_delivery_window config n) _
        (has_outlived_delivery_window-Every Silent Advances-admits config n)
        (λ u is_outlived.
          if-Funded id maximum u is_outlived
            (fail n (create_provider_failure delivery_window_expired) input none)
            (attempt_or_settle config n token input)
            (λ _.
              quiet-Funded id maximum u
                (fail n (create_provider_failure delivery_window_expired) input none)
                (fail-Every Silent Advances-admits n
                  (create_provider_failure delivery_window_expired) input none))
            (λ _. attempt_or_settle-Funded config n token input known u))
