-- ===== src/Contract/Sending.antt =====
-- The steps of a send.
use whatsapp_notification_pl.Prelude.{ℕ, Option, none, some, Text}
use whatsapp_notification_pl.Database.Records.{
  Notification, SendAttemptOutcome, WhatsAppSession, UnknownOutcomePolicy, Database,
}
use whatsapp_notification_pl.Database.SendAttempts
use whatsapp_notification_pl.Domain.Failure.{
  ProviderFailureCode, recipient_not_on_whatsapp, ProviderFailure, create_provider_failure,
}
use whatsapp_notification_pl.Configuration.{Configuration}
use whatsapp_notification_pl.Program.{Prog, done, ProviderResult, SendTextMessageInput}
use whatsapp_notification_pl.Program.Logic.{Every, >>=-Every, resolve_recipient-Every, steps}
use whatsapp_notification_pl.Services.Dispatch.{DispatchInput, DispatchResult, fail}
use whatsapp_notification_pl.Services.Dispatch.Sending.{
  resolve_attempt, resolve_unknown_outcome, note_refusal, await_lost_session, retry_when_connected,
  handle_certain_failure, handle_open_outcome, handle_send_failure, chat, settle, handle_unresolved,
  chat_of, look_up_recipient, recipient_of, simulate_typing, record_sent, stop_working,
}
use whatsapp_notification_pl.Contract.{Admits}
use whatsapp_notification_pl.Contract.Connections.{refresh_status-Every, record_refusal-Every}
use whatsapp_notification_pl.Contract.Waiting.{
  read_unknown_outcome_policy-Every, retry-Every, fail-Every, defer_quietly-Every,
  wait_for_connection-Every,
}

module _ {Φ : Database → Database → Type 0} (S : SendTextMessageInput → Type 0) (C : Admits Φ) where
  resolve_attempt-Every :
      (n : Notification) (k : ℕ) (o : SendAttemptOutcome) (code : Option ProviderFailureCode)
      → Every Φ S (resolve_attempt n k o code)
  unfolding resolve_attempt SendAttempts.resolve
  resolve_attempt-Every n k o code = search (steps, C.attempts)

  pub resolve_unknown_outcome-Every :
      (n : Notification) (k : ℕ) (policy : UnknownOutcomePolicy) (input : DispatchInput)
      (f : Option ProviderFailure)
      → Every Φ S (resolve_unknown_outcome n k policy input f)
  unfolding resolve_unknown_outcome
  resolve_unknown_outcome-Every n k policy input f =
      search (steps, resolve_attempt-Every, fail-Every S C, retry-Every S C)

  note_refusal-Every :
      (config : Configuration) (s : WhatsAppSession) (code : ProviderFailureCode)
      → Every Φ S (note_refusal config s code)
  unfolding note_refusal
  note_refusal-Every config s code = search (steps, record_refusal-Every S C)

  await_lost_session-Every :
      (config : Configuration) (n : Notification) (s : WhatsAppSession) (input : DispatchInput)
      → Every Φ S (await_lost_session config n s input)
  unfolding await_lost_session
  await_lost_session-Every config n s input =
      search (steps, refresh_status-Every S C, wait_for_connection-Every S C)

  retry_when_connected-Every :
      (config : Configuration) (n : Notification) (s : WhatsAppSession) (k : ℕ)
      (f : ProviderFailure) (input : DispatchInput)
      → Every Φ S (retry_when_connected config n s k f input)
  unfolding retry_when_connected
  retry_when_connected-Every config n s k f input =
      search (steps, refresh_status-Every S C, retry-Every S C)

  handle_certain_failure-Every :
      (config : Configuration) (n : Notification) (s : WhatsAppSession) (k : ℕ)
      (f : ProviderFailure) (input : DispatchInput)
      → Every Φ S (handle_certain_failure config n s k f input)
  unfolding handle_certain_failure
  handle_certain_failure-Every config n s k f input =
      search
        (
          steps,
          resolve_attempt-Every,
          note_refusal-Every,
          await_lost_session-Every,
          retry_when_connected-Every,
          fail-Every S C,
          retry-Every S C,
        )
        depth 9

  handle_open_outcome-Every :
      (n : Notification) (k : ℕ) (f : ProviderFailure) (input : DispatchInput)
      → Every Φ S (handle_open_outcome n k f input)
  unfolding handle_open_outcome
  handle_open_outcome-Every n k f input =
      search (steps, read_unknown_outcome_policy-Every S C, resolve_unknown_outcome-Every)

  pub handle_send_failure-Every :
      (config : Configuration) (n : Notification) (s : WhatsAppSession) (k : ℕ)
      (f : ProviderFailure) (input : DispatchInput)
      → Every Φ S (handle_send_failure config n s k f input)
  unfolding handle_send_failure
  handle_send_failure-Every config n s k f input =
      search (steps, handle_open_outcome-Every, handle_certain_failure-Every)

  handle_unresolved-Every :
      (config : Configuration) (n : Notification) (s : WhatsAppSession) (input : DispatchInput)
      (f : ProviderFailure)
      → Every Φ S (handle_unresolved config n s input f)
  unfolding handle_unresolved
  handle_unresolved-Every config n s input f =
      search (steps, await_lost_session-Every, fail-Every S C, retry-Every S C)

  settle-Every : (p : Prog DispatchResult) → Every Φ S p → Every Φ S (settle p)
  settle-Every p e = >>=-Every Φ S _ _ e (λ r. tt)

  use_found-Every :
      (n : Notification) (input : DispatchInput) (o : Option Text)
      → Every Φ S (elim o [
        | none ↦ settle (fail n (create_provider_failure recipient_not_on_whatsapp) input none)
        | some identifier ↦ done (chat identifier)
      ])
  use_found-Every n input none = settle-Every _ (fail-Every S C _ _ _ _)
  use_found-Every n input (some identifier) = tt

  look_up_recipient-Every :
      (config : Configuration) (n : Notification) (s : WhatsAppSession) (input : DispatchInput)
      → Every Φ S (look_up_recipient config n s input)
  unfolding look_up_recipient
  look_up_recipient-Every config n s input =
      >>=-Every Φ S _ _ (resolve_recipient-Every Φ S _ _) (elim [
        | ProviderResult.failed f ↦ settle-Every _ (handle_unresolved-Every config n s input f)
        | ProviderResult.succeeded found ↦ use_found-Every n input (chat_of found)
      ])

  pub recipient_of-Every :
      (config : Configuration) (n : Notification) (s : WhatsAppSession) (input : DispatchInput)
      → Every Φ S (recipient_of config n s input)
  unfolding recipient_of
  recipient_of-Every config n s input = go n.recipient_chat_identifier
    where
      go :
          (o : Option Text)
          → Every Φ S (elim o [
            | some identifier ↦ done (chat identifier)
            | none ↦ look_up_recipient config n s input
          ])
      go none = look_up_recipient-Every config n s input
      go (some identifier) = tt

  pub simulate_typing-Every :
      (config : Configuration) (n : Notification) (s : WhatsAppSession) (c : Text)
      → Every Φ S (simulate_typing config n s c)
  unfolding simulate_typing
  simulate_typing-Every config n s c = search steps

  pub record_sent-Every :
      (n : Notification) (k : ℕ) (c m : Text) (input : DispatchInput)
      → Every Φ S (record_sent n k c m input)
  unfolding record_sent
  record_sent-Every n k c m input = search (steps, C.was_sent) depth 7

  pub stop_working-Every :
      (n : Notification) (input : DispatchInput) → Every Φ S (stop_working n input)
  unfolding stop_working
  stop_working-Every n input = search (steps, defer_quietly-Every S C)
