-- ===== src/Domain/Failure/Laws.antt =====
-- What the failure table promises the dispatcher.
use whatsapp_notification_pl.Prelude.{ℕ, ◌≡◌, ◌⊎◌, true, false, Option, arith}
use whatsapp_notification_pl.Domain.Failure.{
  ProviderFailureCode, recipient_not_on_whatsapp, connection_restricted, new_chat_quota_exceeded,
  is_retryable, has_unknown_outcome, create_provider_failure_with,
}

-- A failure that leaves the outcome open is always classified as retryable; a refusal for the
-- account's reach, or because the recipient is not on WhatsApp, is neither retryable nor open.
unknown_outcome-retryable :
    (c : ProviderFailureCode) (retry_after status : Option ℕ)
    → let f = create_provider_failure_with c retry_after status in
      (has_unknown_outcome f ≡ true → is_retryable f ≡ true)
      × ((c ≡ connection_restricted)
            ⊎ ((c ≡ new_chat_quota_exceeded) ⊎ (c ≡ recipient_not_on_whatsapp))
          → (is_retryable f ≡ false) × (has_unknown_outcome f ≡ false))
unfolding has_unknown_outcome is_retryable create_provider_failure_with
unknown_outcome-retryable c retry_after status = (ground arith, ground arith)
