-- ===== src/Examples/Rules.antt =====
-- The theorems on the domain rules at concrete inputs.
use whatsapp_notification_pl.Prelude.{
  false, any, ◌||◌, ℕ, ◌+◌, ◌*◌, ◌≤◌, max, ◌≡◌, refl, ◌↔◌, true, ◌||◌, none, some, [], ◌∷◌, arith,
  get_or, is_some, Text,
}
use mathlib.Core.List.Perm
use whatsapp_notification_pl.Domain.Status.{
  processing, retrying, can_transition_notification_status,
}
use whatsapp_notification_pl.Domain.Status.Laws.{◌⟶◌, can_transition-iff-edge}
use whatsapp_notification_pl.Domain.Acknowledgement.{
  server, device, read, is_delivered_acknowledgement, is_failure_acknowledgement,
  is_read_acknowledgement,
}
use whatsapp_notification_pl.Domain.Acknowledgement.Laws.{
  merge_all, merge_all-perm, merge_all_keeps,
}
use whatsapp_notification_pl.Domain.RetryPolicy.{default_retry_policy, compute_next_attempt_at}
use whatsapp_notification_pl.Domain.RetryPolicy.Laws.{InRange, next_attempt_at_bounds}
use whatsapp_notification_pl.Domain.AccountLimits.{
  AccountLimits, ReachoutTimelock, NewChatQuota, SendingPause, SendingPauseInput,
  resolve_sending_pause, is_sending_paused, timelock_of, active_timelock,
}
use whatsapp_notification_pl.Domain.AccountLimits.Laws.{resolve_sending_pause_lem}
use whatsapp_notification_pl.Domain.PhoneNumber.{
  is_formatting, is_valid_phone_number, normalize_phone_number, parse_phone_number,
}
use whatsapp_notification_pl.Domain.PhoneNumber.Laws.{parse_phone_number-parsed}

abbrev lowest : ℕ → ℕ → ℕ
lowest lo hi = lo

lowest-InRange : InRange lowest
lowest-InRange lo hi h = (omega arith, omega (arith, h))

can_transition-iff-edge_example :
    (can_transition_notification_status processing retrying ≡ true) ↔ (processing ⟶ retrying)
can_transition-iff-edge_example = can_transition-iff-edge processing retrying

merge_all-perm_example :
    merge_all server (read ∷ device ∷ []) ≡ merge_all server (device ∷ read ∷ [])
merge_all-perm_example = merge_all-perm server (Perm.swap device read [])

merge_all_keeps_example :
    (is_failure_acknowledgement (merge_all device (server ∷ read ∷ []))
      ≡ (is_failure_acknowledgement device || any is_failure_acknowledgement (server ∷ read ∷ [])))
    × (any is_failure_acknowledgement (server ∷ read ∷ []) ≡ false
        → is_delivered_acknowledgement device ≡ true
        → is_delivered_acknowledgement (merge_all device (server ∷ read ∷ [])) ≡ true)
    × (any is_failure_acknowledgement (server ∷ read ∷ []) ≡ false
        → is_read_acknowledgement device ≡ true
        → is_read_acknowledgement (merge_all device (server ∷ read ∷ [])) ≡ true)
merge_all_keeps_example = merge_all_keeps device (server ∷ read ∷ [])

next_attempt_at_bounds_example :
    (1000 + 30 * 1000 ≤ compute_next_attempt_at lowest default_retry_policy 1 1000 120)
    × (1000 + 120 * 1000 ≤ compute_next_attempt_at lowest default_retry_policy 1 1000 120)
    × (compute_next_attempt_at lowest default_retry_policy 1 1000 120 ≤ 1000 + max 3600 120 * 1000)
next_attempt_at_bounds_example = next_attempt_at_bounds lowest 1 1000 120 lowest-InRange

abbrev timelock : ReachoutTimelock
timelock = record { is_active = true; ends_at = some 5000; enforcement_type = none }

abbrev limits : AccountLimits
limits = record { reachout_timelock = some timelock; new_chat_quota = none }

abbrev restricted : SendingPauseInput
restricted = record {
  limits = some limits;
  restriction_observed = true;
  current_paused_until = some 7000;
  now = 1000;
  fallback_pause_milliseconds = 600;
}

resolve_sending_pause_lem_example :
    (is_some (resolve_sending_pause restricted)
      ≡ (active_timelock (timelock_of restricted.limits) || restricted.restriction_observed))
    × ((pause : SendingPause)
        → resolve_sending_pause restricted ≡ some pause
        → (is_sending_paused (some pause.paused_until) restricted.now ≡ true)
          × (get_or restricted.current_paused_until 0 ≤ pause.paused_until))
resolve_sending_pause_lem_example = resolve_sending_pause_lem restricted (omega arith)

abbrev spent_quota : NewChatQuota
spent_quota = record { status = []; total = some 10; used = 10; cycle_ends_at = none }

abbrev brazilian : Text
brazilian = b'0' ∷ b'0' ∷ b'5' ∷ b'5' ∷ b'1' ∷ b'1' ∷ b'9' ∷ b'8' ∷ b'7' ∷ b'6' ∷ b'5' ∷ b'4' ∷ []

abbrev brazilian_parsed : Text
brazilian_parsed = b'+' ∷ b'5' ∷ b'5' ∷ b'1' ∷ b'1' ∷ b'9' ∷ b'8' ∷ b'7' ∷ b'6' ∷ b'5' ∷ b'4' ∷ []

parse_phone_number-parsed_example :
    (is_valid_phone_number brazilian_parsed ≡ true)
    × (parse_phone_number brazilian_parsed ≡ some brazilian_parsed)
unfolding parse_phone_number normalize_phone_number is_valid_phone_number is_formatting
parse_phone_number-parsed_example = parse_phone_number-parsed brazilian brazilian_parsed refl
