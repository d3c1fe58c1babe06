-- ===== src/Domain/AccountLimits/Laws.antt =====
-- When a connection has to stop sending, and for how long.
use whatsapp_notification_pl.Prelude.{
  ℕ, ◌≤◌, ◌<◌, max, ◌≡◌, true, ◌||◌, Option, some, arith, get_or, is_some,
}
use whatsapp_notification_pl.Domain.AccountLimits.{
  ReachoutTimelock, NewChatQuota, AccountLimits, SendingPause, SendingPauseInput, timelock_of,
  active_timelock, resolve_sending_pause, is_sending_paused, reachout_timelock,
}

-- A pause is called for exactly when a timelock is in force or a refusal was seen. It is never
-- shorter than the pause in force, and it is still in force now if the fallback is not empty.
pub resolve_sending_pause_lem :
    (input : SendingPauseInput)
    → 0 < input.fallback_pause_milliseconds
    → (is_some (resolve_sending_pause input)
        ≡ (active_timelock (timelock_of input.limits) || input.restriction_observed))
      × ((pause : SendingPause)
          → resolve_sending_pause input ≡ some pause
          → (is_sending_paused (some pause.paused_until) input.now ≡ true)
            × (get_or input.current_paused_until 0 ≤ pause.paused_until))
unfolding resolve_sending_pause is_sending_paused
resolve_sending_pause_lem input h = (ground arith, (λ pause e. (ground arith, ground arith)))

-- The end that WhatsApp gives, if it lies ahead, is the end of the pause, unless a longer pause is
-- in force, which is kept.
resolve_sending_pause-ends_at :
    (input : SendingPauseInput) (timelock : ReachoutTimelock) (ends : ℕ)
    → timelock_of input.limits ≡ some timelock
    → timelock.is_active ≡ true
    → timelock.ends_at ≡ some ends
    → input.now < ends
    → resolve_sending_pause input
      ≡ some (record {
        paused_until = max ends (get_or input.current_paused_until 0);
        reason = reachout_timelock;
      })
unfolding resolve_sending_pause
resolve_sending_pause-ends_at input timelock ends e active at_end later = ground arith

-- The quota never stops a connection: it has no bearing on the pause.
pub resolve_sending_pause-quota :
    (input : SendingPauseInput) (limits : AccountLimits) (quota : Option NewChatQuota)
    → resolve_sending_pause (record input { limits = some limits })
      ≡ resolve_sending_pause
          (record input { limits = some (record limits { new_chat_quota = quota }) })
unfolding resolve_sending_pause
resolve_sending_pause-quota input limits quota = ground arith
