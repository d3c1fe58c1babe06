-- ===== src/Domain/AccountLimits.antt =====
-- packages/domain/src/provider/account-limits.ts: what WhatsApp enforces on an account, and the
-- pause it calls for. A Date is its number of milliseconds. Totals of the quota, which nothing
-- here computes with, are natural numbers, `none` for an account with no cap.
pub mod Laws
use whatsapp_notification_pl.Prelude.{
  ℕ, ◌+◌, Bool, false, not, Option, none, some, [], ◌∷◌, ltb, if◌then◌else◌, get_or, Text, text_eq,
}

pub record ReachoutTimelock : Type 0 where
  pub is_active : Bool
  pub ends_at : Option ℕ
  pub enforcement_type : Option Text

pub record NewChatQuota : Type 0 where
  pub status : Text
  pub total : Option ℕ
  pub used : ℕ
  pub cycle_ends_at : Option ℕ

pub record AccountLimits : Type 0 where
  pub reachout_timelock : Option ReachoutTimelock
  pub new_chat_quota : Option NewChatQuota

pub data SendingPauseReason : Type 0 where
  reachout_timelock : SendingPauseReason

pub record SendingPause : Type 0 where
  pub paused_until : ℕ
  pub reason : SendingPauseReason

pub record SendingPauseInput : Type 0 where
  pub limits : Option AccountLimits
  pub restriction_observed : Bool
  pub current_paused_until : Option ℕ
  pub now : ℕ
  pub fallback_pause_milliseconds : ℕ

-- `limits?.reachoutTimelock`
abbrev pub timelock_of : Option AccountLimits → Option ReachoutTimelock
timelock_of none = none
timelock_of (some limits) = limits.reachout_timelock

abbrev pub active_timelock : Option ReachoutTimelock → Bool
active_timelock none = false
active_timelock (some timelock) = timelock.is_active

abbrev pub ends_of : Option ReachoutTimelock → Option ℕ
ends_of none = none
ends_of (some timelock) = timelock.ends_at

-- `t !== null && t.getTime() > other`
abbrev pub is_after : Option ℕ → ℕ → Bool
is_after none other = false
is_after (some t) other = ltb other t

unfoldable pub find_pause_end : SendingPauseInput → Option ℕ
find_pause_end input =
    let fallback = input.now + input.fallback_pause_milliseconds in
    let timelock = timelock_of input.limits in
    if active_timelock timelock
    then some (
        if is_after (ends_of timelock) input.now
        then get_or (ends_of timelock) fallback
        else fallback)
    else if input.restriction_observed
    then some fallback
    else none

abbrev pub later_pause : Option ℕ → ℕ → ℕ
later_pause current candidate =
    if is_after current candidate then get_or current candidate else candidate

unfoldable pub resolve_sending_pause : SendingPauseInput → Option SendingPause
unfolding find_pause_end
resolve_sending_pause input = elim (find_pause_end input) [
  | none ↦ none
  | some candidate ↦ some (record {
    paused_until = later_pause input.current_paused_until candidate;
    reason = reachout_timelock;
  })
]

unfoldable pub is_sending_paused : Option ℕ → ℕ → Bool
is_sending_paused paused_until now = is_after paused_until now

abbrev pub no_pressure : Text
no_pressure = 78 ∷ 79 ∷ 78 ∷ 69 ∷ []

-- `quota !== null && quota.status !== 'NONE'`
unfoldable pub is_new_chat_quota_under_pressure : Option NewChatQuota → Bool
is_new_chat_quota_under_pressure none = false
is_new_chat_quota_under_pressure (some quota) = not (text_eq quota.status no_pressure)
