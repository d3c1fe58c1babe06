-- ===== src/Domain/TypingDuration.antt =====
-- packages/domain/src/provider/typing-duration.ts: how long "typing…" is shown. A count of
-- characters is a natural number, so `Math.max(0, …)` of it is the count itself.
use whatsapp_notification_pl.Prelude.{ℕ, ◌+◌, ◌-◌, ◌*◌, ◌/◌, ◌≤◌, min, max, arith}

abbrev pub minimum_typing_milliseconds : ℕ
minimum_typing_milliseconds = 2000

abbrev pub maximum_typing_milliseconds : ℕ
maximum_typing_milliseconds = 8000

unfoldable pub compute_typing_milliseconds : (integer_between : ℕ → ℕ → ℕ) → ℕ → ℕ
compute_typing_milliseconds integer_between character_count =
    let proportional = max 0 character_count * 40 in
    let spread = proportional / 4 in
    let jittered = proportional - spread + integer_between 0 (spread * 2) in
    min (max jittered minimum_typing_milliseconds) maximum_typing_milliseconds

-- The indicator is shown between two and eight seconds, whatever the message and the draw.
compute_typing_milliseconds_bounds :
    (integer_between : ℕ → ℕ → ℕ) (character_count : ℕ)
    → let shown = compute_typing_milliseconds integer_between character_count in
      (minimum_typing_milliseconds ≤ shown) × (shown ≤ maximum_typing_milliseconds)
unfolding compute_typing_milliseconds
compute_typing_milliseconds_bounds integer_between character_count = omega arith
