-- ===== src/Provider/Callback.antt =====
-- packages/provider-whatsapp/src/webhook.ts: whether a callback is authentic, and near in time. The
-- HMAC of a body is an argument, and so is what `Number` makes of a header.
use whatsapp_notification_pl.Prelude.{
  ℕ, ◌+◌, ◌-◌, ◌*◌, Bool, true, false, Option, none, some, [], ◌∷◌, ltb, leb, if◌then◌else◌, Text,
  text_eq,
}

-- What `Number` makes of a text: `fraction n d` is n / d, `negative n d` is -(n / d), with d over 0.
pub data Reading : Type 0 where
  not_finite : Reading
  fraction : (numerator denominator : ℕ) → Reading
  negative : (numerator denominator : ℕ) → Reading

unfoldable pub is_webhook_signature_valid :
    (hmac : (signing_key raw_body : Text) → Text)
    → (raw_body supplied_signature signing_key : Text) → Bool
is_webhook_signature_valid hmac raw_body supplied_signature signing_key =
    text_eq supplied_signature (hmac signing_key raw_body)

abbrev pub distance : ℕ → ℕ → ℕ
distance a b = (a - b) + (b - a)

abbrev pub first_milliseconds : ℕ
first_milliseconds = 100_000_000_000

-- Both sides of each comparison are multiplied by the denominator.
abbrev pub is_near : Reading → (now tolerance_seconds : ℕ) → Bool
is_near not_finite now tolerance_seconds = false
is_near (fraction n d) now tolerance_seconds =
    let milliseconds = if ltb n (first_milliseconds * d) then n * 1000 else n in
    leb (distance (now * d) milliseconds) (tolerance_seconds * 1000 * d)
is_near (negative n d) now tolerance_seconds =
    leb (now * d + n * 1000) (tolerance_seconds * 1000 * d)

unfoldable pub is_webhook_timestamp_acceptable :
    (number : Text → Reading)
    → (timestamp_header : Option Text) → (now tolerance_seconds : ℕ) → Bool
is_webhook_timestamp_acceptable number none now tolerance_seconds = true
is_webhook_timestamp_acceptable number (some []) now tolerance_seconds = true
is_webhook_timestamp_acceptable number (some (c ∷ rest)) now tolerance_seconds =
    is_near (number (c ∷ rest)) now tolerance_seconds
