-- ===== src/Domain/PhoneNumber/Laws.antt =====
-- What a parsed phone number is.
use whatsapp_notification_pl.Prelude.{
  ℕ, ◌≡◌, refl, Bool, true, not, none, some, [], ◌∷◌, ◌++◌, arith, if◌then◌else◌, filter, all, Text,
}
use mathlib.Core.Path.{subst}
use whatsapp_notification_pl.Domain.PhoneNumber.{
  is_formatting, is_digit, normalize_phone_number, is_valid_phone_number, parse_phone_number,
}

filter-append : (p : ℕ → Bool) (xs ys : Text) → filter p (xs ++ ys) ≡ filter p xs ++ filter p ys
filter-append p [] ys = refl
filter-append p (x ∷ xs) ys = ground (arith, filter-append p xs ys)

-- A character of formatting changes nothing, wherever it stands in the number.
parse_phone_number-formatting :
    (before after : Text) (c : ℕ)
    → is_formatting c ≡ true
    → parse_phone_number (before ++ c ∷ after) ≡ parse_phone_number (before ++ after)
unfolding parse_phone_number normalize_phone_number
parse_phone_number-formatting before after c h =
    let same : filter (λ d. not (is_formatting d)) (before ++ c ∷ after)
        ≡ filter (λ d. not (is_formatting d)) (before ++ after) =
      rw
        (
          filter-append (λ d. not (is_formatting d)) before (c ∷ after),
          filter-append (λ d. not (is_formatting d)) before after,
          h,
        )
        refl in
    rw same refl

digit-formatting : (c : ℕ) → is_digit c ≡ true → not (is_formatting c) ≡ true
unfolding is_formatting
digit-formatting c h = ground arith

filter-digits : (xs : Text) → all is_digit xs ≡ true → filter (λ d. not (is_formatting d)) xs ≡ xs
filter-digits [] h = refl
filter-digits (x ∷ xs) h = ground (arith, digit-formatting x, filter-digits xs)

valid-normalized : (t : Text) → is_valid_phone_number t ≡ true → normalize_phone_number t ≡ t
unfolding is_valid_phone_number normalize_phone_number is_formatting
valid-normalized [] h = refl
valid-normalized (p ∷ []) h = cc
valid-normalized (p ∷ d ∷ rest) h =
    ground (arith, digit-formatting p, digit-formatting d, filter-digits rest)

guarded : (b : Bool) (t p : Text) → (if b then some t else none) ≡ some p → (b ≡ true) × (t ≡ p)
guarded b t p h = (ground arith, ground arith)

-- A parsed number is valid, E.164 with eight to fifteen digits, and parsing it again gives the same.
pub parse_phone_number-parsed :
    (value parsed : Text)
    → parse_phone_number value ≡ some parsed
    → (is_valid_phone_number parsed ≡ true) × (parse_phone_number parsed ≡ some parsed)
unfolding parse_phone_number
parse_phone_number-parsed value parsed h =
    let (valid, same) = guarded (is_valid_phone_number (normalize_phone_number value)) _ parsed h in
    let v : is_valid_phone_number parsed ≡ true =
      subst (λ t. is_valid_phone_number t ≡ true) same valid in
    (v, rw (valid-normalized parsed v) (rw v refl))
