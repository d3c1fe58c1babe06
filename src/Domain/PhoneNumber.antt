-- ===== src/Domain/PhoneNumber.antt =====
-- packages/domain/src/recipient/phone-number.ts, over the code units of a text.
pub mod Laws
use whatsapp_notification_pl.Prelude.{
  ℕ, ◌-◌, Bool, false, not, ◌&&◌, ◌||◌, Option, none, some, [], ◌∷◌, ◌++◌, leb, ◌==◌, if◌then◌else◌,
  length, take, drop, replicate, filter, all, Text,
}

-- What `\s` and `trim` take for white space.
abbrev pub is_space : ℕ → Bool
is_space c =
    (leb 9 c && leb c 13)
    || (c == 32
        || (c == 160
            || (c == 0x1680
                || ((leb 0x2000 c && leb c 0x200a)
                    || (c == 0x2028
                        || (c == 0x2029
                            || (c == 0x202f || (c == 0x205f || (c == 0x3000 || c == 0xfeff)))))))))

-- `FORMATTING_CHARACTERS`: white space, parentheses, the dash and the dot.
unfoldable pub is_formatting : ℕ → Bool
is_formatting c = is_space c || (c == b'(' || (c == b')' || (c == b'-' || c == b'.')))

abbrev pub is_digit : ℕ → Bool
is_digit c = leb b'0' c && leb c b'9'

-- A leading `00` becomes a plus.
abbrev pub international : Text → Text
international [] = []
international (c ∷ []) = c ∷ []
international (c ∷ d ∷ s) = if c == b'0' && d == b'0' then b'+' ∷ s else c ∷ d ∷ s

-- `trim` takes off nothing that the replacement would not.
unfoldable pub normalize_phone_number : Text → Text
unfolding is_formatting
normalize_phone_number value = international (filter (λ c. not (is_formatting c)) value)

-- `/^\+[1-9]\d{7,14}$/`
unfoldable pub is_valid_phone_number : Text → Bool
is_valid_phone_number [] = false
is_valid_phone_number (p ∷ []) = false
is_valid_phone_number (p ∷ d ∷ rest) =
    p == b'+'
    && ((leb b'1' d && leb d b'9')
        && (all is_digit rest && (leb 7 (length rest) && leb (length rest) 14)))

-- `none` is the thrown `InvalidPhoneNumberError`.
unfoldable pub parse_phone_number : Text → Option Text
parse_phone_number value =
    let normalized = normalize_phone_number value in
    if is_valid_phone_number normalized then some normalized else none

unfoldable pub mask_phone_number_for_log : Text → Text
mask_phone_number_for_log phone_number =
    let digits = filter is_digit phone_number in
    if leb (length digits) 4
    then replicate (length digits) b'*'
    else b'+'
      ∷ (take 2 digits
          ++ (replicate (length digits - 2 - 4) b'*' ++ drop (length digits - 4) digits))
