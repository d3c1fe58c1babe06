-- ===== src/Domain/Template.antt =====
-- packages/domain/src/template/parse-template.ts: text with placeholders `{{ name }}`.
pub mod Rendering
pub mod Laws
pub mod Escaping
use whatsapp_notification_pl.Prelude.{
  ℕ, zero, suc, ◌+◌, Bool, true, false, not, ◌&&◌, ◌||◌, Option, none, some, List, [], ◌∷◌, ◌++◌,
  leb, ◌==◌, if◌then◌else◌, map_option, length, take, drop, all, Text, text_includes,
}
use whatsapp_notification_pl.Domain.PhoneNumber.{is_space}

pub data TemplateNode : Type 0 where
  text : (value : Text) → TemplateNode
  variable : (name : Text) → (start end : ℕ) → TemplateNode

pub record ParsedTemplate : Type 0 where
  pub nodes : List TemplateNode
  pub variable_names : List Text

pub data TemplateSyntaxErrorCode : Type 0 where
  unclosed_placeholder empty_placeholder invalid_variable_name : TemplateSyntaxErrorCode

-- `syntax_error` is the thrown error with its offset; the fuel never runs out (Laws).
pub data ParseResult : Type 0 where
  parsed : ParsedTemplate → ParseResult
  syntax_error : TemplateSyntaxErrorCode → (offset : ℕ) → ParseResult
  out_of_fuel : ParseResult

abbrev pub is_letter : ℕ → Bool
is_letter c = (leb b'a' c && leb c b'z') || (leb b'A' c && leb c b'Z')

abbrev pub is_name_character : ℕ → Bool
is_name_character c = is_letter c || ((leb b'0' c && leb c b'9') || c == b'_')

-- `templateVariableNamePattern`
unfoldable pub is_variable_name : Text → Bool
is_variable_name [] = false
is_variable_name (c ∷ rest) = is_letter c && (all is_name_character rest && leb (length rest) 63)

abbrev pub placeholder_open : Text
placeholder_open = b'{' ∷ b'{' ∷ []

abbrev pub placeholder_close : Text
placeholder_close = b'}' ∷ b'}' ∷ []

abbrev pub escaped_open : Text
escaped_open = 92 ∷ b'{' ∷ b'{' ∷ []

-- `body.startsWith(prefix, index)`, of the body from `index` on.
abbrev pub starts_with : (prefix : Text) → Text → Bool
starts_with [] body = true
starts_with (c ∷ prefix) [] = false
starts_with (c ∷ prefix) (d ∷ body) = c == d && starts_with prefix body

-- `body.indexOf('}}')`
unfoldable pub index_of_close : Text → Option ℕ
index_of_close [] = none
index_of_close (c ∷ rest) =
    let later = map_option suc (index_of_close rest) in
    if starts_with placeholder_close (c ∷ rest) then some 0 else later

abbrev pub trim_start : Text → Text
trim_start [] = []
trim_start (c ∷ rest) = let trimmed = trim_start rest in if is_space c then trimmed else c ∷ rest

abbrev pub trim_end : Text → Text
trim_end [] = []
trim_end (c ∷ rest) = elim (trim_end rest) [
  | [] ↦ if is_space c then [] else c ∷ []
  | d ∷ more ↦ c ∷ d ∷ more
]

abbrev pub trim : Text → Text
trim t = trim_end (trim_start t)

-- What the body of the loop finds at the index, and how far it moves the index.
pub data Token : Type 0 where
  finished : Token
  literal : (value : Text) → (length : ℕ) → Token
  placeholder : (name : Text) → (length : ℕ) → Token
  failure : TemplateSyntaxErrorCode → Token

abbrev pub name_token : (raw_name : Text) → (length : ℕ) → Token
name_token [] n = failure empty_placeholder
name_token (c ∷ name) n =
    if is_variable_name (c ∷ name) then placeholder (c ∷ name) n else failure invalid_variable_name

abbrev pub placeholder_token : Text → Option ℕ → Token
placeholder_token inner none = failure unclosed_placeholder
placeholder_token inner (some close) = name_token (trim (take close inner)) (close + 4)

unfoldable pub read_token : Text → Token
unfolding is_variable_name index_of_close
read_token [] = finished
read_token (c ∷ rest) =
    if starts_with escaped_open (c ∷ rest)
    then literal placeholder_open 3
    else if not (starts_with placeholder_open (c ∷ rest))
    then literal (c ∷ []) 1
    else placeholder_token (drop 1 rest) (index_of_close (drop 1 rest))

-- `flushText`
abbrev pub flush_text : (buffer : Text) → List TemplateNode → List TemplateNode
flush_text [] nodes = nodes
flush_text (c ∷ buffer) nodes = nodes ++ (text (c ∷ buffer) ∷ [])

abbrev pub add_name : Text → List Text → List Text
add_name name names = if text_includes names name then names else names ++ (name ∷ [])

-- The loop from `index` on; `rest` is the body from there.
unfoldable pub parse_from :
    (fuel : ℕ)
    → (rest : Text) → (index : ℕ) → (buffer : Text) → List TemplateNode
    → (names : List Text) → ParseResult
parse_from zero rest index buffer nodes names = out_of_fuel
parse_from (suc fuel) rest index buffer nodes names = elim (read_token rest) [
  | finished ↦ parsed (record { nodes = flush_text buffer nodes; variable_names = names })
  | literal value n ↦ parse_from fuel (drop n rest) (index + n) (buffer ++ value) nodes names
  | placeholder name n ↦
      parse_from fuel (drop n rest) (index + n) []
        (flush_text buffer nodes ++ (variable name index (index + n) ∷ [])) (add_name name names)
  | failure code ↦ syntax_error code index
]

unfoldable pub parse_template : (body : Text) → ParseResult
unfolding parse_from
parse_template body = parse_from (suc (length body)) body 0 [] [] []
