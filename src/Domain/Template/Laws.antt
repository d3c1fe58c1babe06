-- ===== src/Domain/Template/Laws.antt =====
-- What the parser finds: it always ends, and every placeholder that it reports is there.
use whatsapp_notification_pl.Prelude.{
  ℕ, zero, suc, ◌+◌, ◌≤◌, ◌<◌, ◌≢◌, Bool, true, false, not, Option, none, some, List, [], ◌∷◌, ◌++◌,
  arith, if◌then◌else◌, length, take, drop, Text,
}
use whatsapp_notification_pl.Domain.Template.{
  TemplateNode, variable, TemplateSyntaxErrorCode, ParseResult, parsed, syntax_error, out_of_fuel,
  is_variable_name, placeholder_open, escaped_open, starts_with, index_of_close, trim, Token,
  finished, literal, placeholder, failure, name_token, placeholder_token, read_token, flush_text,
  add_name, parse_from, parse_template,
}

-- A token takes at least one character, and no more than there are.
abbrev Advancing : Text → Token → Type 0
Advancing rest finished = Unit
Advancing rest (literal value n) = (1 ≤ n) × (1 ≤ length rest)
Advancing rest (placeholder name n) = (1 ≤ n) × (1 ≤ length rest)
Advancing rest (failure code) = Unit

name_token-Advancing :
    (rest raw : Text) (n : ℕ) → 1 ≤ n → 1 ≤ length rest → Advancing rest (name_token raw n)
name_token-Advancing rest [] n h k = tt
name_token-Advancing rest (c ∷ raw) n h k = go (is_variable_name (c ∷ raw))
  where
    go :
        (b : Bool)
        → Advancing rest (
            if b
            then placeholder (c ∷ raw) n
            else failure TemplateSyntaxErrorCode.invalid_variable_name)
    go true = (h, k)
    go false = tt

read_token-Advancing : (rest : Text) → Advancing rest (read_token rest)
unfolding read_token
read_token-Advancing [] = tt
read_token-Advancing (c ∷ rest) =
    go (starts_with escaped_open (c ∷ rest)) (starts_with placeholder_open (c ∷ rest))
      (index_of_close (drop 1 rest))
  where
    go :
        (b d : Bool) (o : Option ℕ)
        → Advancing (c ∷ rest) (
            if b
            then literal placeholder_open 3
            else if not d
            then literal (c ∷ []) 1
            else placeholder_token (drop 1 rest) o)
    go true d o = (omega arith, omega arith)
    go false false o = (omega arith, omega arith)
    go false true none = tt
    go false true (some close) =
        name_token-Advancing (c ∷ rest) (trim (take close (drop 1 rest))) (close + 4) (omega arith)
          (omega arith)

length-drop : (n : ℕ) (t : Text) → 1 ≤ n → 1 ≤ length t → length (drop n t) < length t
length-drop zero t h k = absurd (omega (arith, h))
length-drop (suc n) [] h k = absurd (omega (arith, k))
length-drop (suc zero) (c ∷ t) h k = omega arith
length-drop (suc (suc n)) (c ∷ []) h k = omega arith
length-drop (suc (suc n)) (c ∷ d ∷ t) h k =
    omega (arith, length-drop (suc n) (d ∷ t) (omega arith) (omega arith))

parse_from-ends :
    (fuel : ℕ) (rest : Text) (index : ℕ) (buffer : Text) (nodes : List TemplateNode)
    (names : List Text)
    → length rest < fuel
    → parse_from fuel rest index buffer nodes names ≢ out_of_fuel
unfolding parse_from
parse_from-ends zero rest index buffer nodes names h = absurd (omega (arith, h))
parse_from-ends (suc fuel) rest index buffer nodes names h =
    go (parse_from-ends fuel) (read_token rest) (read_token-Advancing rest)
  where
    go :
        ((rest' : Text) (index' : ℕ) (buffer' : Text) (nodes' : List TemplateNode)
            (names' : List Text)
          → length rest' < fuel
          → parse_from fuel rest' index' buffer' nodes' names' ≢ out_of_fuel)
        → (t : Token) → Advancing rest t
        → elim t as (λ _. ParseResult) [
          | finished ↦ parsed (record { nodes = flush_text buffer nodes; variable_names = names })
          | literal value n ↦
              parse_from fuel (drop n rest) (index + n) (buffer ++ value) nodes names
          | placeholder name n ↦
              parse_from fuel
                (drop n rest)
                (index + n)
                []
                (flush_text buffer nodes ++ (variable name index (index + n) ∷ []))
                (add_name name names)
          | failure code ↦ syntax_error code index
        ]
          ≢ out_of_fuel
    go later finished a e = cc
    go later (literal value n) (p, q) e =
        later (drop n rest) (index + n) (buffer ++ value) nodes names
          (omega (arith, length-drop n rest p q, h)) e
    go later (placeholder name n) (p, q) e =
        later (drop n rest) (index + n) []
          (flush_text buffer nodes ++ (variable name index (index + n) ∷ [])) (add_name name names)
          (omega (arith, length-drop n rest p q, h)) e
    go later (failure code) a e = cc

-- Parsing ends on every body, with a template or a syntax error.
pub parse_template-ends : (body : Text) → parse_template body ≢ out_of_fuel
unfolding parse_template
parse_template-ends body = parse_from-ends (suc (length body)) body 0 [] [] [] (omega arith)
