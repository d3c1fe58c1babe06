-- ===== src/Domain/Template/Escaping.antt =====
-- Literal text in a template: every `{{` of it written `\\{{`.
use whatsapp_notification_pl.Prelude.{
  ℕ, zero, suc, ◌+◌, ◌<◌, ◌≡◌, refl, sym, ap, ◌∙◌, Bool, true, false, [], ◌∷◌, ◌++◌, arith,
  if◌then◌else◌, length, drop, Text,
}
use mathlib.Core.List.{append_assoc, append-nil}
use whatsapp_notification_pl.Domain.Template.{
  ParseResult, parsed, placeholder_open, escaped_open, starts_with, literal, read_token, flush_text,
  parse_from, parse_template,
}

abbrev pub escape : Text → Text
escape [] = []
escape (c ∷ []) = c ∷ []
escape (c ∷ d ∷ rest) =
    let after_one = escape (d ∷ rest) in
    let after_two = escape rest in
    if starts_with placeholder_open (c ∷ d ∷ rest)
    then 92 ∷ b'{' ∷ b'{' ∷ after_two
    else c ∷ after_one

starts_with-escape-brace :
    (t : Text) → starts_with (b'{' ∷ []) (escape t) ≡ true → starts_with (b'{' ∷ []) t ≡ true
starts_with-escape-brace [] h = h
starts_with-escape-brace (c ∷ []) h = h
starts_with-escape-brace (c ∷ d ∷ rest) h = ground arith

starts_with-escape : (t : Text) → starts_with placeholder_open (escape t) ≡ false
starts_with-escape [] = refl
starts_with-escape (c ∷ []) = ground arith
starts_with-escape (c ∷ d ∷ rest) = ground (arith, starts_with-escape-brace (d ∷ rest))

placeholder_open-head :
    (c d : ℕ) (rest : Text)
    → starts_with placeholder_open (c ∷ d ∷ rest) ≡ true
    → placeholder_open ++ rest ≡ c ∷ d ∷ rest
placeholder_open-head c d rest h = ground arith

read_token-literal :
    (c : ℕ) (rest : Text)
    → starts_with escaped_open (c ∷ rest) ≡ false
    → starts_with placeholder_open (c ∷ rest) ≡ false
    → read_token (c ∷ rest) ≡ literal (c ∷ []) 1
unfolding read_token
read_token-literal c rest h k = rw (h, k)

parse_from-literal :
    (fuel : ℕ) (rest : Text) (index : ℕ) (buffer value : Text) (n : ℕ)
    → read_token rest ≡ literal value n
    → parse_from (suc fuel) rest index buffer [] []
      ≡ parse_from fuel (drop n rest) (index + n) (buffer ++ value) [] []
unfolding parse_from
parse_from-literal fuel rest index buffer value n h = rw (parse_from, h)

parse_from-character :
    (fuel c : ℕ) (rest : Text) (index : ℕ) (buffer : Text)
    → starts_with escaped_open (c ∷ rest) ≡ false
    → starts_with placeholder_open (c ∷ rest) ≡ false
    → parse_from (suc fuel) (c ∷ rest) index buffer [] []
      ≡ parse_from fuel rest (index + 1) (buffer ++ c ∷ []) [] []
parse_from-character fuel c rest index buffer h k =
    parse_from-literal fuel (c ∷ rest) index buffer (c ∷ []) 1 (read_token-literal c rest h k)

-- What the loop returns for the text `t`.
abbrev only_text : Text → ParseResult
only_text t = parsed (record { nodes = flush_text t []; variable_names = [] })

parse_from-escape :
    (fuel : ℕ) (t : Text) (index : ℕ) (buffer : Text)
    → length (escape t) < fuel
    → parse_from fuel (escape t) index buffer [] [] ≡ only_text (buffer ++ t)
unfolding parse_from read_token
parse_from-escape zero t index buffer h = absurd (omega (arith, h))
parse_from-escape (suc fuel) [] index buffer h = ap only_text (sym (append-nil buffer))
parse_from-escape (suc fuel) (c ∷ []) index buffer h =
    parse_from-character fuel c [] index buffer (ground arith) (ground arith)
    ∙ parse_from-escape fuel [] (index + 1) (buffer ++ c ∷ []) (omega (arith, h))
    ∙ ap only_text (append-nil (buffer ++ c ∷ []))
parse_from-escape (suc fuel) (c ∷ d ∷ rest) index buffer h =
    go (starts_with placeholder_open (c ∷ d ∷ rest)) refl h (parse_from-escape fuel)
      (starts_with-escape (c ∷ d ∷ rest)) (starts_with-escape (d ∷ rest))
  where
    go :
        (b : Bool)
        → starts_with placeholder_open (c ∷ d ∷ rest) ≡ b
        → length (if b then 92 ∷ b'{' ∷ b'{' ∷ escape rest else c ∷ escape (d ∷ rest)) < suc fuel
        → ((t' : Text) (index' : ℕ) (buffer' : Text)
            → length (escape t') < fuel
            → parse_from fuel (escape t') index' buffer' [] [] ≡ only_text (buffer' ++ t'))
        → starts_with placeholder_open
            (if b then 92 ∷ b'{' ∷ b'{' ∷ escape rest else c ∷ escape (d ∷ rest))
          ≡ false
        → starts_with placeholder_open (escape (d ∷ rest)) ≡ false
        → parse_from
            (suc fuel)
            (if b then 92 ∷ b'{' ∷ b'{' ∷ escape rest else c ∷ escape (d ∷ rest))
            index
            buffer
            []
            []
          ≡ only_text (buffer ++ c ∷ d ∷ rest)
    go true e k later p q =
        later rest (index + 3) (buffer ++ placeholder_open) (omega (arith, k))
        ∙ ap only_text (
            append_assoc buffer placeholder_open rest
            ∙ ap (λ (t : Text). buffer ++ t) (placeholder_open-head c d rest e))
    go false e k later p q =
        parse_from-character fuel c (escape (d ∷ rest)) index buffer (ground (arith, q)) p
        ∙ later (d ∷ rest) (index + 1) (buffer ++ c ∷ []) (omega (arith, k))
        ∙ ap only_text (append_assoc buffer (c ∷ []) (d ∷ rest))

-- Escaping: for every text t, the template made of t with each `{{` written as the escape is
-- parsed without error, into the one text node t (no node where t is empty) and no variables.
pub parse_template-escape :
    (t : Text)
    → parse_template (escape t) ≡ parsed (record { nodes = flush_text t []; variable_names = [] })
unfolding parse_template
parse_template-escape t = parse_from-escape (suc (length (escape t))) t 0 [] (omega arith)
