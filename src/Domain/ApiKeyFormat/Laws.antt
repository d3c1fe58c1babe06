-- ===== src/Domain/ApiKeyFormat/Laws.antt =====
-- Formatting and parsing of a token undo one another.
use whatsapp_notification_pl.Prelude.{
  ℕ, zero, suc, ◌+◌, ◌≤◌, ◌≡◌, refl, sym, ap, ◌∙◌, ◌↔◌, inl, inr, Bool, true, false, Option, none,
  some, List, [], ◌∷◌, ◌++◌, arith, Bool-cases, length, take, drop, length-append, all, Text,
  text_eq, codes, text_eq_lem,
}
use mathlib.Core.Path.{subst}
use whatsapp_notification_pl.Domain.ApiKeyFormat.{
  ApiKeyEnvironment, live, test, environment_name, ParsedApiKey, is_token, is_token_character,
  format_api_key, split, to_environment, parse_body, parse_segments, try_parse_api_key, underscore,
}
use whatsapp_notification_pl.Domain.ApiKeyFormat.Segments.{
  split-token, all-append, take-append, drop-append, append-take-drop, token_of_all, split_prefix,
  join, join-split,
}

-- A key that the platform generates: letters and digits, of the two lengths.
pub record IsWellFormed (p : ParsedApiKey) : Type 0 where
  pub identifier_length : length p.identifier ≡ 12
  pub secret_length : length p.secret ≡ 32
  pub identifier_alphabet : all is_token_character p.identifier ≡ true
  pub secret_alphabet : all is_token_character p.secret ≡ true

to_environment-some :
    (t : Text) (environment : ApiKeyEnvironment)
    → to_environment t ≡ some environment
    → t ≡ environment_name environment
unfolding to_environment
to_environment-some t environment h =
    ground (arith, text_eq_lem t (codes "live"), text_eq_lem t (codes "test"))

to_environment-name :
    (environment : ApiKeyEnvironment)
    → to_environment (environment_name environment) ≡ some environment
unfolding to_environment
to_environment-name live = refl
to_environment-name test = refl

token_all : (xs : Text) → is_token xs ≡ true → all is_token_character xs ≡ true
unfolding is_token
token_all [] h = refl
token_all (x ∷ xs) h = h

lengths_of_halves :
    (n : ℕ) (xs : Text)
    → n ≤ length xs
    → (length (take n xs) ≡ n) × (length (drop n xs) + n ≡ length xs)
lengths_of_halves zero xs h = (omega arith, omega arith)
lengths_of_halves (suc n) [] h = absurd (omega (arith, h))
lengths_of_halves (suc n) (x ∷ xs) h =
    let r = lengths_of_halves n xs (omega (arith, h)) in (omega (arith, r.0), omega (arith, r.1))

alphabet_of_halves :
    (p : ℕ → Bool) (n : ℕ) (xs : Text)
    → all p xs ≡ true
    → (all p (take n xs) ≡ true) × (all p (drop n xs) ≡ true)
alphabet_of_halves p zero xs h = (refl, h)
alphabet_of_halves p (suc n) [] h = (refl, refl)
alphabet_of_halves p (suc n) (x ∷ xs) h =
    let r = alphabet_of_halves p n xs (ground (arith, h)) in (ground (arith, h, r.0), r.1)

parse_body-some :
    (body : Text) (o : Option ApiKeyEnvironment) (p : ParsedApiKey)
    → parse_body body o ≡ some p
    → (o ≡ some p.environment)
      × (length body ≡ 44)
      × (is_token body ≡ true)
      × (p.identifier ≡ take 12 body)
      × (p.secret ≡ drop 12 body)
parse_body-some body none p h = cc
parse_body-some body (some environment) p h =
    (ground arith, ground arith, ground arith, ground arith, ground arith)

parse_segments-some :
    (segments : List Text) (p : ParsedApiKey)
    → parse_segments segments ≡ some p
    → (body : Text) × (segments ≡ codes "wnp" ∷ environment_name p.environment ∷ body ∷ [])
      × IsWellFormed p
      × (p.identifier ++ p.secret ≡ body)
parse_segments-some [] p h = cc
parse_segments-some (a ∷ []) p h = cc
parse_segments-some (a ∷ b ∷ []) p h = cc
parse_segments-some (a ∷ b ∷ body ∷ []) p h = elim (Bool-cases (text_eq a (codes "wnp"))) [
  | inr other ↦ absurd (wrong other h)
  | inl same ↦
      let (e₁, e₂, e₃, e₄, e₅) = parse_body-some body (to_environment b) p (right same h) in
      let lengths = lengths_of_halves 12 body (omega (arith, e₂)) in
      let alphabet = alphabet_of_halves is_token_character 12 body (token_all body e₃) in
      (
        body,
        cc (text_eq_lem a (codes "wnp") same, to_environment-some b p.environment e₁),
        record {
          identifier_length = ap length e₄ ∙ lengths.0;
          secret_length = ap length e₅ ∙ omega (arith, lengths.1, e₂);
          identifier_alphabet = ap (all is_token_character) e₄ ∙ alphabet.0;
          secret_alphabet = ap (all is_token_character) e₅ ∙ alphabet.1;
        },
        rw (e₄, e₅) (append-take-drop 12 body),
      )
]
  where
    wrong : text_eq a (codes "wnp") ≡ false → parse_segments (a ∷ b ∷ body ∷ []) ≡ some p → ⊥
    wrong e k = ground (arith, e, k)

    right :
        text_eq a (codes "wnp") ≡ true
        → parse_segments (a ∷ b ∷ body ∷ []) ≡ some p
        → parse_body body (to_environment b) ≡ some p
    right e k = sym (rw e refl) ∙ k
parse_segments-some (a ∷ b ∷ c ∷ d ∷ rest) p h = cc

parse_segments-key :
    (environment : ApiKeyEnvironment) (body : Text)
    → all is_token_character body ≡ true
    → length body ≡ 44
    → parse_segments (codes "wnp" ∷ environment_name environment ∷ body ∷ [])
      ≡ some
          (record { environment = environment; identifier = take 12 body; secret = drop 12 body })
parse_segments-key environment body alphabet size =
    rw (to_environment-name environment, size, token_of_all body alphabet (omega (arith, size)))
      refl

join_key :
    (environment : ApiKeyEnvironment) (body : Text)
    → join (codes "wnp" ∷ environment_name environment ∷ body ∷ [])
      ≡ codes "wnp_" ++ ((environment_name environment ++ (underscore ∷ [])) ++ body)
unfolding join
join_key live body = refl
join_key test body = refl

halves :
    (identifier secret : Text)
    → length identifier ≡ 12
    → (take 12 (identifier ++ secret) ≡ identifier) × (drop 12 (identifier ++ secret) ≡ secret)
halves identifier secret h = (
  subst (λ n. take n (identifier ++ secret) ≡ identifier) h (take-append identifier secret),
  subst (λ n. drop n (identifier ++ secret) ≡ secret) h (drop-append identifier secret),
)

parsed-formatted :
    (p : ParsedApiKey)
    → IsWellFormed p
    → try_parse_api_key (format_api_key p.environment p.identifier p.secret) ≡ some p
unfolding try_parse_api_key format_api_key
parsed-formatted p w =
    let body = p.identifier ++ p.secret in
    let alphabet : all is_token_character body ≡ true =
      all-append is_token_character p.identifier p.secret w.identifier_alphabet w.secret_alphabet in
    let size : length body ≡ 44 =
      length-append p.identifier p.secret ∙ omega (arith, w.identifier_length, w.secret_length) in
    let parts = halves p.identifier p.secret w.identifier_length in
    ap parse_segments (split_prefix p.environment body)
    ∙ (ap (λ s. parse_segments (codes "wnp" ∷ environment_name p.environment ∷ s))
          (split-token body alphabet)
        ∙ (parse_segments-key p.environment body alphabet size ∙ cc (parts.0, parts.1)))

-- A text parses to a key exactly when the key has an identifier of 12 and a secret of 32 letters and
-- digits and the text is what formatting the key gives.
pub try_parse_api_key-iff-format :
    (token : Text) (p : ParsedApiKey)
    → (try_parse_api_key token ≡ some p)
      ↔ (IsWellFormed p × (token ≡ format_api_key p.environment p.identifier p.secret))
unfolding try_parse_api_key format_api_key join
try_parse_api_key-iff-format token p = (
  (λ h.
      let (body, segments, w, e) = parse_segments-some (split token) p h in
      (
        w,
        sym (join-split token)
            ∙ (ap join segments
                ∙ (join_key p.environment body
                    ∙ ap
                        (λ b.
                          codes "wnp_"
                          ++ ((environment_name p.environment ++ (underscore ∷ [])) ++ b))
                        (sym e))),
      )),
  (λ (w, e). ap try_parse_api_key e ∙ parsed-formatted p w),
)
