-- ===== src/Domain/ApiKeyFormat/Segments.antt =====
-- Splitting a text at the underscores, and joining again.
use whatsapp_notification_pl.Prelude.{
  ℕ, zero, suc, ◌≤◌, ◌≡◌, refl, ap, ◌∙◌, ◌≢◌, inl, inr, Bool, true, false, List, [], ◌∷◌, ◌++◌,
  arith, ◌==◌, if◌then◌else◌, ==_iff, Bool-cases, length, take, drop, all, Text, codes,
}
use whatsapp_notification_pl.Domain.ApiKeyFormat.{
  ApiKeyEnvironment, live, test, environment_name, is_token, is_token_character, split, prepend,
  underscore,
}

pub split-token : (body : Text) → all is_token_character body ≡ true → split body ≡ body ∷ []
unfolding split
split-token [] h = refl
split-token (c ∷ rest) h = ground (arith, split-token rest)

pub all-append :
    (p : ℕ → Bool) (xs ys : Text) → all p xs ≡ true → all p ys ≡ true → all p (xs ++ ys) ≡ true
all-append p [] ys h k = k
all-append p (x ∷ xs) ys h k = ground (arith, all-append p xs ys)

pub take-append : (xs ys : Text) → take (length xs) (xs ++ ys) ≡ xs
take-append [] ys = refl
take-append (x ∷ xs) ys = ap (◌∷◌ x) (take-append xs ys)

pub drop-append : (xs ys : Text) → drop (length xs) (xs ++ ys) ≡ ys
drop-append [] ys = refl
drop-append (x ∷ xs) ys = drop-append xs ys

pub append-take-drop : (n : ℕ) (xs : Text) → take n xs ++ drop n xs ≡ xs
append-take-drop zero xs = refl
append-take-drop (suc n) [] = refl
append-take-drop (suc n) (x ∷ xs) = ap (◌∷◌ x) (append-take-drop n xs)

pub token_of_all :
    (xs : Text) → all is_token_character xs ≡ true → 1 ≤ length xs → is_token xs ≡ true
unfolding is_token
token_of_all [] h le = absurd (omega (arith, le))
token_of_all (x ∷ xs) h le = h

pub split_prefix :
    (environment : ApiKeyEnvironment) (body : Text)
    → split (codes "wnp_" ++ ((environment_name environment ++ (underscore ∷ [])) ++ body))
      ≡ codes "wnp" ∷ environment_name environment ∷ split body
unfolding split
split_prefix live body = refl
split_prefix test body = refl

unfoldable pub join : List Text → Text
join [] = []
join (segment ∷ []) = segment
join (segment ∷ next ∷ rest) = segment ++ underscore ∷ join (next ∷ rest)

pub join-prepend : (c : ℕ) (segments : List Text) → join (prepend c segments) ≡ c ∷ join segments
unfolding join
join-prepend c [] = refl
join-prepend c (s ∷ []) = refl
join-prepend c (s ∷ t ∷ rest) = refl

pub join-nil :
    (segments : List Text) → segments ≢ [] → join ([] ∷ segments) ≡ underscore ∷ join segments
unfolding join
join-nil [] h = absurd (h refl)
join-nil (s ∷ rest) h = refl

pub prepend-ne : (c : ℕ) (segments : List Text) → prepend c segments ≢ []
prepend-ne c [] h = cc
prepend-ne c (s ∷ rest) h = cc

pub split-ne : (t : Text) → split t ≢ []
unfolding split
split-ne [] h = cc
split-ne (c ∷ rest) h = go (c == underscore) h
  where
    go : (b : Bool) → (if b then [] ∷ split rest else prepend c (split rest)) ≡ [] → ⊥
    go true k = cc
    go false k = prepend-ne c (split rest) k

pub join-split : (t : Text) → join (split t) ≡ t
unfolding split join
join-split [] = refl
join-split (c ∷ rest) = elim (Bool-cases (c == underscore)) [
  | inl is_underscore ↦ rw is_underscore (
      join-nil (split rest) (split-ne rest)
      ∙ cc ((==_iff c underscore).0 is_underscore, join-split rest))
  | inr other ↦ rw other (join-prepend c (split rest) ∙ ap (◌∷◌ c) (join-split rest))
]
