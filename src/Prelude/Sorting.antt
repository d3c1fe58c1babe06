-- ===== src/Prelude/Sorting.antt =====
-- Sorting by an order that is given as a Boolean test, and the pages of a sorted list.
use Prim.Native.Nat.{ℕ, zero, suc, ◌≤◌}
use mathlib.Core.Path.{◌≡◌, refl, sym, ap, ◌∙◌, subst}
use mathlib.Core.Logic.{◌⊎◌, inl, inr}
use mathlib.Core.Bool.{Bool, true, false, ◌&&◌}
use mathlib.Core.Option.{Option, none, some}
use mathlib.Core.List.{List, [], ◌∷◌, ◌++◌}
use native.Mathlib.Omega.{arith}
use whatsapp_notification_pl.Prelude.Tests.{if◌then◌else◌, Bool-cases, get_or}
use whatsapp_notification_pl.Prelude.Lists.{length, take, drop, filter, last?, All}

module _ {ℓ} {A : Type ℓ} where
  pub All-filter {κ} :
      (P : A → Type κ) (p : A → Bool) (xs : List A) → All P xs → All P (filter p xs)
  All-filter P p [] h = tt
  All-filter P p (x ∷ xs) (px, h) = go (p x) (All-filter P p xs h)
    where
      go : (b : Bool) → All P (filter p xs) → All P (if b then x ∷ filter p xs else filter p xs)
      go true later = (px, later)
      go false later = later

  pub All-last {κ} :
      (P : A → Type κ) (k : ℕ) (xs : List A) (y : A) → All P xs → last? (take k xs) ≡ some y → P y
  All-last P zero xs y h e = absurd (cc e)
  All-last P (suc k) [] y h e = absurd (cc e)
  All-last P (suc k) (x ∷ xs) y (px, h) e = go (last? (take k xs)) (λ e'. All-last P k xs y h e') e
    where
      go :
          (o : Option A)
          → (o ≡ some y → P y)
          → elim o as (λ _. Option A) [ none ↦ some x | some z ↦ some z ] ≡ some y
          → P y
      go none later e' = subst P (ap (λ (o : Option A). get_or o x) e') px
      go (some z) later e' = later e'

  pub All-map {κ μ} :
      {P : A → Type κ} {Q : A → Type μ} (xs : List A) → ((x : A) → P x → Q x) → All P xs → All Q xs
  All-map [] h k = tt
  All-map (x ∷ xs) h (k, ks) = (h x k, All-map xs h ks)

  pub All-zip {κ μ ν} :
      {P : A → Type κ} {Q : A → Type μ} {R : A → Type ν} (xs : List A)
      → ((x : A) → P x → Q x → R x)
      → All P xs
      → All Q xs
      → All R xs
  All-zip [] h p q = tt
  All-zip (x ∷ xs) h (p, ps) (q, qs) = (h x p q, All-zip xs h ps qs)

  pub All-tabulate {κ} : {P : A → Type κ} (xs : List A) → ((x : A) → P x) → All P xs
  All-tabulate [] h = tt
  All-tabulate (x ∷ xs) h = (h x, All-tabulate xs h)

  pub filter-filter :
      (p q r : A → Bool) (xs : List A)
      → All (λ (x : A). (p x && q x) ≡ r x) xs
      → filter p (filter q xs) ≡ filter r xs
  filter-filter p q r [] h = refl
  filter-filter p q r (x ∷ xs) (hx, h) = go (q x) hx (filter-filter p q r xs h)
    where
      pick : Bool → List A → List A
      pick b ys = if b then x ∷ ys else ys

      go :
          (b : Bool)
          → (p x && b) ≡ r x
          → filter p (filter q xs) ≡ filter r xs
          → filter p (if b then x ∷ filter q xs else filter q xs)
            ≡ (if r x then x ∷ filter r xs else filter r xs)
      go true e later =
          ap (pick (p x)) later ∙ ap (λ (c : Bool). pick c (filter r xs)) (and_true (p x) ∙ e)
        where
          and_true : (c : Bool) → c ≡ (c && true)
          and_true true = refl
          and_true false = refl
      go false e later = later ∙ ap (λ (c : Bool). pick c (filter r xs)) (and_false (p x) ∙ e)
        where
          and_false : (c : Bool) → false ≡ (c && false)
          and_false true = refl
          and_false false = refl

  pub take-append-drop : (k : ℕ) (xs : List A) → take k xs ++ drop k xs ≡ xs
  take-append-drop zero xs = refl
  take-append-drop (suc k) [] = refl
  take-append-drop (suc k) (x ∷ xs) = ap (◌∷◌ x) (take-append-drop k xs)

  pub take-all : (k : ℕ) (xs : List A) → length xs ≤ k → take k xs ≡ xs
  take-all zero [] h = refl
  take-all zero (x ∷ xs) h = absurd (omega (arith, h))
  take-all (suc k) [] h = refl
  take-all (suc k) (x ∷ xs) h = ap (◌∷◌ x) (take-all k xs (omega (arith, h)))

  pub take_page : (k : ℕ) (xs : List A) → take k (take (suc k) xs) ≡ take k xs
  take_page zero xs = refl
  take_page (suc k) [] = refl
  take_page (suc k) (x ∷ xs) = ap (◌∷◌ x) (take_page k xs)

  drop-no_last : (k : ℕ) (xs : List A) → last? (take k xs) ≡ none → drop k xs ≡ xs
  drop-no_last zero xs e = refl
  drop-no_last (suc k) [] e = refl
  drop-no_last (suc k) (x ∷ xs) e = go (last? (take k xs)) e
    where
      go :
          (o : Option A)
          → elim o as (λ _. Option A) [ none ↦ some x | some z ↦ some z ] ≡ none
          → drop k xs ≡ x ∷ xs
      go none e' = cc
      go (some z) e' = cc

module _ {ℓ} {A : Type ℓ} (before : A → A → Bool) where
  abbrev pub insert_sorted : A → List A → List A
  insert_sorted x [] = x ∷ []
  insert_sorted x (y ∷ ys) =
      let later = insert_sorted x ys in if before x y then x ∷ y ∷ ys else y ∷ later

  -- `ORDER BY`: every row before those that it comes before.
  abbrev pub sort : List A → List A
  sort [] = []
  sort (x ∷ xs) = insert_sorted x (sort xs)

  abbrev pub IsBefore : A → A → Type 0
  IsBefore x y = before x y ≡ true

  abbrev pub IsSorted : List A → Type 0
  IsSorted [] = Unit
  IsSorted (x ∷ xs) = All (IsBefore x) xs × IsSorted xs

-- An order of rows, any two of which are in it one way or the other, and none both ways.
module _ {ℓ} {A : Type ℓ} (before : A → A → Bool)
    (before_trans : (x y z : A) → before x y ≡ true → before y z ≡ true → before x z ≡ true)
    (before_asym : (x y : A) → before x y ≡ true → before y x ≡ false) where
  abbrev pub IsComparable : A → A → Type 0
  IsComparable x y = IsBefore before x y ⊎ IsBefore before y x

  abbrev pub IsApart : List A → Type 0
  IsApart [] = Unit
  IsApart (x ∷ xs) = All (IsComparable x) xs × IsApart xs

  after_each :
      (x y : A) (ys : List A)
      → before x y ≡ true
      → All (IsBefore before y) ys
      → All (IsBefore before x) ys
  after_each x y [] h k = tt
  after_each x y (z ∷ zs) h (k, ks) = (before_trans x y z h k, after_each x y zs h ks)

  All-insert_sorted {κ} :
      (P : A → Type κ) (x : A) (ys : List A) → P x → All P ys → All P (insert_sorted before x ys)
  All-insert_sorted P x [] px h = (px, tt)
  All-insert_sorted P x (y ∷ ys) px (py, h) = go (before x y) (All-insert_sorted P x ys px h)
    where
      go :
          (b : Bool)
          → All P (insert_sorted before x ys)
          → All P (if b then x ∷ y ∷ ys else y ∷ insert_sorted before x ys)
      go true later = (px, (py, h))
      go false later = (py, later)

  pub All-sort {κ} : (P : A → Type κ) (xs : List A) → All P xs → All P (sort before xs)
  All-sort P [] h = tt
  All-sort P (x ∷ xs) (px, h) = All-insert_sorted P x (sort before xs) px (All-sort P xs h)

  insert_sorted-IsSorted :
      (x : A) (ys : List A)
      → IsSorted before ys
      → All (IsComparable x) ys
      → IsSorted before (insert_sorted before x ys)
  insert_sorted-IsSorted x [] h k = (tt, tt)
  insert_sorted-IsSorted x (y ∷ ys) (first, h) (c, cs) =
      go (before x y) refl c (insert_sorted-IsSorted x ys h cs)
    where
      go :
          (b : Bool)
          → before x y ≡ b
          → IsComparable x y
          → IsSorted before (insert_sorted before x ys)
          → IsSorted before (if b then x ∷ y ∷ ys else y ∷ insert_sorted before x ys)
      go true e c later = ((e, after_each x y ys e first), (first, h))
      go false e (inl sooner) later = absurd (cc (sym e ∙ sooner))
      go false e (inr other) later = (All-insert_sorted (IsBefore before y) x ys other first, later)

  pub sort-IsSorted : (xs : List A) → IsApart xs → IsSorted before (sort before xs)
  sort-IsSorted [] h = tt
  sort-IsSorted (x ∷ xs) (h, hs) =
      insert_sorted-IsSorted x (sort before xs) (sort-IsSorted xs hs)
        (All-sort (IsComparable x) xs h)

  insert_sorted-first :
      (x : A) (zs : List A) → All (IsBefore before x) zs → insert_sorted before x zs ≡ x ∷ zs
  insert_sorted-first x [] h = refl
  insert_sorted-first x (z ∷ zs) (h, hs) = rw h

  filter-insert_sorted :
      (p : A → Bool) (x : A) (ys : List A)
      → IsSorted before ys
      → filter p (insert_sorted before x ys)
        ≡ (if p x then insert_sorted before x (filter p ys) else filter p ys)
  filter-insert_sorted p x [] h = refl
  filter-insert_sorted p x (y ∷ ys) (first, h) =
      go (before x y) refl (filter-insert_sorted p x ys h)
    where
      kept : List A
      kept = if p y then y ∷ filter p ys else filter p ys

      swap :
          (c d : Bool)
          → before x y ≡ false
          → (if d
              then y ∷ (if c then insert_sorted before x (filter p ys) else filter p ys)
              else if c
              then insert_sorted before x (filter p ys)
              else filter p ys)
            ≡ (if c
                then insert_sorted before x (if d then y ∷ filter p ys else filter p ys)
                else if d
                then y ∷ filter p ys
                else filter p ys)
      swap true true e = rw e
      swap true false e = refl
      swap false true e = refl
      swap false false e = refl

      go :
          (b : Bool)
          → before x y ≡ b
          → filter p (insert_sorted before x ys)
            ≡ (if p x then insert_sorted before x (filter p ys) else filter p ys)
          → filter p (if b then x ∷ y ∷ ys else y ∷ insert_sorted before x ys)
            ≡ (if p x then insert_sorted before x kept else kept)
      go true e later =
          ap (λ (zs : List A). if p x then zs else kept)
            (sym (
              insert_sorted-first x kept
                (All-filter (IsBefore before x) p (y ∷ ys) (e, after_each x y ys e first))))
      go false e later = ap (λ (zs : List A). if p y then y ∷ zs else zs) later ∙ swap (p x) (p y) e

  pub filter-IsApart : (p : A → Bool) (xs : List A) → IsApart xs → IsApart (filter p xs)
  filter-IsApart p [] h = tt
  filter-IsApart p (x ∷ xs) (h, hs) =
      go (p x) (All-filter (IsComparable x) p xs h) (filter-IsApart p xs hs)
    where
      go :
          (b : Bool)
          → All (IsComparable x) (filter p xs)
          → IsApart (filter p xs)
          → IsApart (if b then x ∷ filter p xs else filter p xs)
      go true k ks = (k, ks)
      go false k ks = ks

  -- Filtering and sorting may change places.
  pub filter-sort :
      (p : A → Bool) (xs : List A)
      → IsApart xs
      → filter p (sort before xs) ≡ sort before (filter p xs)
  filter-sort p [] h = refl
  filter-sort p (x ∷ xs) (h, hs) =
      filter-insert_sorted p x (sort before xs) (sort-IsSorted xs hs)
      ∙ ap (λ (zs : List A). if p x then insert_sorted before x zs else zs) (filter-sort p xs hs)
      ∙ go (p x)
    where
      go :
          (b : Bool)
          → (if b
              then insert_sorted before x (sort before (filter p xs))
              else sort before (filter p xs))
            ≡ sort before (if b then x ∷ filter p xs else filter p xs)
      go true = refl
      go false = refl

  filter_keeps : (p : A → Bool) (xs : List A) → All (λ y. p y ≡ true) xs → filter p xs ≡ xs
  filter_keeps p [] h = refl
  filter_keeps p (x ∷ xs) (h, hs) = rw h (ap (◌∷◌ x) (filter_keeps p xs hs))

  before_irrefl : (x : A) → before x x ≡ false
  before_irrefl x = elim (Bool-cases (before x x)) [
    | inl sooner ↦ before_asym x x sooner
    | inr other ↦ other
  ]

  -- What comes after the last row of a page is what the page left out.
  pub filter-page :
      (k : ℕ) (ys : List A) (y : A)
      → IsSorted before ys
      → last? (take k ys) ≡ some y
      → filter (before y) ys ≡ drop k ys
  filter-page zero ys y h e = absurd (cc e)
  filter-page (suc k) [] y h e = absurd (cc e)
  filter-page (suc k) (x ∷ ys) y (first, h) e =
      go (last? (take k ys)) refl e (λ e'. filter-page k ys y h e')
    where
      go :
          (o : Option A)
          → last? (take k ys) ≡ o
          → elim o as (λ _. Option A) [ none ↦ some x | some z ↦ some z ] ≡ some y
          → (last? (take k ys) ≡ some y → filter (before y) ys ≡ drop k ys)
          → (if before y x then x ∷ filter (before y) ys else filter (before y) ys) ≡ drop k ys
      go none e' k' later =
          subst
            (λ (z : A).
              (if before z x then x ∷ filter (before z) ys else filter (before z) ys) ≡ drop k ys)
            (ap (λ (o : Option A). get_or o x) k')
            (ap (λ (b : Bool). if b then x ∷ filter (before x) ys else filter (before x) ys)
                (before_irrefl x)
              ∙ filter_keeps (before x) ys first
              ∙ sym (drop-no_last k ys e'))
      go (some z) e' k' later =
          ap (λ (b : Bool). if b then x ∷ filter (before y) ys else filter (before y) ys)
            (before_asym x y (All-last (IsBefore before x) k ys y first (e' ∙ k')))
          ∙ later (e' ∙ k')
