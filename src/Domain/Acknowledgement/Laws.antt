-- ===== src/Domain/Acknowledgement/Laws.antt =====
-- Merging acknowledgements that arrive out of order and repeat.
use mathlib.Core.List.{Perm, Permᴰ}
use mathlib.Core.Logic.{∥∥₁_elim}
use whatsapp_notification_pl.Prelude.{
  ℕ, ◌≤◌, max, ◌≡◌, refl, sym, ap, ◌∙◌, Bool, true, false, ◌||◌, some, List, [], ◌∷◌, arith,
  is_some, any,
}
use whatsapp_notification_pl.Domain.Acknowledgement.{
  DeliveryAcknowledgement, error, pending, server, device, read, played, Value, value,
  is_delivery_acknowledgement, to_delivery_acknowledgement, merge_acknowledgements,
  is_delivered_acknowledgement, is_read_acknowledgement, is_failure_acknowledgement,
}

-- How much is known about the message; a failure outranks every receipt.
abbrev pub height : DeliveryAcknowledgement → ℕ
height pending = 0
height server = 1
height device = 2
height read = 3
height played = 4
height error = 5

pub height_injective : (a b : DeliveryAcknowledgement) → height a ≡ height b → a ≡ b
height_injective a b h = ground arith

pub height-merge :
    (a b : DeliveryAcknowledgement)
    → height (merge_acknowledgements a b) ≡ max (height a) (height b)
unfolding merge_acknowledgements
height-merge a b = ground arith

-- What a sequence of receipts leaves, merged one after the other.
unfoldable pub merge_all :
    DeliveryAcknowledgement → List DeliveryAcknowledgement → DeliveryAcknowledgement
merge_all current [] = current
merge_all current (a ∷ rest) = merge_all (merge_acknowledgements current a) rest

abbrev highest : ℕ → List DeliveryAcknowledgement → ℕ
highest n [] = n
highest n (a ∷ rest) = highest (max n (height a)) rest

height-merge_all :
    (a : DeliveryAcknowledgement) (bs : List DeliveryAcknowledgement)
    → height (merge_all a bs) ≡ highest (height a) bs
unfolding merge_all
height-merge_all a [] = refl
height-merge_all a (b ∷ bs) =
    rw (height-merge_all (merge_acknowledgements a b) bs, height-merge a b)

pub merge_comm :
    (a b : DeliveryAcknowledgement) → merge_acknowledgements a b ≡ merge_acknowledgements b a
unfolding merge_acknowledgements
merge_comm a b = ground arith

pub merge_assoc :
    (a b c : DeliveryAcknowledgement)
    → merge_acknowledgements (merge_acknowledgements a b) c
      ≡ merge_acknowledgements a (merge_acknowledgements b c)
merge_assoc a b c = height_injective _ _ (
    omega (
      arith,
      height-merge (merge_acknowledgements a b) c,
      height-merge a b,
      height-merge a (merge_acknowledgements b c),
      height-merge b c,
    ))

merge_all-swap :
    (a b c : DeliveryAcknowledgement) (bs : List DeliveryAcknowledgement)
    → merge_all a (b ∷ c ∷ bs) ≡ merge_all a (c ∷ b ∷ bs)
unfolding merge_all
merge_all-swap a b c bs =
    ap (λ x. merge_all x bs)
      (merge_assoc a b c
        ∙ (ap (merge_acknowledgements a) (merge_comm b c) ∙ sym (merge_assoc a c b)))

merge_all-derivation :
    {bs cs : List DeliveryAcknowledgement}
    → Permᴰ bs cs
    → (a : DeliveryAcknowledgement) → merge_all a bs ≡ merge_all a cs
unfolding merge_all
merge_all-derivation Permᴰ.nil a = refl
merge_all-derivation (Permᴰ.cons {a = b} {l₂ = cs} e p) a =
    merge_all-derivation p (merge_acknowledgements a b)
    ∙ ap (λ x. merge_all (merge_acknowledgements a x) cs) e
merge_all-derivation (Permᴰ.swap {a = b} {b = c} {l = l} e f) a = merge_all-swap a b c l ∙ cc (e, f)
merge_all-derivation (Permᴰ.trans p q) a = merge_all-derivation p a ∙ merge_all-derivation q a

DeliveryAcknowledgement-set : IsSet DeliveryAcknowledgement
DeliveryAcknowledgement-set = hlevel

-- The order in which receipts arrive does not matter: any rearrangement of them, merged one
-- after the other, leaves the same acknowledgement.
pub merge_all-perm :
    (a : DeliveryAcknowledgement) {bs cs : List DeliveryAcknowledgement}
    → Perm bs cs
    → merge_all a bs ≡ merge_all a cs
merge_all-perm a p = ∥∥₁_elim p (DeliveryAcknowledgement-set _ _) (λ d. merge_all-derivation d a)

merge_all-height_mono :
    (a : DeliveryAcknowledgement) (bs : List DeliveryAcknowledgement)
    → height a ≤ height (merge_all a bs)
unfolding merge_all
merge_all-height_mono a [] = omega arith
merge_all-height_mono a (b ∷ bs) =
    omega (arith, height-merge a b, merge_all-height_mono (merge_acknowledgements a b) bs)

pub failure-merge :
    (a b : DeliveryAcknowledgement)
    → is_failure_acknowledgement (merge_acknowledgements a b)
      ≡ (is_failure_acknowledgement a || is_failure_acknowledgement b)
unfolding merge_acknowledgements is_failure_acknowledgement
failure-merge a b = ground arith

or_assoc : (a b c : Bool) → ((a || b) || c) ≡ (a || (b || c))
or_assoc true b c = refl
or_assoc false b c = refl

failure-merge_all :
    (a : DeliveryAcknowledgement) (bs : List DeliveryAcknowledgement)
    → is_failure_acknowledgement (merge_all a bs)
      ≡ (is_failure_acknowledgement a || any is_failure_acknowledgement bs)
unfolding merge_all
failure-merge_all a [] = ground arith
failure-merge_all a (b ∷ bs) =
    failure-merge_all (merge_acknowledgements a b) bs
    ∙ ap (λ (x : Bool). x || any is_failure_acknowledgement bs) (failure-merge a b)
    ∙ or_assoc (is_failure_acknowledgement a) (is_failure_acknowledgement b)
        (any is_failure_acknowledgement bs)

-- The receipts leave a failure exactly when the message had failed before or one of them is the
-- failure. Where none of them is, a message that counted as delivered still does, and one that
-- counted as read still does.
pub merge_all_keeps :
    (a : DeliveryAcknowledgement) (bs : List DeliveryAcknowledgement)
    → let b = merge_all a bs in
      (is_failure_acknowledgement b
        ≡ (is_failure_acknowledgement a || any is_failure_acknowledgement bs))
      × (any is_failure_acknowledgement bs ≡ false
          → is_delivered_acknowledgement a ≡ true
          → is_delivered_acknowledgement b ≡ true)
      × (any is_failure_acknowledgement bs ≡ false
          → is_read_acknowledgement a ≡ true
          → is_read_acknowledgement b ≡ true)
unfolding is_failure_acknowledgement is_delivered_acknowledgement is_read_acknowledgement
merge_all_keeps a bs =
    let m = merge_all-height_mono a bs in
    let e = failure-merge_all a bs in
    (e, (λ n d. ground (arith, m, e, n, d)), (λ n d. ground (arith, m, e, n, d)))

-- A raw value is accepted exactly when it is the value of an acknowledgement, and is read as
-- that one.
to_delivery_acknowledgement-value :
    (a : DeliveryAcknowledgement) (v : Value)
    → (to_delivery_acknowledgement (value a) ≡ some a)
      × (is_delivery_acknowledgement v ≡ is_some (to_delivery_acknowledgement v))
      × (to_delivery_acknowledgement v ≡ some a → v ≡ value a)
unfolding to_delivery_acknowledgement is_delivery_acknowledgement
to_delivery_acknowledgement-value a v = (ground arith, ground arith, ground arith)
