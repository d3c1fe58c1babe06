-- ===== src/Domain/Acknowledgement.antt =====
-- packages/domain/src/notification/delivery-acknowledgement.ts, and `toDeliveryAcknowledgement` of
-- provider/provider-event.ts. A raw value of the provider is an integer: `below k` is -(k + 1).
pub mod Laws
use whatsapp_notification_pl.Prelude.{
  ℕ, Bool, true, false, ◌||◌, Option, List, [], ◌∷◌, leb, ◌==◌, if◌then◌else◌, find?, any,
}

pub data DeliveryAcknowledgement : Type 0 where
  error pending server device read played : DeliveryAcknowledgement

-- An integer as the provider reports it.
pub data Value : Type 0 where
  at : ℕ → Value
  below : ℕ → Value

abbrev pub value : DeliveryAcknowledgement → Value
value error = below 0
value pending = at 0
value server = at 1
value device = at 2
value read = at 3
value played = at 4

abbrev pub value_eq : Value → Value → Bool
value_eq (at m) (at n) = m == n
value_eq (below m) (below n) = m == n
value_eq _ _ = false

abbrev pub value_le : Value → Value → Bool
value_le (at m) (at n) = leb m n
value_le (at m) (below n) = false
value_le (below m) (at n) = true
value_le (below m) (below n) = leb n m

abbrev pub delivery_acknowledgements : List DeliveryAcknowledgement
delivery_acknowledgements = error ∷ pending ∷ server ∷ device ∷ read ∷ played ∷ []

-- `Object.values(deliveryAcknowledgements).includes(value)`
unfoldable pub is_delivery_acknowledgement : Value → Bool
is_delivery_acknowledgement v = any (λ a. value_eq (value a) v) delivery_acknowledgements

-- The checked narrowing: the acknowledgement that has the value.
unfoldable pub to_delivery_acknowledgement : Value → Option DeliveryAcknowledgement
to_delivery_acknowledgement v = find? (λ a. value_eq (value a) v) delivery_acknowledgements

infix 50 ◌is◌
abbrev pub ◌is◌ : DeliveryAcknowledgement → DeliveryAcknowledgement → Bool
a is b = value_eq (value a) (value b)

abbrev pub math_max : DeliveryAcknowledgement → DeliveryAcknowledgement → DeliveryAcknowledgement
math_max a b = if value_le (value a) (value b) then b else a

unfoldable pub merge_acknowledgements :
    DeliveryAcknowledgement → DeliveryAcknowledgement → DeliveryAcknowledgement
merge_acknowledgements current incoming =
    if incoming is error
    then error
    else if current is error
    then error
    else math_max current incoming

unfoldable pub is_delivered_acknowledgement : DeliveryAcknowledgement → Bool
is_delivered_acknowledgement a = value_le (value device) (value a)

unfoldable pub is_read_acknowledgement : DeliveryAcknowledgement → Bool
is_read_acknowledgement a = a is read || a is played

unfoldable pub is_failure_acknowledgement : DeliveryAcknowledgement → Bool
is_failure_acknowledgement a = a is error
