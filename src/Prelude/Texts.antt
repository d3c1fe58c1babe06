-- ===== src/Prelude/Texts.antt =====
-- Texts: the code units of a literal, equality, and lists of texts.
use Prim.Native.Char.{code}
use Prim.Native.String.{String}
use mathlib.Core.Path.{◌≡◌, refl}
use mathlib.Core.Bool.{Bool, true}
use mathlib.Core.List.{List, [], ◌∷◌}
use native.Mathlib.Omega.{arith}
use whatsapp_notification_pl.Prelude.Lists.{any, Text, text_eq}

abbrev pub codes : String → Text
codes String.[] = []
codes (String.◌∷◌ c s) = code c ∷ codes s

pub text_eq_lem : (s t : Text) → text_eq s t ≡ true → s ≡ t
text_eq_lem [] [] h = refl
text_eq_lem [] (d ∷ t) h = cc
text_eq_lem (c ∷ s) [] h = cc
text_eq_lem (c ∷ s) (d ∷ t) h = ground (arith, text_eq_lem s t)

pub text_eq_refl : (t : Text) → text_eq t t ≡ true
text_eq_refl [] = refl
text_eq_refl (c ∷ t) = ground (arith, text_eq_refl t)

-- `list.includes(text)`
abbrev pub text_includes : List Text → Text → Bool
text_includes texts t = any (λ s. text_eq s t) texts
