-- ===== src/Common/Text.antt =====
-- Text: comparison, the characters of a text, and the codes of ASCII characters.
use Prim.Native.Char.{Char, code}
use Prim.Native.String.{String}
use mathlib.Core.Path.{◌≡◌, refl, ap}
use mathlib.Core.HLevel.{hedberg}
use mathlib.Core.Bool.{Bool, true, false}
use mathlib.Core.Logic.{◌↔◌}
use mathlib.Core.List.{List, [], ◌∷◌, ◌++◌}
use text.Mathlib.TextLemmas.{nil-append, cons-append}
pub use Prim.Native.Char.{Char, code}
pub use Prim.Native.String.{◌++◌ as ◌+++◌}
pub use text.Mathlib.Text.{◌==◌}
pub use text.Mathlib.TextEquality.{eq_iff}
pub use text.Mathlib.TextPositions.{eq_refl}

abbrev pub chars : String → List Char
chars String.[] = []
chars (String.◌∷◌ c s) = c ∷ chars s

abbrev pub of_chars : List Char → String
of_chars [] = String.[]
of_chars (c ∷ cs) = String.◌∷◌ c (of_chars cs)

pub chars-of_chars : (cs : List Char) → chars (of_chars cs) ≡ cs
chars-of_chars [] = refl
chars-of_chars (c ∷ cs) = ap (λ l. c ∷ l) (chars-of_chars cs)

pub of_chars-chars : (s : String) → of_chars (chars s) ≡ s
of_chars-chars String.[] = refl
of_chars-chars (String.◌∷◌ c s) = ap (λ t. String.◌∷◌ c t) (of_chars-chars s)

pub of_chars-injective : (a b : List Char) → of_chars a ≡ of_chars b → a ≡ b
of_chars-injective a b h = cc (chars-of_chars a, chars-of_chars b, ap chars h)

pub chars-append : (s t : String) → chars (s +++ t) ≡ chars s ++ chars t
chars-append String.[] t = rw nil-append
chars-append (String.◌∷◌ c s) t = rw cons-append (ap (λ l. c ∷ l) (chars-append s t))

decided {ℓ} : {P : Type ℓ} (b : Bool) → (b ≡ true) ↔ P → Dec P
decided true h = yes (h.0 refl)
decided false h = no (λ p. cc (h.1 p))

unfoldable pub String-discrete : Discrete String
unfolding decided
String-discrete s t = decided (s == t) (eq_iff s t)

pub String-set : IsSet String
String-set = hedberg String-discrete
