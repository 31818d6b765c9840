-- ===== src/Base.antt =====
-- The names that the other modules share: library names passed on, the conditional, texts as
-- lists of code points, and the lemmas that split a computed value.
mod Lists
pub mod Action
pub mod Money
pub mod Decimal
pub mod Int
pub mod Json
unfoldable pub use Lists.*
pub use Prim.Native.Nat.{ℕ, zero, suc, ◌+◌, ◌-◌, ◌*◌, ◌/◌, ◌%◌, ◌^◌, ◌≤◌, ◌<◌}
pub use mathlib.Core.Path.{◌≡◌, refl, sym, ap, ◌∙◌, subst}
pub use mathlib.Core.Logic.{◌≢◌, ◌↔◌, ◌⊎◌, inl, inr, ite, if_pos, if_neg}
pub use mathlib.Core.Bool.{Bool, true, false, ◌&&◌, ◌||◌}
pub use mathlib.Core.Option.{Option, none, some}
pub use mathlib.Core.List.{List, [], ◌∷◌, ◌++◌, map}
pub use native.Mathlib.Omega.{arith}
unfoldable pub use native.Mathlib.Decide.{dec_lt, dec_le, ℕ_discrete}
use Prim.Native.Char.{code}
use Prim.Native.String.{String}

abbrev pub ⊤ : Type 0
⊤ = Unit

-- A Python `str`: its code points.
abbrev pub Text : Type 0
Text = List ℕ

-- A literal of the source.
abbrev pub text : String → Text
text String.[] = []
text (String.◌∷◌ c s) = code c ∷ text s

abbrev pub head_or_zero : Text → ℕ
head_or_zero [] = 0
head_or_zero (c ∷ s) = c

abbrev pub tail : Text → Text
tail [] = []
tail (c ∷ s) = s

unfoldable pub cons_dec : (c d : ℕ) {s t : Text} → Dec (c ≡ d) → Dec (s ≡ t) → Dec (c ∷ s ≡ d ∷ t)
cons_dec c d (yes p) (yes q) = yes (λ i. p i ∷ q i)
cons_dec c d (yes p) (no n) = no (λ e. n (ap tail e))
cons_dec c d (no n) q = no (λ e. n (ap head_or_zero e))

-- Equality of texts is decided letter by letter.
unfoldable pub text_dec : Discrete Text
unfolding ℕ_discrete cons_dec
text_dec [] [] = yes refl
text_dec [] (d ∷ t) = no (λ e. cc)
text_dec (c ∷ s) [] = no (λ e. cc)
text_dec (c ∷ s) (d ∷ t) = cons_dec c d (ℕ_discrete c d) (text_dec s t)

-- To split on a computed value and keep the equation.
pub Option-cases {ℓ} : {A : Type ℓ} (o : Option A) → (o ≡ none) ⊎ ((a : A) × (o ≡ some a))
Option-cases none = inl refl
Option-cases (some a) = inr (a, refl)

pub Bool-cases : (b : Bool) → (b ≡ true) ⊎ (b ≡ false)
Bool-cases true = inl refl
Bool-cases false = inr refl

text_test : ite (text_dec (text "USD") (text "USE")) (text "A") [] ≡ []
unfolding text_dec
text_test = refl
