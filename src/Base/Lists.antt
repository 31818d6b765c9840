-- ===== src/Base/Lists.antt =====
-- Lists measured by native numbers, a predicate on every element, and duplicates.
use Prim.Native.Nat.{ℕ, suc}
use mathlib.Core.Bool.{Bool, true, false}
use mathlib.Core.List.{List, [], ◌∷◌, ◌++◌}

module _ {ℓ} {A : Type ℓ} where
  abbrev pub length : List A → ℕ
  length [] = 0
  length (x ∷ xs) = suc (length xs)

  -- Every element has the property.
  abbrev pub All {κ} : (A → Type κ) → List A → Type κ
  All P [] = Unit
  All P (x ∷ xs) = P x × All P xs

  -- `x in xs`, by a decision of equality.
  unfoldable pub contains : Discrete A → A → List A → Bool
  contains dec x [] = false
  contains dec x (y ∷ ys) = elim (dec x y) [ yes _ ↦ true | no _ ↦ contains dec x ys ]

  -- `len(xs) != len(set(xs))`: some element occurs twice.
  unfoldable pub has_duplicate : Discrete A → List A → Bool
  has_duplicate dec [] = false
  has_duplicate dec (x ∷ xs) = elim (contains dec x xs) [
    | true ↦ true
    | false ↦ has_duplicate dec xs
  ]

  pub All-split {κ} :
      (P : A → Type κ) (xs : List A) (y : A) (ys : List A)
      → All P (xs ++ y ∷ ys)
      → P y × All P (xs ++ ys)
  All-split P [] y ys all = all
  All-split P (x ∷ xs) y ys all = let (p, rest) = All-split P xs y ys all.1 in (p, (all.0, rest))

  pub All-zip {κ μ ν} :
      (P : A → Type κ) (Q : A → Type μ) (R : A → Type ν) (xs : List A)
      → ((x : A) → P x → Q x → R x)
      → All P xs
      → All Q xs
      → All R xs
  All-zip P Q R [] f p q = tt
  All-zip P Q R (x ∷ xs) f p q = (f x p.0 q.0, All-zip P Q R xs f p.1 q.1)
