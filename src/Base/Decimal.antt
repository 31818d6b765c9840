-- ===== src/Base/Decimal.antt =====
-- `Decimal` values that are sent, and `quantize` to two decimals.
use Prim.Native.Nat.{ℕ, zero, suc, ◌+◌, ◌*◌, ◌/◌, ◌%◌, ◌^◌, ◌≤◌, ◌<◌, compare, Ordering}
use mathlib.Core.Option.{Option, none, some}
use native.Mathlib.Decide.{dec_lt}
use native.Mathlib.Omega.{arith}
use project_hamilton.Base.Money.{limit}

-- A finite decimal of zero or more: `digits` divided by 10 to the power of `places`.
pub record Decimal : Type 0 where
  pub digits : ℕ
  pub places : ℕ

-- `x / u` to the nearest number, and of two equally near to the even one (ROUND_HALF_EVEN).
unfoldable pub nearest : ℕ → ℕ → ℕ
nearest x u = elim (compare (2 * (x % u)) u) [
  | Ordering.lt ↦ x / u
  | Ordering.eq ↦ x / u + x / u % 2
  | Ordering.gt ↦ x / u + 1
]

-- The cents of `quantize(Decimal("0.00"))`, which raises InvalidOperation (none) where they have
-- more than 28 digits.
unfoldable pub quantize : Decimal → Option ℕ
unfolding nearest dec_lt
quantize d = elim (dec_lt (nearest (d.digits * 100) (10 ^ d.places)) limit) [
  | yes _ ↦ some (nearest (d.digits * 100) (10 ^ d.places))
  | no _ ↦ none
]

-- The nearest number is at most one half away.
pub nearest_near :
    (x u : ℕ) → 0 < u → (2 * (nearest x u * u) ≤ 2 * x + u) × (2 * x ≤ 2 * (nearest x u * u) + u)
unfolding nearest
nearest_near x u h = grind arith

pub pow-pos : (n : ℕ) → 0 < 10 ^ n
pow-pos zero = omega arith
pow-pos (suc n) = grind (arith, pow-pos n)
