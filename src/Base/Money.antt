-- ===== src/Base/Money.antt =====
-- Python's `Decimal` addition, on amounts counted in a unit of a fixed scale: the exact sum,
-- rounded half to even to the 28 significant digits of the default context.
use Prim.Native.Nat.{ℕ, zero, suc, ◌+◌, ◌*◌, ◌/◌, ◌%◌, ◌≤◌, ◌<◌, compare, Ordering}
use mathlib.Core.Path.{◌≡◌, refl}
use native.Mathlib.Decide.{dec_lt}
use native.Mathlib.Nat.{le-div_iff_mul-le, mul-le-mul_right}
use mathlib.Core.Logic.{◌⊎◌, inl}
use native.Mathlib.Omega.{arith}

-- The least number with more than 28 digits.
abbrev pub limit : ℕ
limit = 10000000000000000000000000000

-- The nearest multiple of `u`; of two equally near, the one with an even factor.
half_even : ℕ → ℕ → ℕ
half_even x u = elim (compare (2 * (x % u)) u) [
  | Ordering.lt ↦ x / u * u
  | Ordering.eq ↦ (x / u + x / u % 2) * u
  | Ordering.gt ↦ (x / u + 1) * u
]

round_from : ℕ → ℕ → ℕ → ℕ
unfolding half_even dec_lt
round_from zero u x = x
round_from (suc fuel) u x = elim (dec_lt x (limit * u)) [
  | yes _ ↦ half_even x u
  | no _ ↦ round_from fuel (u * 10) x
]

-- `x` units rounded to the context; `x + 1` rounds are enough, since `x < 10 ^ x`.
unfoldable pub round : ℕ → ℕ
unfolding round_from
round x = round_from (suc x) 1 x

-- `a + b` of two decimals of zero or more.
unfoldable pub add_money : ℕ → ℕ → ℕ
unfolding round
add_money a b = round (a + b)

half_even-one : (x : ℕ) → half_even x 1 ≡ x
unfolding half_even
half_even-one x = ground arith

pub round_exact : (x : ℕ) → x < limit → round x ≡ x
unfolding round round_from
round_exact x h = ground (arith, half_even-one x)

-- A sum of at most 28 digits is exact.
pub add_money_exact : (a b : ℕ) → a + b < limit → add_money a b ≡ a + b
unfolding add_money
add_money_exact a b h = round_exact (a + b) h

-- 28 nines and five make 10 ^ 28 + 4, whose last digit is rounded away.
add_money_rounds : add_money 9999999999999999999999999999 5 ≡ 10000000000000000000000000000
unfolding add_money
add_money_rounds = refl

half_even-ge : (k u x : ℕ) → 0 < u → k * u ≤ x → k * u ≤ half_even x u
unfolding half_even
half_even-ge k u x p h = ground (arith, mul-le-mul_right u ((le-div_iff_mul-le p).1 h))

round_from-ge :
    (fuel u x : ℕ)
    → (u ≡ 1) ⊎ (10 ≤ u)
    → limit ≤ x
    → limit * u ≤ x * 10
    → limit ≤ round_from fuel u x
unfolding round_from
round_from-ge zero u x p g h = g
round_from-ge (suc fuel) u x p g h = elim (dec_lt x (limit * u)) [
  | yes small ↦ ground (arith, half_even-ge 1000000000000000000000000000 u x (omega arith))
  | no large ↦ ground (arith, round_from-ge fuel (u * 10) x)
]

-- What has more than 28 digits keeps more than 28 digits.
pub round-ge : (x : ℕ) → limit ≤ x → limit ≤ round x
unfolding round
round-ge x h = round_from-ge (suc x) 1 x (inl refl) h (omega arith)

pub add_money-ge : (a b : ℕ) → limit ≤ a + b → limit ≤ add_money a b
unfolding add_money
add_money-ge a b h = round-ge (a + b) h
