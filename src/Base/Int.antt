-- ===== src/Base/Int.antt =====
-- Integers over the native numbers, and Python's `Decimal` addition on them: amounts of either
-- sign, counted in a unit of a fixed scale.
use Prim.Native.Nat.{ℕ, suc, ◌+◌, ◌-◌, ◌≤◌, ◌<◌, zero}
use mathlib.Core.Path.{◌≡◌}
use native.Mathlib.Decide.{dec_le}
use native.Mathlib.Omega.{arith}
use project_hamilton.Base.Money.{round, limit, round_exact}

-- `negsuc n` is -(n + 1).
pub data ℤ : Type 0 where
  pos : ℕ → ℤ
  negsuc : ℕ → ℤ

abbrev pub pos_part : ℤ → ℕ
pos_part (pos n) = n
pos_part (negsuc n) = 0

abbrev pub neg_part : ℤ → ℕ
neg_part (pos n) = 0
neg_part (negsuc n) = suc n

-- a - b, as an integer.
unfoldable pub sub_ℕ : ℕ → ℕ → ℤ
sub_ℕ a b = elim (dec_le b a) [ yes _ ↦ pos (a - b) | no _ ↦ negsuc (b - a - 1) ]

-- -n
unfoldable pub neg_ℕ : ℕ → ℤ
neg_ℕ zero = pos 0
neg_ℕ (suc n) = negsuc n

-- The unary minus and the rounding act on the digits, whatever the sign.
unfoldable pub round_ℤ : ℤ → ℤ
round_ℤ (pos n) = pos (round n)
round_ℤ (negsuc n) = neg_ℕ (round (suc n))

-- `a + b` of two decimals.
unfoldable pub add_decimal : ℤ → ℤ → ℤ
add_decimal a b = round_ℤ (sub_ℕ (pos_part a + pos_part b) (neg_part a + neg_part b))

-- A sum of two amounts that are not negative, of at most 28 digits, is exact.
pub add_decimal_pos : (a b : ℕ) → a + b < limit → add_decimal (pos a) (pos b) ≡ pos (a + b)
unfolding add_decimal sub_ℕ round_ℤ
add_decimal_pos a b h = ground (arith, round_exact (a + b) h)

-- A difference is exact, and negative exactly if less is there than is taken.
pub add_decimal_neg : (a b : ℕ) → a < limit → b ≤ a → add_decimal (pos a) (neg_ℕ b) ≡ pos (a - b)
unfolding add_decimal sub_ℕ round_ℤ neg_ℕ
add_decimal_neg a zero h le = ground (arith, round_exact a h)
add_decimal_neg a (suc b) h le = ground (arith, round_exact (a - suc b) (omega arith))

-- To take more than is there gives a negative amount.
pub add_decimal_short :
    (a b : ℕ) → a < b → b < limit → add_decimal (pos a) (neg_ℕ b) ≡ negsuc (b - a - 1)
unfolding add_decimal sub_ℕ round_ℤ neg_ℕ
add_decimal_short a zero h le = absurd (omega arith)
add_decimal_short a (suc b) h le =
    let e : suc (suc b - a - 1) ≡ suc b - a = omega arith in
    ground (arith, round_exact (suc b - a) (omega arith))
