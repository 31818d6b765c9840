-- ===== src/Models/Amounts.antt =====
-- What the validators make of amounts.
use project_hamilton.Base.{ℕ, ◌+◌, ◌*◌, ◌^◌, ◌≤◌, ◌<◌, ◌≡◌, arith}
use project_hamilton.Base.Money.{limit}
use project_hamilton.Base.Decimal.{Decimal, quantize, nearest_near, pow-pos}
use project_hamilton.Models.Validate.{valid, quantize_decimal, currency_amount}

-- An amount that is accepted is above 0, has at most 28 digits in cents, and is at most half a cent
-- away from what was sent.
pub currency_amount_near :
    (d : Decimal) (cents : ℕ)
    → currency_amount d ≡ valid cents
    → (0 < d.digits)
      × (cents < limit)
      × (2 * (cents * 10 ^ d.places) ≤ 2 * (d.digits * 100) + 10 ^ d.places)
      × (2 * (d.digits * 100) ≤ 2 * (cents * 10 ^ d.places) + 10 ^ d.places)
unfolding currency_amount quantize_decimal quantize
currency_amount_near d cents h =
    ground (arith, nearest_near (d.digits * 100) (10 ^ d.places) (pow-pos d.places))
