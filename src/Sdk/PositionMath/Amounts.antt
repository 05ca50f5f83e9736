-- ===== src/Sdk/PositionMath/Amounts.antt =====
-- Amounts of a position: total and unsigned on ordered prices, and never more than was put in.
use native.Mathlib.Nat.{div-mul-le_self, le_trans, mul-le-mul_left}
use swyft.Prelude.{ℕ, ◌-◌, ◌*◌, ◌/◌, ◌≤◌, ◌<◌, ◌≡◌, true, ok, arith, leb, le→leb, if◌then◌else◌}
use swyft.Prelude.BigInt.{pos, leb_ℤ}
use swyft.Prelude.Division.{div_antitone, div_mono, scale_le, floor_gap}
use swyft.Sdk.PositionMath.{
  q96, AmountsForLiquidityParams, AmountsResult, LiquidityForAmountsParams,
  get_amounts_for_liquidity, get_liquidity_for_amounts,
}

-- Unsigned parameters.
abbrev pub position : ℕ → ℕ → ℕ → ℕ → AmountsForLiquidityParams
position price lower upper l = record {
  sqrt_price_x96 = pos price;
  sqrt_price_lower_x96 = pos lower;
  sqrt_price_upper_x96 = pos upper;
  liquidity = pos l;
}

abbrev pub deposit : ℕ → ℕ → ℕ → ℕ → ℕ → LiquidityForAmountsParams
deposit price lower upper a0 a1 = record {
  sqrt_price_x96 = pos price;
  sqrt_price_lower_x96 = pos lower;
  sqrt_price_upper_x96 = pos upper;
  amount0 = pos a0;
  amount1 = pos a1;
}

abbrev pub unsigned : ℕ → ℕ → AmountsResult
unsigned a0 a1 = record { amount0 = pos a0; amount1 = pos a1 }

-- The two amounts as formulas: the price is clamped to the range; token0 is counted from the lower
-- end to the price inside the range, over the whole range below it, and not at all above it.
abbrev pub expected0 : ℕ → ℕ → ℕ → ℕ → ℕ
expected0 price lower upper l =
    if leb price lower
    then l * q96 / lower - l * q96 / upper
    else if leb upper price
    then 0
    else l * q96 / lower - l * q96 / price

abbrev pub expected1 : ℕ → ℕ → ℕ → ℕ → ℕ
expected1 price lower upper l =
    if leb price lower
    then 0
    else if leb upper price
    then l * (upper - lower) / q96
    else l * (price - lower) / q96

-- On a range of positive prices the amounts are always there and are not negative.
pub get_amounts_total :
    (price lower upper l : ℕ)
    → 0 < lower
    → lower ≤ upper
    → get_amounts_for_liquidity (position price lower upper l)
      ≡ ok (unsigned (expected0 price lower upper l) (expected1 price lower upper l))
unfolding get_amounts_for_liquidity
get_amounts_total price lower upper l p h =
    ground (arith, div_antitone (l * q96) lower upper p h, div_antitone (l * q96) lower price p)

-- The liquidity that a token0 deposit below the range buys, times the width, is covered by it.
covered :
    (lower upper a0 : ℕ)
    → a0 * lower * upper / (q96 * (upper - lower)) * q96 * (upper - lower) ≤ a0 * lower * upper
covered lower upper a0 =
    le_trans (omega arith) (div-mul-le_self (a0 * lower * upper) (q96 * (upper - lower)))

-- Below the range: a token0 deposit is turned into liquidity that gives back no more of token0 than
-- was put in, and no token1.
pub deposit_below :
    (price lower upper a0 a1 : ℕ)
    → 0 < lower
    → lower < upper
    → price ≤ lower
    → (l a : ℕ) × (get_liquidity_for_amounts (deposit price lower upper a0 a1) ≡ ok (pos l))
      × (get_amounts_for_liquidity (position price lower upper l) ≡ ok (unsigned a 0))
      × (a ≤ a0)
unfolding get_liquidity_for_amounts
deposit_below price lower upper a0 a1 p h below =
    let l = a0 * lower * upper / (q96 * (upper - lower)) in
    (
      l,
      l * q96 / lower - l * q96 / upper,
      ground arith,
      ground (arith, get_amounts_total price lower upper l p (omega arith)),
      floor_gap (l * q96) lower upper a0 p (omega arith) (covered lower upper a0),
    )

-- Above the range: so for token1.
pub deposit_above :
    (price lower upper a0 a1 : ℕ)
    → 0 < lower
    → lower < upper
    → upper ≤ price
    → (l a : ℕ) × (get_liquidity_for_amounts (deposit price lower upper a0 a1) ≡ ok (pos l))
      × (get_amounts_for_liquidity (position price lower upper l) ≡ ok (unsigned 0 a))
      × (a ≤ a1)
unfolding get_liquidity_for_amounts
deposit_above price lower upper a0 a1 p h above =
    let l = a1 * q96 / (upper - lower) in
    (
      l,
      l * (upper - lower) / q96,
      ground arith,
      ground (arith, get_amounts_total price lower upper l p (omega arith)),
      scale_le a1 q96 (upper - lower) (omega arith),
    )

-- Inside the range the token0 amount does not depend on the upper bound, and it does not fall as
-- the price rises; the token1 amount does not fall either.
amounts_inside :
    (low_price high_price lower upper upper' l : ℕ)
    → 0 < lower
    → lower < low_price
    → low_price ≤ high_price
    → high_price < upper
    → high_price < upper'
    → (a b : AmountsResult) × (get_amounts_for_liquidity (position low_price lower upper l) ≡ ok a)
      × (get_amounts_for_liquidity (position high_price lower upper' l) ≡ ok b)
      × (leb_ℤ a.amount0 b.amount0 ≡ true)
      × (leb_ℤ a.amount1 b.amount1 ≡ true)
amounts_inside low_price high_price lower upper upper' l p h k c d = (
  unsigned (l * q96 / lower - l * q96 / low_price) (l * (low_price - lower) / q96),
  unsigned (l * q96 / lower - l * q96 / high_price) (l * (high_price - lower) / q96),
  ground (arith, get_amounts_total low_price lower upper l p (omega arith)),
  ground (arith, get_amounts_total high_price lower upper' l p (omega arith)),
  le→leb _ _ (omega (arith, div_antitone (l * q96) low_price high_price (omega arith) k)),
  le→leb _ _ (
      div_mono q96 _ _ (omega arith)
        (mul-le-mul_left {m = low_price - lower} {n = high_price - lower} l (omega arith))),
)
