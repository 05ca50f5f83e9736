-- ===== src/Sdk/PositionMath.antt =====
-- packages/sdk/src/position-math.ts: ticks, Q64.96 square-root prices and amounts over `bigint`.
pub mod Ticks
pub mod Amounts
mod Tests
use swyft.Prelude.{
  ℕ, suc, ◌-◌, ◌*◌, ◌/◌, ◌+◌, ◌^◌, ◌||◌, Option, none, some, Result, ok, err, ◌>>=◌, ltb, leb,
  if◌then◌else◌,
}
use swyft.Prelude.BigInt.{ℤ, pos, negsuc, neg, ◌-ℤ◌, ◌*ℤ◌, quot, ltb_ℤ, leb_ℤ, eq_ℤ}

-- What the functions throw: their own RangeErrors, and that of a bigint division by zero.
pub data MathError : Type 0 where
  tick_out_of_bounds price_not_positive division_by_zero : MathError

-- 1n << 96n
abbrev pub q96 : ℕ
q96 = 2 ^ 96

abbrev pub max_tick : ℤ
max_tick = pos 887272

abbrev pub min_tick : ℤ
min_tick = negsuc 887271

-- a / b
abbrev pub divide : ℤ → ℤ → Result MathError ℤ
divide a b = elim (quot a b) [ none ↦ err division_by_zero | some q ↦ ok q ]

-- The body of `tickToSqrtPriceX96` behind its guard.
unfoldable pub sqrt_price_of_tick : ℤ → ℤ
sqrt_price_of_tick (pos tick) = pos (q96 + tick * q96 / 20000)
sqrt_price_of_tick (negsuc n) =
    let sub : ℕ = suc n * q96 / 20000 in if leb q96 sub then pos 1 else pos (q96 - sub)

unfoldable pub tick_to_sqrt_price_x96 : ℤ → Result MathError ℤ
unfolding sqrt_price_of_tick
tick_to_sqrt_price_x96 tick =
    if ltb_ℤ tick min_tick || ltb_ℤ max_tick tick
    then err tick_out_of_bounds
    else ok (sqrt_price_of_tick tick)

-- `Number` of the quotient is exact below 2 ^ 53, and -0 is 0.
unfoldable pub sqrt_price_x96_to_tick : ℤ → Result MathError ℤ
sqrt_price_x96_to_tick (negsuc p) = err price_not_positive
sqrt_price_x96_to_tick (pos p) =
    if leb p 0
    then err price_not_positive
    else if leb q96 p
    then ok (pos ((p - q96) * 20000 / q96))
    else ok (neg ((q96 - p) * 20000 / q96))

pub record AmountsForLiquidityParams : Type 0 where
  pub sqrt_price_x96 : ℤ
  pub sqrt_price_lower_x96 : ℤ
  pub sqrt_price_upper_x96 : ℤ
  pub liquidity : ℤ

pub record AmountsResult : Type 0 where
  pub amount0 : ℤ
  pub amount1 : ℤ

unfoldable pub get_amounts_for_liquidity :
    AmountsForLiquidityParams → Result MathError AmountsResult
get_amounts_for_liquidity r =
    let q = pos q96 in
    let price = r.sqrt_price_x96 in
    let lower = r.sqrt_price_lower_x96 in
    let upper = r.sqrt_price_upper_x96 in
    let l = r.liquidity in
    let below = (do
      at_lower ← divide (l *ℤ q) lower
      at_upper ← divide (l *ℤ q) upper
      ok (record { amount0 = at_lower -ℤ at_upper; amount1 = pos 0 })) in
    let above = (do
      amount1 ← divide (l *ℤ (upper -ℤ lower)) q
      ok (record { amount0 = pos 0; amount1 = amount1 })) in
    let inside = (do
      at_lower ← divide (l *ℤ q) lower
      at_price ← divide (l *ℤ q) price
      amount1 ← divide (l *ℤ (price -ℤ lower)) q
      ok (record { amount0 = at_lower -ℤ at_price; amount1 = amount1 })) in
    if eq_ℤ l (pos 0)
    then ok (record { amount0 = pos 0; amount1 = pos 0 })
    else if leb_ℤ price lower
    then below
    else if leb_ℤ upper price
    then above
    else inside

pub record LiquidityForAmountsParams : Type 0 where
  pub sqrt_price_x96 : ℤ
  pub sqrt_price_lower_x96 : ℤ
  pub sqrt_price_upper_x96 : ℤ
  pub amount0 : ℤ
  pub amount1 : ℤ

unfoldable pub get_liquidity_for_amounts : LiquidityForAmountsParams → Result MathError ℤ
get_liquidity_for_amounts r =
    let q = pos q96 in
    let price = r.sqrt_price_x96 in
    let lower = r.sqrt_price_lower_x96 in
    let upper = r.sqrt_price_upper_x96 in
    let below = divide (r.amount0 *ℤ lower *ℤ upper) (q *ℤ (upper -ℤ lower)) in
    let above = divide (r.amount1 *ℤ q) (upper -ℤ lower) in
    let inside = (do
      liq0 ← divide (r.amount0 *ℤ price *ℤ upper) (q *ℤ (upper -ℤ price))
      liq1 ← divide (r.amount1 *ℤ q) (price -ℤ lower)
      ok (if ltb_ℤ liq0 liq1 then liq0 else liq1)) in
    if leb_ℤ price lower then below else if leb_ℤ upper price then above else inside

pub record AmountsDeltaParams : Type 0 where
  pub sqrt_price_x96 : ℤ
  pub sqrt_price_lower_x96 : ℤ
  pub sqrt_price_upper_x96 : ℤ
  pub liquidity_delta : ℤ

unfoldable pub get_amounts_delta : AmountsDeltaParams → Result MathError AmountsResult
unfolding get_amounts_for_liquidity
get_amounts_delta r = get_amounts_for_liquidity (record {
  sqrt_price_x96 = r.sqrt_price_x96;
  sqrt_price_lower_x96 = r.sqrt_price_lower_x96;
  sqrt_price_upper_x96 = r.sqrt_price_upper_x96;
  liquidity = r.liquidity_delta;
})
