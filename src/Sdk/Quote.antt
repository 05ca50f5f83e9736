-- ===== src/Sdk/Quote.antt =====
-- packages/sdk/src/quote.ts: `getSwapQuote`, the quote from a local tick ladder.
-- Amounts are kept as bigints (the source prints them); `priceImpact`, a float for display, and the
-- quotes without pool state (`calculateSwapQuote`, `calculateExactOutputQuote`), which are float
-- arithmetic throughout, are left out.
pub mod Steps
pub mod Results
pub mod Ladder
mod Tests
use swyft.Prelude.{
  ℕ, suc, ◌||◌, ◌&&◌, Bool, true, false, not, String, Option, none, some, List, [], ◌∷◌, Result, ok,
  err, ◌>>=◌, ◌>>◌, if◌then◌else◌,
}
use swyft.Prelude.BigInt.{ℤ, pos, negsuc, ◌-ℤ◌, ◌+ℤ◌, ◌*ℤ◌, quot, ltb_ℤ, leb_ℤ, eq_ℤ}
use swyft.Prelude.Number.{Number, int, fraction, not_finite, big_int}
use swyft.Prelude.Equality.{◌===◌, string_eq}

-- The messages of QuoteValidationError, and the RangeErrors and SyntaxError of bigint.
pub data QuoteError : Type 0 where
  slippage_out_of_range fee_tier_not_positive amount_in_not_positive : QuoteError
  zero_liquidity invalid_direction exceeds_liquidity : QuoteError
  division_by_zero not_an_integer syntax_error : QuoteError

pub record TickState : Type 0 where
  pub tick : ℤ
  pub sqrt_price_x96 : String

pub record PoolStateWithTicks : Type 0 where
  pub token0 : String
  pub token1 : String
  pub fee_tier : Number
  pub sqrt_price_x96 : String
  pub liquidity : String
  pub ticks : Option (List TickState)

-- `string | bigint`
pub data Amount : Type 0 where
  text : String → Amount
  bigint : ℤ → Amount

pub record LocalSwapQuoteParams : Type 0 where
  pub pool_state : PoolStateWithTicks
  pub token_in : String
  pub amount_in : Amount
  pub slippage : Number

pub record LocalSwapQuote : Type 0 where
  pub amount_out : ℤ
  pub fee : ℤ
  pub minimum_received : ℤ
  pub sqrt_price_limit_x96 : ℤ

pub record SwapStepResult : Type 0 where
  pub amount_in : ℤ
  pub amount_out : ℤ
  pub next_sqrt_price : ℤ
  pub reached_target : Bool

abbrev pub guard : Bool → QuoteError → Result QuoteError (Unit {0})
guard true e = ok tt
guard false e = err e

unfoldable pub validate_slippage : Number → Result QuoteError (Unit {0})
validate_slippage (int n) = guard (leb_ℤ (pos 0) n && leb_ℤ n (pos 10000)) slippage_out_of_range
validate_slippage (fraction n) =
    guard (leb_ℤ (pos 0) n && ltb_ℤ n (pos 10000)) slippage_out_of_range
validate_slippage not_finite = err slippage_out_of_range

-- The integer of a valid fee tier.
unfoldable pub validate_fee_tier : Number → Result QuoteError ℤ
validate_fee_tier (int n) = if leb_ℤ n (pos 0) then err fee_tier_not_positive else ok n
validate_fee_tier (fraction n) = err fee_tier_not_positive
validate_fee_tier not_finite = err fee_tier_not_positive

unfoldable pub to_big_int_amount : Amount → ℤ
to_big_int_amount (bigint n) = n
to_big_int_amount (text s) = elim (big_int s) [ none ↦ pos 0 | some n ↦ n ]

abbrev pub direction : PoolStateWithTicks → String → Result QuoteError Bool
direction pool token_in =
    if token_in === pool.token0
    then ok true
    else if token_in === pool.token1
    then ok false
    else err invalid_direction

abbrev pub divide : ℤ → ℤ → Result QuoteError ℤ
divide a b = elim (quot a b) [ none ↦ err division_by_zero | some q ↦ ok q ]

abbrev pub parse : String → Result QuoteError ℤ
parse s = elim (big_int s) [ none ↦ err syntax_error | some n ↦ ok n ]

unfoldable pub compute_swap_step : ℤ → ℤ → ℤ → ℤ → Bool → Result QuoteError SwapStepResult
compute_swap_step current target liquidity remaining zero_for_one =
    let next =
      if zero_for_one
      then (if ltb_ℤ target current then target else current)
      else (if ltb_ℤ current target then target else current) in
    let moved = if zero_for_one then current -ℤ next else next -ℤ current in
    let reached = eq_ℤ next target in
    do
      amount_in ← divide (liquidity *ℤ moved) (if zero_for_one then current else next)
      amount_out ← divide (liquidity *ℤ moved) (if zero_for_one then next else current)
      elim (ltb_ℤ remaining amount_in) [
        | true ↦ (do
          part ← divide (amount_out *ℤ remaining) amount_in
          ok (record {
            amount_in = remaining;
            amount_out = part;
            next_sqrt_price = current;
            reached_target = false;
          }))
        | false ↦ ok (record {
          amount_in = amount_in;
          amount_out = amount_out;
          next_sqrt_price = next;
          reached_target = reached;
        })
      ]

-- The variables of the loop over the ticks.
pub record LoopState : Type 0 where
  pub remaining_in : ℤ
  pub total_out : ℤ
  pub sqrt_price : ℤ
  pub crossed_ticks : ℕ

-- The effect of one round on the variables.
unfoldable pub take_step : LoopState → SwapStepResult → LoopState
take_step s step = record {
  remaining_in = s.remaining_in -ℤ step.amount_in;
  total_out = s.total_out +ℤ step.amount_out;
  sqrt_price = step.next_sqrt_price;
  crossed_ticks = if step.reached_target then suc s.crossed_ticks else s.crossed_ticks;
}

unfoldable pub cross_ticks : ℤ → Bool → List TickState → LoopState → Result QuoteError LoopState
cross_ticks liquidity zero_for_one [] s = ok s
cross_ticks liquidity zero_for_one (t ∷ ts) s = if leb_ℤ s.remaining_in (pos 0) then ok s else do
  target ← parse t.sqrt_price_x96
  step ← compute_swap_step s.sqrt_price target liquidity s.remaining_in zero_for_one
  let s' = take_step s step
  elim step.reached_target [ true ↦ cross_ticks liquidity zero_for_one ts s' | false ↦ ok s' ]

-- The comparator of the sort: may `a` stand before `b`?
abbrev pub before : Bool → TickState → TickState → Bool
before zero_for_one a b = if zero_for_one then leb_ℤ b.tick a.tick else leb_ℤ a.tick b.tick

unfoldable pub insert : Bool → TickState → List TickState → List TickState
insert zero_for_one t [] = t ∷ []
insert zero_for_one t (u ∷ us) =
    if before zero_for_one t u then t ∷ u ∷ us else u ∷ insert zero_for_one t us

-- Array.prototype.sort is stable.
unfoldable pub sort : Bool → List TickState → List TickState
unfolding insert
sort zero_for_one [] = []
sort zero_for_one (t ∷ ts) = insert zero_for_one t (sort zero_for_one ts)

abbrev pub or_empty : Option (List TickState) → List TickState
or_empty none = []
or_empty (some ts) = ts

-- BigInt(10_000 - slippage): a RangeError where the difference is not whole. The difference with a
-- fraction is rounded, to a whole number at times; `difference` is this subtraction of doubles.
unfoldable pub kept_share : (Number → Number) → Number → Result QuoteError ℤ
kept_share difference slippage = elim (difference slippage) [
  | int n ↦ ok n
  | fraction n ↦ err not_an_integer
  | not_finite ↦ err not_an_integer
]

abbrev pub start : ℤ → ℤ → LoopState
start remaining price = record {
  remaining_in = remaining;
  total_out = pos 0;
  sqrt_price = price;
  crossed_ticks = 0;
}

-- The end of `getSwapQuote`, behind the loop.
unfoldable pub settle :
    (Number → Number) → Number → ℤ → LoopState → Result QuoteError LocalSwapQuote
settle difference slippage fee_amount s = do
  guard (leb_ℤ s.remaining_in (pos 0)) exceeds_liquidity
  guard (ltb_ℤ (pos 0) s.total_out) zero_liquidity
  share ← kept_share difference slippage
  minimum_received ← divide (s.total_out *ℤ share) (pos 10000)
  ok (record {
    amount_out = s.total_out;
    fee = fee_amount;
    minimum_received = minimum_received;
    sqrt_price_limit_x96 = s.sqrt_price;
  })

-- What the checks and parses in front of the loop leave.
pub record Inputs : Type 0 where
  pub zero_for_one : Bool
  pub sqrt_price : ℤ
  pub liquidity : ℤ
  pub amount_in : ℤ
  pub fee_amount : ℤ

-- The beginning of `getSwapQuote`, in front of the loop.
unfoldable pub prepare : LocalSwapQuoteParams → Result QuoteError Inputs
prepare params = do
  let pool = params.pool_state
  validate_slippage params.slippage
  fee_tier ← validate_fee_tier pool.fee_tier
  let amount_in = to_big_int_amount params.amount_in
  guard (ltb_ℤ (pos 0) amount_in) amount_in_not_positive
  zero_for_one ← direction pool params.token_in
  sqrt_price ← parse pool.sqrt_price_x96
  liquidity ← parse pool.liquidity
  guard (ltb_ℤ (pos 0) liquidity) zero_liquidity
  fee_amount ← divide (amount_in *ℤ fee_tier) (pos 1000000)
  ok (record {
    zero_for_one = zero_for_one;
    sqrt_price = sqrt_price;
    liquidity = liquidity;
    amount_in = amount_in;
    fee_amount = fee_amount;
  })

-- The loop over the sorted ticks.
unfoldable pub simulate : List TickState → Inputs → Result QuoteError LoopState
simulate ticks i =
    cross_ticks i.liquidity i.zero_for_one (sort i.zero_for_one ticks)
      (start (i.amount_in -ℤ i.fee_amount) i.sqrt_price)

unfoldable pub get_swap_quote :
    (Number → Number) → LocalSwapQuoteParams → Result QuoteError LocalSwapQuote
get_swap_quote difference params = do
  inputs ← prepare params
  s ← simulate (or_empty params.pool_state.ticks) inputs
  settle difference params.slippage inputs.fee_amount s
