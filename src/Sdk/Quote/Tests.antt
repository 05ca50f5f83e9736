-- ===== src/Sdk/Quote/Tests.antt =====
-- Runs of quote.ts and instances of its theorems.
use swyft.Prelude.{ℕ, ◌-◌, ◌≡◌, refl, true, false, some, List, [], ◌∷◌, ok, err, arith}
use swyft.Prelude.BigInt.{pos, ◌-ℤ◌}
use swyft.Prelude.Number.{Number, int, fraction, not_finite, big_int}
use swyft.Sdk.Quote.{
  TickState, PoolStateWithTicks, LocalSwapQuoteParams, LocalSwapQuote, text, exceeds_liquidity,
  validate_slippage, validate_fee_tier, to_big_int_amount, prepare, compute_swap_step, take_step,
  cross_ticks, sort, kept_share, simulate, settle, get_swap_quote,
}
use swyft.Sdk.Quote.Steps.{NatLoop, loop_state}
use swyft.Sdk.Quote.Results.{IsShare, Settled, IsDifference, get_swap_quote_sound}
use swyft.Sdk.Quote.Ladder.{Progress, begin, inputs_of, simulate-Progress, get_swap_quote_stuck}

abbrev below : TickState
below = record { tick = pos 1; sqrt_price_x96 = "500" }

abbrev above : TickState
above = record { tick = pos 9; sqrt_price_x96 = "2000" }

abbrev pool : List TickState → PoolStateWithTicks
pool ticks = record {
  token0 = "A";
  token1 = "B";
  fee_tier = int (pos 3000);
  sqrt_price_x96 = "1000";
  liquidity = "100000";
  ticks = some ticks;
}

abbrev sell : List TickState → LocalSwapQuoteParams
sell ticks = record {
  pool_state = pool ticks;
  token_in = "A";
  amount_in = text "10000";
  slippage = int (pos 50);
}

abbrev quoted : LocalSwapQuote
quoted = record {
  amount_out = pos 19940;
  fee = pos 30;
  minimum_received = pos 19840;
  sqrt_price_limit_x96 = pos 1000;
}

-- The subtraction on whole numbers, and on fractions rounded up: that of a tiny one gives 10000.
abbrev rounded_up : Number → Number
rounded_up (int n) = int (pos 10000 -ℤ n)
rounded_up (fraction n) = int (pos 10000 -ℤ n)
rounded_up not_finite = not_finite

rounded_up-IsDifference : IsDifference rounded_up
rounded_up-IsDifference = record {
  exact = λ n h. ground arith;
  enclosed = λ n k h e. (10000 - n, ground arith, omega arith, omega arith);
}

get_swap_quote_run : get_swap_quote rounded_up (sell (below ∷ [])) ≡ ok quoted
unfolding get_swap_quote prepare simulate settle sort cross_ticks compute_swap_step take_step
    validate_slippage validate_fee_tier to_big_int_amount kept_share big_int
get_swap_quote_run = refl

get_swap_quote_sound_example : (share : ℕ) × IsShare (int (pos 50)) share × Settled quoted share
get_swap_quote_sound_example =
    get_swap_quote_sound rounded_up (sell (below ∷ [])) quoted rounded_up-IsDifference
      get_swap_quote_run

simulate-Progress_example :
    (t : NatLoop) × (simulate (above ∷ below ∷ []) (inputs_of false 400 100000 10000 30)
      ≡ ok (loop_state t))
    × Progress false (2) (begin 9970 400) t
unfolding sort big_int
simulate-Progress_example =
    simulate-Progress false 400 100000 10000 30 (above ∷ below ∷ []) (500 ∷ 2000 ∷ []) (omega arith)
      (omega arith) (refl, omega arith, (refl, omega arith, tt))

-- The ladder has a tick on either side of the price.
get_swap_quote_stuck_example :
    get_swap_quote rounded_up (sell (below ∷ above ∷ [])) ≡ err exceeds_liquidity
unfolding prepare validate_slippage validate_fee_tier to_big_int_amount sort big_int
get_swap_quote_stuck_example =
    get_swap_quote_stuck rounded_up (sell (below ∷ above ∷ [])) true 1000 100000 10000 30 2000 above
      (below ∷ []) refl (omega arith) (omega arith) (omega arith) refl refl (omega arith)
