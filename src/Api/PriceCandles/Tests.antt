-- ===== src/Api/PriceCandles/Tests.antt =====
-- A chart of six minutes over two candles, and instances of its theorems.
use swyft.Prelude.{
  ℕ, ◌+◌, ◌*◌, ◌/◌, ◌≡◌, arith, none, some, List, [], ◌∷◌, ◌&&◌, leb, ltb, if◌then◌else◌,
}
use swyft.Api.PriceCandles.{
  PriceCandle, CandleRow, candle_of_row, null_candle, fill_candle_gaps, get_candles,
  get_interval_seconds,
}
use swyft.Api.PriceCandles.Filled.{get_elem?, shown, get_elem?-fill_candle_gaps}
use swyft.Api.PriceCandles.Unaligned.{get_candles-starts_empty}

abbrev row_at : ℕ → CandleRow ℕ
row_at time = record {
  period_start = time * 1000;
  opening = 1;
  highest = 4;
  lowest = 1;
  closing = 3;
  volume_usd = 7;
}

abbrev two_candles : List (PriceCandle ℕ)
two_candles = candle_of_row (row_at 600) ∷ candle_of_row (row_at 720) ∷ []

get_elem?-fill_candle_gaps_example : get_elem? (fill_candle_gaps two_candles 60 610 900 5) 2 ≡ (
    if ltb 2 5 && leb (610 / 60 * 60 + 2 * 60) 900
    then some (shown two_candles (610 / 60 * 60 + 2 * 60))
    else none)
get_elem?-fill_candle_gaps_example =
    get_elem?-fill_candle_gaps two_candles 60 610 900 5 2 (omega arith)

-- The row at 600 is that of the first bucket.
get_candles-starts_empty_example :
    get_elem? (get_candles (row_at 600 ∷ row_at 720 ∷ []) "1m" 610 900 5) 0 ≡ some (null_candle 600)
unfolding get_interval_seconds
get_candles-starts_empty_example =
    get_candles-starts_empty (row_at 600 ∷ row_at 720 ∷ []) "1m" 610 900 5 (omega arith)
      (omega arith) (omega arith)
