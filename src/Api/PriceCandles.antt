-- ===== src/Api/PriceCandles.antt =====
-- getCandles and fillCandleGaps of apps/api/src/price/price.service.ts: the candles of a chart, with an
-- empty candle for each missing bucket. `F` is JavaScript's number as a price; times are whole seconds
-- from 0 on, and milliseconds in the rows of the database.
pub mod Filled
mod Unaligned
mod Tests
use swyft.Prelude.{
  ℕ, zero, suc, ◌+◌, ◌*◌, ◌/◌, Bool, true, false, ◌||◌, Option, none, some, List, [], ◌∷◌, leb, ltb,
  keep, map, ◌&&◌, String, if◌then◌else◌,
}
use swyft.Prelude.Equality.{◌===◌, string_eq, number_eq}
use swyft.Prelude.Table.{Table, find, upsert}

pub record PriceCandle {ℓ} (F : Type ℓ) : Type ℓ where
  pub time : ℕ
  pub open_price : Option F
  pub high : Option F
  pub low : Option F
  pub close_price : Option F
  pub volume : Option F

module _ {ℓ} {F : Type ℓ} where
  unfoldable pub null_candle : ℕ → PriceCandle F
  null_candle t = record {
    time = t;
    open_price = none;
    high = none;
    low = none;
    close_price = none;
    volume = none;
  }

  -- `byTime`, from what it already holds.
  unfoldable pub index_by_time :
      List (PriceCandle F) → Table ℕ (PriceCandle F) → Table ℕ (PriceCandle F)
  index_by_time [] by_time = by_time
  index_by_time (c ∷ candles) by_time = index_by_time candles (upsert c.time (λ _. c) c by_time)

  abbrev pub or_null : ℕ → Option (PriceCandle F) → PriceCandle F
  or_null t none = null_candle t
  or_null t (some c) = c

  -- The loop from `t` on, where `left` candles may still be added.
  unfoldable pub fill_from : Table ℕ (PriceCandle F) → ℕ → ℕ → ℕ → ℕ → List (PriceCandle F)
  fill_from by_time interval_sec end zero t = []
  fill_from by_time interval_sec end (suc left) t =
      let rest = fill_from by_time interval_sec end left (t + interval_sec) in
      if leb t end then or_null t (find t by_time) ∷ rest else []

  unfoldable pub fill_candle_gaps : List (PriceCandle F) → ℕ → ℕ → ℕ → ℕ → List (PriceCandle F)
  fill_candle_gaps candles interval_sec from to limit =
      let start = from / interval_sec * interval_sec in
      let end = to / interval_sec * interval_sec in
      if leb interval_sec 0 || leb limit 0
      then []
      else if ltb end start
      then []
      else fill_from (index_by_time candles []) interval_sec end limit start

unfoldable pub get_interval_seconds : String → ℕ
get_interval_seconds interval =
    if interval === "1m"
    then 60
    else if interval === "5m"
    then 300
    else if interval === "1h"
    then 3600
    else if interval === "1d"
    then 86400
    else 3600

-- A row of a pool and an interval in the table of candles, its amounts as numbers.
pub record CandleRow {ℓ} (F : Type ℓ) : Type ℓ where
  pub period_start : ℕ
  pub opening : F
  pub highest : F
  pub lowest : F
  pub closing : F
  pub volume_usd : F

module _ {ℓ} {F : Type ℓ} where
  abbrev pub candle_of_row : CandleRow F → PriceCandle F
  candle_of_row row = record {
    time = row.period_start / 1000;
    open_price = some row.opening;
    high = some row.highest;
    low = some row.lowest;
    close_price = some row.closing;
    volume = some row.volume_usd;
  }

  -- The query and what follows it, for the pool that was found and in the order of the rows.
  unfoldable pub get_candles : List (CandleRow F) → String → ℕ → ℕ → ℕ → List (PriceCandle F)
  get_candles rows interval from to limit =
      let price_candles =
        keep (λ row. leb (from * 1000) row.period_start && leb row.period_start (to * 1000)) rows in
      fill_candle_gaps (map candle_of_row price_candles) (get_interval_seconds interval) from to
        limit
