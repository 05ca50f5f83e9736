-- ===== src/Api/Candles.antt =====
-- apps/api/src/candles/candles.service.ts: candles from swaps, and the hourly ones from those of five
-- minutes. JavaScript's floating-point numbers are a parameter with the operations that the code
-- calls; times are milliseconds. The two tables of the database are lists of rows; `findMany` with
-- `orderBy` sorts them, equal keys in the order of insertion.
pub mod Summary
pub mod Gaps
pub mod Hourly
pub mod Written
pub mod Replayed
pub mod Service
pub mod Exclusive
pub mod Ticks
pub mod Backfilled
pub mod Paging
pub mod Collected
mod Tests
use swyft.Prelude.{
  ℕ, zero, suc, ◌+◌, ◌-◌, ◌*◌, ◌/◌, Bool, true, false, ◌&&◌, String, Option, none, some, List, [],
  ◌∷◌, map, Result, err, ok, ◌>>=◌, ◌>>◌, ltb, leb, ◌==◌, any, keep, length, if◌then◌else◌,
}
use swyft.Prelude.Equality.{Eq, ◌===◌, string_eq}
use swyft.Prelude.Table.{Table, upsert}
use swyft.Prelude.Sorting.{sort_by}
use swyft.Api.Candles.Keys.{CandleInterval, CandleKey, interval_eq, candle_key_eq}
pub mod Keys

-- The operations of `number`: Math.max, Math.min, +, Math.abs and Number(text).
pub record Numbers (F : Type 0) : Type 0 where
  pub largest : F → F → F
  pub smallest : F → F → F
  pub plus : F → F → F
  pub magnitude : F → F
  pub number : String → F

pub record Ohlcv (F : Type 0) : Type 0 where
  pub opening : F
  pub high : F
  pub low : F
  pub close : F
  pub volume_usd : F

pub data CandleGapPolicy : Type 0 where
  strict fill : CandleGapPolicy

pub data CandleErrorCode : Type 0 where
  invalid_interval unauthorized dependency_unavailable concurrent_processing : CandleErrorCode

pub record SwapProcessed : Type 0 where
  pub pool_id : String
  pub sqrt_price_x96 : String
  pub amount0 : String
  pub created_at : ℕ

-- The tables swapProcessed and priceCandle.
pub record CandleStore (F : Type 0) : Type 0 where
  pub swaps : List SwapProcessed
  pub candles : Table CandleKey (Ohlcv F)

unfoldable pub interval_ms : CandleInterval → ℕ
interval_ms CandleInterval.one_minute = 60000
interval_ms CandleInterval.five_minutes = 300000
interval_ms CandleInterval.one_hour = 3600000
interval_ms CandleInterval.one_day = 86400000

unfoldable pub bucket_source : CandleInterval → Option CandleInterval
bucket_source CandleInterval.one_hour = some CandleInterval.five_minutes
bucket_source _ = none

-- `hasOwnProperty` of INTERVAL_MS.
unfoldable pub assert_interval : String → Result CandleErrorCode CandleInterval
assert_interval text =
    if text === "1m"
    then ok CandleInterval.one_minute
    else if text === "5m"
    then ok CandleInterval.five_minutes
    else if text === "1h"
    then ok CandleInterval.one_hour
    else if text === "1d"
    then ok CandleInterval.one_day
    else err invalid_interval

abbrev pub allowed_roles : List String
allowed_roles = "admin" ∷ "candles:write" ∷ []

abbrev pub has_role : List String → List String → Bool
has_role allowed roles = any (λ role. any (λ other. other === role) allowed) roles

-- The roles of the actor; `none` is a missing actor.
unfoldable pub authorize : Option (List String) → Result CandleErrorCode (Unit {0})
authorize none = err unauthorized
authorize (some roles) = if has_role allowed_roles roles then ok tt else err unauthorized

-- The loop of `assertNoGap` from `t`, on fuel.
unfoldable pub no_gap_from : ℕ → List ℕ → ℕ → ℕ → ℕ → Bool
no_gap_from zero present t window_end step_ms = true
no_gap_from (suc fuel) present t window_end step_ms =
    let rest = no_gap_from fuel present (t + step_ms) window_end step_ms in
    if ltb t window_end then any (λ start. start == t) present && rest else true

unfoldable pub assert_no_gap :
    List ℕ → ℕ → ℕ → ℕ → CandleGapPolicy → Result CandleErrorCode (Unit {0})
assert_no_gap present window_start window_end step_ms fill = ok tt
assert_no_gap present window_start window_end step_ms strict =
    let rounds = (window_end - window_start) / step_ms + 1 in
    if no_gap_from rounds present window_start window_end step_ms
    then ok tt
    else err dependency_unavailable

abbrev pub in_window : ℕ → ℕ → ℕ → Bool
in_window start end_at t = leb start t && ltb t end_at

unfoldable pub window_swaps : ℕ → ℕ → List SwapProcessed → List SwapProcessed
window_swaps start end_at swaps =
    sort_by (λ s. s.created_at) (keep (λ s. in_window start end_at s.created_at) swaps)

module _ {F : Type 0} where
  abbrev pub start_of : CandleKey × Ohlcv F → ℕ
  start_of row = row.0.2

  unfoldable pub window_buckets :
      CandleInterval → ℕ → ℕ → Table CandleKey (Ohlcv F) → List (CandleKey × Ohlcv F)
  window_buckets source start end_at candles =
      sort_by start_of (keep (λ row. row.0.1 === source && in_window start end_at row.0.2) candles)

  abbrev pub bucket_bar : CandleKey × Ohlcv F → String × Ohlcv F
  bucket_bar row = (row.0.0, row.1)

  -- The upserts of the candles of one period.
  unfoldable pub write_candles :
      CandleInterval
      → ℕ
      → Table String (Ohlcv F)
      → Table CandleKey (Ohlcv F)
      → Table CandleKey (Ohlcv F)
  write_candles interval start [] candles = candles
  write_candles interval start ((pool, bar) ∷ rest) candles =
      write_candles interval start rest (upsert (pool, interval, start) (λ _. bar) bar candles)

module _ {F : Type 0} (num : Numbers F) where
  abbrev pub merge_bar : Ohlcv F → Ohlcv F → Ohlcv F
  merge_bar bar existing = record existing {
    high = num.largest existing.high bar.high;
    low = num.smallest existing.low bar.low;
    close = bar.close;
    volume_usd = num.plus existing.volume_usd bar.volume_usd;
  }

  unfoldable pub accumulate : Table String (Ohlcv F) → String × Ohlcv F → Table String (Ohlcv F)
  accumulate by_pool (pool, bar) = upsert pool (merge_bar bar) bar by_pool

  unfoldable pub accumulate_all :
      Table String (Ohlcv F) → List (String × Ohlcv F) → Table String (Ohlcv F)
  accumulate_all by_pool [] = by_pool
  accumulate_all by_pool (row ∷ rest) = accumulate_all (accumulate by_pool row) rest

  unfoldable pub swap_bar : SwapProcessed → String × Ohlcv F
  swap_bar s =
      let price = num.number s.sqrt_price_x96 in
      (
        s.pool_id,
        record {
          opening = price;
          high = price;
          low = price;
          close = price;
          volume_usd = num.magnitude (num.number s.amount0);
        },
      )

  -- The rows that `aggregatePeriod` accumulates.
  abbrev pub source_rows :
      Option CandleInterval
      → ℕ
      → ℕ
      → CandleGapPolicy
      → CandleStore F
      → Result CandleErrorCode (List (String × Ohlcv F))
  source_rows none start end_at policy store =
      ok (map swap_bar (window_swaps start end_at store.swaps))
  source_rows (some source) start end_at policy store =
      let buckets = window_buckets source start end_at store.candles in
      assert_no_gap (map start_of buckets) start end_at (interval_ms source) policy
      >> ok (map bucket_bar buckets)

  abbrev pub write_rows :
      CandleInterval
      → ℕ
      → CandleStore F
      → Result CandleErrorCode (List (String × Ohlcv F))
      → CandleStore F × Result CandleErrorCode ℕ
  write_rows interval start store (err code) = (store, err code)
  write_rows interval start store (ok rows) =
      let by_pool = accumulate_all [] rows in
      (
        record store { candles = write_candles interval start by_pool store.candles },
        ok (length by_pool),
      )

  unfoldable pub aggregate_period :
      CandleInterval
      → ℕ
      → CandleGapPolicy
      → CandleStore F
      → CandleStore F × Result CandleErrorCode ℕ
  aggregate_period interval start policy store =
      write_rows interval start store
        (source_rows (bucket_source interval) start (start + interval_ms interval) policy store)
