-- ===== src/Api/PriceCandles/Unaligned.antt =====
-- A chart whose start is not the start of a bucket.
use swyft.Prelude.{
  ℕ, ◌+◌, ◌*◌, ◌/◌, ◌≤◌, ◌<◌, ◌≡◌, refl, ◌∙◌, arith, true, false, ◌&&◌, String, none, some, List,
  [], ◌∷◌, leb, ltb, keep, map, inl, inr, Bool-cases,
}
use swyft.Prelude.Equality.{◌===◌, string_eq, number_eq}
use swyft.Api.PriceCandles.{
  CandleRow, candle_of_row, null_candle, get_interval_seconds, get_candles,
}
use swyft.Api.PriceCandles.Filled.{get_elem?, last_at, get_elem?-fill_candle_gaps}

get_interval_seconds-positive : (interval : String) → 0 < get_interval_seconds interval
unfolding get_interval_seconds
get_interval_seconds-positive interval = ground arith

later :
    (t from to period_start : ℕ)
    → t < from
    → (leb (from * 1000) period_start && leb period_start (to * 1000)) ≡ true
    → (period_start / 1000 === t) ≡ false
later t from to period_start h chosen = ground arith

-- No row of the range of a query stands before its start.
last_at-early {ℓ} :
    {F : Type ℓ} (t from to : ℕ) (rows : List (CandleRow F))
    → t < from
    → last_at t (
        map candle_of_row (
          keep
            (λ row. leb (from * 1000) row.period_start && leb row.period_start (to * 1000))
            rows))
      ≡ none
unfolding last_at
last_at-early t from to [] h = refl
last_at-early t from to (row ∷ rows) h =
    let ih = last_at-early t from to rows h in
    elim (Bool-cases (leb (from * 1000) row.period_start && leb row.period_start (to * 1000))) [
      | inl chosen ↦ rw (chosen, ih, later t from to row.period_start h chosen) refl
      | inr left_out ↦ rw left_out ih
    ]

-- Whatever the rows of the database, a chart that starts within a bucket begins with the empty candle
-- of that bucket, provided that the bucket starts by the end of the chart and the limit is not 0.
pub get_candles-starts_empty {ℓ} :
    {F : Type ℓ} (rows : List (CandleRow F)) (interval : String) (from to limit : ℕ)
    → from / get_interval_seconds interval * get_interval_seconds interval < from
    → from / get_interval_seconds interval * get_interval_seconds interval ≤ to
    → 0 < limit
    → get_elem? (get_candles rows interval from to limit) 0
      ≡ some (null_candle (from / get_interval_seconds interval * get_interval_seconds interval))
unfolding get_candles
get_candles-starts_empty rows interval from to limit within ends room =
    let k = get_interval_seconds interval in
    let start = from / k * k in
    let price_candles =
      keep (λ row. leb (from * 1000) row.period_start && leb row.period_start (to * 1000)) rows in
    let some_place : ltb 0 limit ≡ true = ground arith in
    let in_time : leb start to ≡ true = ground arith in
    let first : start + 0 * k ≡ start = grind arith in
    get_elem?-fill_candle_gaps (map candle_of_row price_candles) k from to limit 0
      (get_interval_seconds-positive interval)
    ∙ rw (first, some_place, in_time, last_at-early start from to rows within) refl
