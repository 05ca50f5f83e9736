-- ===== src/Api/Candles/Replayed.antt =====
-- `aggregatePeriod` of candles.service.ts as a whole: what a period writes, and what writing it
-- again does.
use swyft.Prelude.{
  ℕ, ◌+◌, ◌≡◌, refl, ◌∙◌, Bool, false, ◌&&◌, ◌==◌, String, some, List, [], Result, ok, err,
}
use swyft.Prelude.Equality.{◌===◌, string_eq}
use swyft.Prelude.Table.{Table, find}
use swyft.Api.Candles.Keys.{
  CandleInterval, CandleKey, candle_key_eq, interval_beq, interval_eq, one_minute, five_minutes,
  one_hour, one_day,
}
use swyft.Api.Candles.{
  Numbers, Ohlcv, CandleStore, CandleGapPolicy, CandleErrorCode, accumulate_all, write_candles,
  write_rows, source_rows, aggregate_period, bucket_source, interval_ms, window_buckets, in_window,
}
use swyft.Api.Candles.Written.{
  find-write_candles, find-write_candles_other, write_candles_same, keep-write_candles,
  accumulate_all-DistinctKeys,
}

module _ {F : Type 0} (num : Numbers F) where
  -- The source of a period is not what the period writes.
  source-write_candles :
      (interval : CandleInterval) (start end_at : ℕ) (policy : CandleGapPolicy)
      (store : CandleStore F) (by_pool : Table String (Ohlcv F))
      → source_rows num
          (bucket_source interval)
          start
          end_at
          policy
          (record store { candles = write_candles interval start by_pool store.candles })
        ≡ source_rows num (bucket_source interval) start end_at policy store
  unfolding bucket_source window_buckets interval_beq
  source-write_candles one_minute start end_at policy store by_pool = refl
  source-write_candles five_minutes start end_at policy store by_pool = refl
  source-write_candles one_day start end_at policy store by_pool = refl
  source-write_candles one_hour start end_at policy store by_pool =
      let p : CandleKey → Bool = λ k. k.1 === five_minutes && in_window start end_at k.2 in
      rw (keep-write_candles one_hour start p by_pool store.candles (λ pool. refl)) refl

  source-write_rows :
      (interval : CandleInterval) (start end_at : ℕ) (policy : CandleGapPolicy)
      (store : CandleStore F) (read : Result CandleErrorCode (List (String × Ohlcv F)))
      → source_rows num
          (bucket_source interval)
          start
          end_at
          policy
          (write_rows num interval start store read).0
        ≡ source_rows num (bucket_source interval) start end_at policy store
  source-write_rows interval start end_at policy store (err code) = refl
  source-write_rows interval start end_at policy store (ok rows) =
      source-write_candles interval start end_at policy store (accumulate_all num [] rows)

module _ {F : Type 0} (num : Numbers F) (interval : CandleInterval) (start : ℕ) where
  find-write_rows_other :
      (store : CandleStore F) (k : CandleKey)
      (read : Result CandleErrorCode (List (String × Ohlcv F)))
      → (interval_beq interval k.1 && start == k.2) ≡ false
      → find k (write_rows num interval start store read).0.candles ≡ find k store.candles
  find-write_rows_other store k (err code) apart = refl
  find-write_rows_other store k (ok rows) apart =
      find-write_candles_other interval start k (accumulate_all num [] rows) store.candles apart

  write_rows_twice :
      (store : CandleStore F) (read : Result CandleErrorCode (List (String × Ohlcv F)))
      → write_rows num interval start (write_rows num interval start store read).0 read
        ≡ write_rows num interval start store read
  write_rows_twice store (err code) = refl
  write_rows_twice store (ok rows) =
      let by_pool = accumulate_all num [] rows in
      let distinct = accumulate_all-DistinctKeys num [] rows tt in
      let there : (pool : String) (bar : Ohlcv F)
          → find pool by_pool ≡ some bar
          → find (pool, interval, start) (write_candles interval start by_pool store.candles)
            ≡ some bar =
        λ pool bar found.
          find-write_candles interval start pool by_pool store.candles distinct ∙ rw found refl in
      let again =
        write_candles_same interval start by_pool
          (write_candles interval start by_pool store.candles) there distinct in
      rw again refl

module _ {F : Type 0} (num : Numbers F) (interval : CandleInterval) (start : ℕ)
    (policy : CandleGapPolicy) (store : CandleStore F) where
  abbrev pub period_rows : Result CandleErrorCode (List (String × Ohlcv F))
  period_rows =
      source_rows num (bucket_source interval) start (start + interval_ms interval) policy store

  -- Whatever the outcome, no candle of another interval or of another period changes.
  pub find-aggregate_period_other :
      (k : CandleKey)
      → (interval_beq interval k.1 && start == k.2) ≡ false
      → find k (aggregate_period num interval start policy store).0.candles ≡ find k store.candles
  unfolding aggregate_period
  find-aggregate_period_other k apart =
      find-write_rows_other num interval start store k period_rows apart

  -- A replayed period changes nothing: the second run returns what the first one returned, and
  -- leaves the tables as the first one left them.
  pub aggregate_period_twice :
      aggregate_period num interval start policy
        (aggregate_period num interval start policy store).0
      ≡ aggregate_period num interval start policy store
  unfolding aggregate_period
  aggregate_period_twice =
      rw
        (source-write_rows num interval start (start + interval_ms interval) policy store
          period_rows)
        (write_rows_twice num interval start store period_rows)
