-- ===== src/Api/Candles/Service.antt =====
-- `aggregate`, `backfill` and `runExclusive` of candles.service.ts. The set `inFlight` is a list; a
-- period runs between `enter` and `leave`, where other requests may run.
use swyft.Prelude.{
  ℕ, zero, suc, ◌+◌, ◌-◌, ◌*◌, ◌/◌, String, Option, none, some, List, [], ◌∷◌, Result, err, ok, ltb,
  any, keep, not, if◌then◌else◌,
}
use swyft.Prelude.Equality.{◌===◌}
use swyft.Prelude.Sorting.{sort_by}
use swyft.Api.Candles.Keys.{CandleInterval, PeriodKey, period_key_eq}
use swyft.Api.Candles.{
  Numbers, CandleStore, SwapProcessed, CandleGapPolicy, CandleErrorCode, concurrent_processing,
  interval_ms, assert_interval, authorize, aggregate_period,
}

-- `none`: the key is in flight.
unfoldable pub enter : PeriodKey → List PeriodKey → Option (List PeriodKey)
enter key in_flight = if any (λ k. k === key) in_flight then none else some (key ∷ in_flight)

unfoldable pub leave : PeriodKey → List PeriodKey → List PeriodKey
leave key in_flight = keep (λ k. not (k === key)) in_flight

pub record CandlesService (F : Type 0) : Type 0 where
  pub store : CandleStore F
  pub in_flight : List PeriodKey

-- `Math.floor((Date.now() - ms) / ms) * ms`, at a time after the first period of all.
unfoldable pub last_period : CandleInterval → ℕ → ℕ
last_period interval now =
    (now - interval_ms interval) / interval_ms interval * interval_ms interval

unfoldable pub first_swap : List SwapProcessed → Option SwapProcessed
first_swap swaps = elim (sort_by (λ s. s.created_at) swaps) [ [] ↦ none | s ∷ _ ↦ some s ]

abbrev pub Answer : Type 0 → Type 0
Answer F = CandlesService F × Result CandleErrorCode ℕ

module _ {F : Type 0} where
  abbrev pub left : PeriodKey → List PeriodKey → CandleStore F × Result CandleErrorCode ℕ → Answer F
  left key in_flight (store, answer) =
      (record { store = store; in_flight = leave key in_flight }, answer)

  abbrev pub entered :
      PeriodKey
      → (CandleStore F → CandleStore F × Result CandleErrorCode ℕ)
      → CandlesService F
      → Option (List PeriodKey)
      → Answer F
  entered key body service none = (service, err concurrent_processing)
  entered key body service (some in_flight) = left key in_flight (body service.store)

  -- With nothing in between.
  unfoldable pub run_exclusive :
      PeriodKey
      → (CandleStore F → CandleStore F × Result CandleErrorCode ℕ)
      → CandlesService F
      → Answer F
  run_exclusive key body service = entered key body service (enter key service.in_flight)

  -- What follows the call of one period: the rest, or the throw.
  abbrev pub next_period : (ℕ → CandlesService F → Answer F) → ℕ → Answer F → Answer F
  next_period rest written (service, err code) = (service, err code)
  next_period rest written (service, ok n) = rest (written + n) service

module _ {F : Type 0} (num : Numbers F) (policy : CandleGapPolicy) where
  unfoldable pub run_period : CandleInterval → ℕ → CandlesService F → Answer F
  run_period interval start service =
      run_exclusive (interval, start) (aggregate_period num interval start policy) service

  abbrev pub checked_aggregate :
      ℕ → CandlesService F → Result CandleErrorCode CandleInterval → Answer F
  checked_aggregate now service (err code) = (service, err code)
  checked_aggregate now service (ok interval) =
      run_period interval (last_period interval now) service

  abbrev pub authorized_aggregate :
      ℕ → String → CandlesService F → Result CandleErrorCode (Unit {0}) → Answer F
  authorized_aggregate now interval service (err code) = (service, err code)
  authorized_aggregate now interval service (ok _) =
      checked_aggregate now service (assert_interval interval)

  unfoldable pub aggregate : ℕ → String → Option (List String) → CandlesService F → Answer F
  aggregate now interval actor service = authorized_aggregate now interval service (authorize actor)

  -- The loop of `backfill`, on fuel.
  unfoldable pub backfill_from : ℕ → CandleInterval → ℕ → ℕ → ℕ → CandlesService F → Answer F
  backfill_from zero interval last start written service = (service, ok written)
  backfill_from (suc fuel) interval last start written service =
      let rest = backfill_from fuel interval last (start + interval_ms interval) in
      if ltb start last
      then next_period rest written (run_period interval start service)
      else (service, ok written)

  -- As many rounds as there are periods from the first swap's to the last.
  abbrev pub backfill_periods :
      ℕ → CandleInterval → CandlesService F → Option SwapProcessed → Answer F
  backfill_periods now interval service none = (service, ok 0)
  backfill_periods now interval service (some first) =
      let start = first.created_at / interval_ms interval * interval_ms interval in
      let last = last_period interval now in
      backfill_from ((last - start) / interval_ms interval + 1) interval last start 0 service

  abbrev pub checked_backfill :
      ℕ → CandlesService F → Result CandleErrorCode CandleInterval → Answer F
  checked_backfill now service (err code) = (service, err code)
  checked_backfill now service (ok interval) =
      backfill_periods now interval service (first_swap service.store.swaps)

  abbrev pub authorized_backfill :
      ℕ → String → CandlesService F → Result CandleErrorCode (Unit {0}) → Answer F
  authorized_backfill now interval service (err code) = (service, err code)
  authorized_backfill now interval service (ok _) =
      checked_backfill now service (assert_interval interval)

  unfoldable pub backfill : ℕ → String → Option (List String) → CandlesService F → Answer F
  backfill now interval actor service = authorized_backfill now interval service (authorize actor)
