-- ===== src/Api/Candles/Tests.antt =====
-- Runs of candles.service.ts and instances of its theorems, with natural numbers for prices.
use Prim.Native.Char.{code}
use swyft.Prelude.{
  inl, inr, Bool-cases, zero, suc, false, ap, ◌==◌, ℕ, ◌+◌, max, min, ◌≡◌, refl, arith, String,
  Option, none, some, List, [], ◌∷◌, map, ok, err, if◌then◌else◌, take, ◌-◌, ◌/◌,
}
use swyft.Prelude.BigInt.{pos}
use swyft.Prelude.Number.{int}
use swyft.Prelude.Equality.{◌===◌, string_eq}
use swyft.Prelude.Table.{find, map?}
use swyft.Api.Candles.Keys.{one_minute, one_hour, candle_key_eq, period_key_eq}
use swyft.Api.Candles.{
  Numbers, Ohlcv, CandleStore, SwapProcessed, strict, accumulate_all, aggregate_period, no_gap_from,
  assert_interval, assert_no_gap, interval_ms, dependency_unavailable,
}
use swyft.Api.Candles.Summary.{candle?, bars_of, find-accumulate_all}
use swyft.Api.Candles.Hourly.{Associative, prices, concat, accumulate_all-accumulate_all}
use swyft.Api.Candles.Replayed.{aggregate_period_twice}
use swyft.Api.Candles.Gaps.{NoGap, assert_no_gap-NoGap}
use swyft.Api.Candles.Service.{CandlesService, backfill_periods}
use swyft.Api.Candles.Backfilled.{run_periods, periods, backfill_periods-run_periods}
use swyft.Api.Candles.Ticks.{TickDto, FindMany, TicksQuery, authorize_ticks, resolve_limit}
use swyft.Api.Candles.Paging.{collect, later}
use swyft.Api.Candles.Collected.{collect_all}

abbrev price_of : String → ℕ
price_of text = if text === "9" then 9 else 7

abbrev naturals : Numbers ℕ
naturals = record {
  largest = max;
  smallest = min;
  plus = λ a b. a + b;
  magnitude = λ a. a;
  number = price_of;
}

abbrev bar_at : ℕ → Ohlcv ℕ
bar_at p = record { opening = p; high = p; low = p; close = p; volume_usd = 1 }

abbrev two_pools : List (String × Ohlcv ℕ)
two_pools = ("a", bar_at 7) ∷ ("b", bar_at 5) ∷ ("a", bar_at 9) ∷ ("a", bar_at 8) ∷ []

abbrev swap_at : ℕ → String → SwapProcessed
swap_at at price = record { pool_id = "a"; sqrt_price_x96 = price; amount0 = "7"; created_at = at }

abbrev swaps : List SwapProcessed
swaps = swap_at 61000 "9" ∷ swap_at 60500 "7" ∷ []

abbrev tables : CandleStore ℕ
tables = record { swaps = swaps; candles = [] }

two_pools_run :
    candle? naturals (bars_of "a" two_pools)
    ≡ some (record { opening = 7; high = 9; low = 7; close = 8; volume_usd = 3 })
unfolding candle? bars_of
two_pools_run = refl

find-accumulate_all_example :
    find "a" (accumulate_all naturals [] two_pools) ≡ candle? naturals (bars_of "a" two_pools)
find-accumulate_all_example = find-accumulate_all naturals "a" two_pools

max_assoc : (a b c : ℕ) → max (max a b) c ≡ max a (max b c)
max_assoc a b c = omega arith

min_assoc : (a b c : ℕ) → min (min a b) c ≡ min a (min b c)
min_assoc a b c = omega arith

naturals-Associative : Associative ℕ naturals
naturals-Associative = record { largest_assoc = max_assoc; smallest_assoc = min_assoc }

accumulate_all-accumulate_all_example :
    prices (
      find "a" (
        accumulate_all naturals []
          (concat (map (accumulate_all naturals []) (two_pools ∷ two_pools ∷ [])))))
    ≡ prices (find "a" (accumulate_all naturals [] (concat (two_pools ∷ two_pools ∷ []))))
accumulate_all-accumulate_all_example =
    accumulate_all-accumulate_all naturals naturals-Associative "a" (two_pools ∷ two_pools ∷ [])

aggregate_period_twice_example :
    aggregate_period naturals one_hour 0 strict
      (aggregate_period naturals one_hour 0 strict tables).0
    ≡ aggregate_period naturals one_hour 0 strict tables
aggregate_period_twice_example = aggregate_period_twice naturals one_hour 0 strict tables

-- An hour without all of its twelve buckets is refused.
one_bucket_run : assert_no_gap (0 ∷ []) 0 3600000 300000 strict ≡ err dependency_unavailable
unfolding assert_no_gap no_gap_from
one_bucket_run = refl

two_buckets_run : assert_no_gap (0 ∷ 300000 ∷ []) 0 600000 300000 strict ≡ ok tt
unfolding assert_no_gap no_gap_from
two_buckets_run = refl

assert_no_gap-NoGap_example : NoGap (0 ∷ 300000 ∷ []) 0 600000 300000
assert_no_gap-NoGap_example =
    (assert_no_gap-NoGap (0 ∷ 300000 ∷ []) 0 600000 300000 (omega arith)).0 two_buckets_run

abbrev service : CandlesService ℕ
service = record { store = tables; in_flight = [] }

backfill_periods-run_periods_example :
    backfill_periods naturals strict 240000 one_minute service (some (swap_at 61000 "9"))
    ≡ run_periods naturals strict one_minute
        (periods (interval_ms one_minute) (61000 / interval_ms one_minute) (
          (240000 - interval_ms one_minute) / interval_ms one_minute
          - 61000 / interval_ms one_minute))
        0
        service
backfill_periods-run_periods_example =
    backfill_periods-run_periods naturals strict one_minute 240000 (swap_at 61000 "9") service

-- A cursor in unary.
encode : ℕ → String
encode zero = "."
encode (suc n) = String.◌∷◌ "1" (encode n)

decode : String → Option ℕ
decode String.[] = none
decode (String.◌∷◌ c s) = let rest = decode s in if code c == b'.' then some 0 else map? suc rest

decode-encode : (t : ℕ) → decode (encode t) ≡ some t
unfolding decode encode
decode-encode zero = refl
decode-encode (suc t) = ap (map? suc) (decode-encode t)

encode_not_empty : (t : ℕ) → (encode t === "") ≡ false
unfolding encode
encode_not_empty zero = refl
encode_not_empty (suc t) = elim (Bool-cases (encode (suc t) === "")) [
  | inl same ↦ let bad : encode (suc t) ≡ "" = (string_eq.same_iff (encode (suc t)) "").0 same in cc
  | inr other ↦ other
]

abbrev tick_at : ℕ → TickDto ℕ
tick_at t = record { pool_id = "a"; interval = one_minute; period_start = t; bar = bar_at t }

abbrev series : List (TickDto ℕ)
series = tick_at 0 ∷ tick_at 60000 ∷ tick_at 120000 ∷ []

abbrev stored : FindMany ℕ
stored pool interval at n = some (take n (later at series))

abbrev pairwise : TicksQuery
pairwise = record { pool_id = "a"; interval = none; limit = some (int (pos 2)); cursor = none }

collect_all_example : collect encode decode stored 4 pairwise (some ("admin" ∷ [])) ≡ some series
unfolding authorize_ticks assert_interval resolve_limit
collect_all_example =
    collect_all encode decode stored
      (record { decode-encode = decode-encode; not_empty = encode_not_empty }) "a" none one_minute
      (some (int (pos 2))) 1 (some ("admin" ∷ [])) series refl refl refl (omega arith)
      (λ at n. refl)
