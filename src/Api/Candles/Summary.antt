-- ===== src/Api/Candles/Summary.antt =====
-- The candle of a pool, described without the map of `aggregatePeriod`.
use swyft.Prelude.{
  ◌≡◌, refl, ◌∙◌, true, false, String, Option, none, some, List, [], ◌∷◌, map, inl, inr, Bool-cases,
  if◌then◌else◌,
}
use swyft.Prelude.Equality.{◌===◌, string_eq}
use swyft.Prelude.Table.{Table, find, changed, find-upsert}
use swyft.Api.Candles.{Numbers, Ohlcv, merge_bar, accumulate, accumulate_all}

abbrev pub fold {ℓ} : {A : Type ℓ} → (A → A → A) → A → List A → A
fold f a [] = a
fold f a (x ∷ xs) = fold f (f a x) xs

abbrev pub last_of {ℓ} : {A : Type ℓ} → A → List A → A
last_of a [] = a
last_of a (x ∷ xs) = last_of x xs

module _ {F : Type 0} where
  -- The bars of a pool, in their order.
  unfoldable pub bars_of : String → List (String × Ohlcv F) → List (Ohlcv F)
  bars_of pool [] = []
  bars_of pool ((p, bar) ∷ rest) =
      let bars = bars_of pool rest in if p === pool then bar ∷ bars else bars

module _ {F : Type 0} (num : Numbers F) where
  -- The first opening, the largest high, the smallest low, the last close, the sum of the volumes.
  unfoldable pub candle_of : Ohlcv F → List (Ohlcv F) → Ohlcv F
  candle_of bar bars = record {
    opening = bar.opening;
    high = fold num.largest bar.high (map (λ b. b.high) bars);
    low = fold num.smallest bar.low (map (λ b. b.low) bars);
    close = last_of bar.close (map (λ b. b.close) bars);
    volume_usd = fold num.plus bar.volume_usd (map (λ b. b.volume_usd) bars);
  }

  unfoldable pub candle? : List (Ohlcv F) → Option (Ohlcv F)
  unfolding candle_of
  candle? [] = none
  candle? (bar ∷ bars) = some (candle_of bar bars)

  abbrev continued : Option (Ohlcv F) → List (Ohlcv F) → Option (Ohlcv F)
  unfolding candle? candle_of
  continued none bars = candle? bars
  continued (some bar) bars = candle? (bar ∷ bars)

  continued-merge :
      (o : Option (Ohlcv F)) (bar : Ohlcv F) (bars : List (Ohlcv F))
      → continued (some (changed (merge_bar num bar) bar o)) bars ≡ continued o (bar ∷ bars)
  unfolding continued
  continued-merge none bar bars = refl
  continued-merge (some existing) bar bars = refl

  find-accumulate_own :
      (p pool : String) (t : Table String (Ohlcv F)) (bar : Ohlcv F)
      → (p === pool) ≡ true
      → find pool (accumulate num t (p, bar)) ≡ some (changed (merge_bar num bar) bar (find pool t))
  unfolding accumulate
  find-accumulate_own p pool t bar same =
      find-upsert p pool (merge_bar num bar) bar t
      ∙ rw (same) (rw ((string_eq.same_iff p pool).0 same) refl)

  find-accumulate_other :
      (p pool : String) (t : Table String (Ohlcv F)) (bar : Ohlcv F)
      → (p === pool) ≡ false
      → find pool (accumulate num t (p, bar)) ≡ find pool t
  unfolding accumulate
  find-accumulate_other p pool t bar other =
      find-upsert p pool (merge_bar num bar) bar t ∙ rw (other) refl

  continued_none : (o : Option (Ohlcv F)) → o ≡ continued o []
  unfolding continued
  continued_none none = refl
  continued_none (some bar) = refl

  continued_accumulated :
      (pool : String) (t : Table String (Ohlcv F)) (rows : List (String × Ohlcv F))
      → find pool (accumulate_all num t rows) ≡ continued (find pool t) (bars_of pool rows)
  unfolding accumulate_all bars_of
  continued_accumulated pool t [] = continued_none (find pool t)
  continued_accumulated pool t ((p, bar) ∷ rest) = elim (Bool-cases (p === pool)) [
    | inl same ↦
        continued_accumulated pool (accumulate num t (p, bar)) rest
        ∙ rw (same, find-accumulate_own p pool t bar same)
            (continued-merge (find pool t) bar (bars_of pool rest))
    | inr other ↦
        continued_accumulated pool (accumulate num t (p, bar)) rest
        ∙ rw (other, find-accumulate_other p pool t bar other) refl
  ]

  -- Accumulating rows of all pools leaves at each pool exactly the candle of its own rows: the
  -- first opening, the largest high, the smallest low, the last close and the sum of the volumes,
  -- and no candle at a pool without rows.
  pub find-accumulate_all :
      (pool : String) (rows : List (String × Ohlcv F))
      → find pool (accumulate_all num [] rows) ≡ candle? (bars_of pool rows)
  unfolding continued find
  find-accumulate_all pool rows = continued_accumulated pool [] rows
