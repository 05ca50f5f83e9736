-- ===== src/Api/Candles/Hourly.antt =====
-- Hourly candles in candles.service.ts are made from the candles of five minutes; here is what they
-- would be from the swaps themselves.
use swyft.Prelude.{
  inl, inr, Bool-cases, ◌≡◌, refl, sym, ap, ◌∙◌, String, Option, none, some, List, [], ◌∷◌, ◌++◌,
  map,
}
use mathlib.Core.List.{map-append}
use swyft.Prelude.Distinct.{DistinctKeys}
use swyft.Prelude.Table.{Table, find}
use swyft.Prelude.Equality.{◌===◌, string_eq}
use swyft.Api.Candles.{Numbers, Ohlcv, accumulate_all}
use swyft.Api.Candles.Summary.{fold, last_of, candle_of, candle?, bars_of, find-accumulate_all}
use swyft.Api.Candles.Written.{accumulate_all-DistinctKeys}

-- Laws of Math.max and Math.min. The sums of JavaScript's numbers have no such law.
pub record Associative (F : Type 0) (num : Numbers F) : Type 0 where
  pub largest_assoc :
      (a b c : F) → num.largest (num.largest a b) c ≡ num.largest a (num.largest b c)
  pub smallest_assoc :
      (a b c : F) → num.smallest (num.smallest a b) c ≡ num.smallest a (num.smallest b c)

-- The four prices of a candle that may be missing.
abbrev pub prices : {F : Type 0} → Option (Ohlcv F) → Option (F × (F × (F × F)))
prices none = none
prices (some bar) = some (bar.opening, (bar.high, (bar.low, bar.close)))

abbrev pub concat {ℓ} : {A : Type ℓ} → List (List A) → List A
concat [] = []
concat (xs ∷ rest) = xs ++ concat rest

abbrev to_list {ℓ} : {A : Type ℓ} → Option A → List A
to_list none = []
to_list (some a) = a ∷ []

fold_out :
    {A : Type 0} (f : A → A → A) (assoc : (a b c : A) → f (f a b) c ≡ f a (f b c)) (a b : A)
    (xs : List A)
    → fold f (f a b) xs ≡ f a (fold f b xs)
fold_out f assoc a b [] = refl
fold_out f assoc a b (x ∷ xs) = rw (assoc a b x) (fold_out f assoc a (f b x) xs)

fold-append :
    {A : Type 0} (f : A → A → A) (a : A) (xs ys : List A)
    → fold f a (xs ++ ys) ≡ fold f (fold f a xs) ys
fold-append f a [] ys = refl
fold-append f a (x ∷ xs) ys = fold-append f (f a x) xs ys

last_of-append :
    {A : Type 0} (a : A) (xs ys : List A) → last_of a (xs ++ ys) ≡ last_of (last_of a xs) ys
last_of-append a [] ys = refl
last_of-append a (x ∷ xs) ys = last_of-append x xs ys

module _ {F : Type 0} (num : Numbers F) where
  -- The candles of buckets, one after the other.
  abbrev bucket_candles : List (List (Ohlcv F)) → List (Ohlcv F)
  bucket_candles [] = []
  bucket_candles (bars ∷ rest) = to_list (candle? num bars) ++ bucket_candles rest

  module _ (g : Ohlcv F → F) where
    field_fold :
        (f : F → F → F)
        → ((a b c : F) → f (f a b) c ≡ f a (f b c))
        → ((bar : Ohlcv F) (bars : List (Ohlcv F))
            → g (candle_of num bar bars) ≡ fold f (g bar) (map g bars))
        → (a : F) (buckets : List (List (Ohlcv F)))
        → fold f a (map g (bucket_candles buckets)) ≡ fold f a (map g (concat buckets))
    unfolding candle?
    field_fold f assoc same a [] = refl
    field_fold f assoc same a ([] ∷ rest) = field_fold f assoc same a rest
    field_fold f assoc same a ((bar ∷ bars) ∷ rest) =
        let joined : f a (fold f (g bar) (map g bars)) ≡ fold f (f a (g bar)) (map g bars) =
          sym (fold_out f assoc a (g bar) (map g bars)) in
        rw (same bar bars, joined)
          (field_fold f assoc same (fold f (f a (g bar)) (map g bars)) rest
            ∙ sym (
                rw (map-append g bars (concat rest))
                  (fold-append f (f a (g bar)) (map g bars) (map g (concat rest)))))

    -- The same with the rows of a bucket that is under way.
    field_joined :
        (f : F → F → F)
        → ((a b c : F) → f (f a b) c ≡ f a (f b c))
        → ((bar : Ohlcv F) (bars : List (Ohlcv F))
            → g (candle_of num bar bars) ≡ fold f (g bar) (map g bars))
        → (a : F) (bars : List (Ohlcv F)) (rest : List (List (Ohlcv F)))
        → fold f (fold f a (map g bars)) (map g (bucket_candles rest))
          ≡ fold f a (map g (bars ++ concat rest))
    field_joined f assoc same a bars rest =
        field_fold f assoc same (fold f a (map g bars)) rest
        ∙ sym (
            rw (map-append g bars (concat rest))
              (fold-append f a (map g bars) (map g (concat rest))))

  close_last :
      (a : F) (buckets : List (List (Ohlcv F)))
      → last_of a (map (λ b. b.close) (bucket_candles buckets))
        ≡ last_of a (map (λ b. b.close) (concat buckets))
  unfolding candle? candle_of
  close_last a [] = refl
  close_last a ([] ∷ rest) = close_last a rest
  close_last a ((bar ∷ bars) ∷ rest) =
      let close : Ohlcv F → F = λ b. b.close in
      close_last (last_of bar.close (map close bars)) rest
      ∙ sym (
          rw (map-append close bars (concat rest))
            (last_of-append bar.close (map close bars) (map close (concat rest))))

  module _ (laws : Associative F num) where
    candle_of_candles :
        (bar : Ohlcv F) (bars : List (Ohlcv F)) (rest : List (List (Ohlcv F)))
        → prices (some (candle_of num (candle_of num bar bars) (bucket_candles rest)))
          ≡ prices (some (candle_of num bar (bars ++ concat rest)))
    unfolding candle_of candle?
    candle_of_candles bar bars rest =
        let high =
          field_joined (λ b. b.high) num.largest laws.largest_assoc (λ b bs. refl) bar.high bars
            rest in
        let low =
          field_joined (λ b. b.low) num.smallest laws.smallest_assoc (λ b bs. refl) bar.low bars
            rest in
        let close = close_last bar.close ((bar ∷ bars) ∷ rest) in
        λ i. some (bar.opening, (high i, (low i, close i)))

    candle?_candles :
        (buckets : List (List (Ohlcv F)))
        → prices (candle? num (bucket_candles buckets)) ≡ prices (candle? num (concat buckets))
    unfolding candle?
    candle?_candles [] = refl
    candle?_candles ([] ∷ rest) = candle?_candles rest
    candle?_candles ((bar ∷ bars) ∷ rest) = candle_of_candles bar bars rest

  -- The rows of a pool in a table without a key twice.
  bars_of_table :
      (pool : String) (t : Table String (Ohlcv F))
      → DistinctKeys t
      → bars_of pool t ≡ to_list (find pool t)
  unfolding bars_of find
  bars_of_table pool [] d = refl
  bars_of_table pool ((p, bar) ∷ t) (fresh, d) = elim (Bool-cases (p === pool)) [
    | inl same ↦
        let e = (string_eq.same_iff p pool).0 same in
        rw (same, bars_of_table pool t d) (rw (← e, fresh) refl)
    | inr other ↦ rw (other) (bars_of_table pool t d)
  ]

  bars_of-append :
      (pool : String) (xs ys : List (String × Ohlcv F))
      → bars_of pool (xs ++ ys) ≡ bars_of pool xs ++ bars_of pool ys
  unfolding bars_of
  bars_of-append pool [] ys = refl
  bars_of-append pool ((p, bar) ∷ xs) ys = elim (Bool-cases (p === pool)) [
    | inl same ↦ rw (same) (ap (◌∷◌ bar) (bars_of-append pool xs ys))
    | inr other ↦ rw (other) (bars_of-append pool xs ys)
  ]

  bars_of-concat :
      (pool : String) (buckets : List (List (String × Ohlcv F)))
      → bars_of pool (concat buckets) ≡ concat (map (bars_of pool) buckets)
  unfolding bars_of
  bars_of-concat pool [] = refl
  bars_of-concat pool (rows ∷ rest) =
      bars_of-append pool rows (concat rest)
      ∙ ap (λ ys. bars_of pool rows ++ ys) (bars_of-concat pool rest)

  bars_of-candles :
      (pool : String) (buckets : List (List (String × Ohlcv F)))
      → bars_of pool (concat (map (accumulate_all num []) buckets))
        ≡ bucket_candles (map (bars_of pool) buckets)
  unfolding bars_of
  bars_of-candles pool [] = refl
  bars_of-candles pool (rows ∷ rest) =
      let table = accumulate_all num [] rows in
      bars_of-append pool table (concat (map (accumulate_all num []) rest))
      ∙ rw
          (
            bars_of_table pool table (accumulate_all-DistinctKeys num [] rows tt),
            find-accumulate_all num pool rows,
            bars_of-candles pool rest,
          )
          refl

  -- Where largest and smallest are associative, whatever the sums: accumulating the candles of
  -- successive buckets, each accumulated from its own rows, gives every pool a candle exactly if
  -- accumulating all the rows at once does, with the same opening, high, low and closing price.
  pub accumulate_all-accumulate_all :
      Associative F num
      → (pool : String) (buckets : List (List (String × Ohlcv F)))
      → prices (find pool (accumulate_all num [] (concat (map (accumulate_all num []) buckets))))
        ≡ prices (find pool (accumulate_all num [] (concat buckets)))
  accumulate_all-accumulate_all laws pool buckets =
      rw
        (
          find-accumulate_all num pool (concat (map (accumulate_all num []) buckets)),
          find-accumulate_all num pool (concat buckets),
          bars_of-candles pool buckets,
          bars_of-concat pool buckets,
        )
        (candle?_candles laws (map (bars_of pool) buckets))
