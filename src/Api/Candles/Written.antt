-- ===== src/Api/Candles/Written.antt =====
-- What `aggregatePeriod` leaves in the table of candles.
use swyft.Prelude.{
  ℕ, ◌≡◌, refl, sym, ◌∙◌, Bool, false, ◌&&◌, ◌==◌, String, Option, none, some, List, [], ◌∷◌, arith,
  inl, inr, Bool-cases, keep,
}
use swyft.Prelude.Equality.{◌===◌, string_eq, ===_refl}
use swyft.Prelude.Table.{Table, find, upsert, changed_const, find-upsert, upsert_same}
use swyft.Prelude.Distinct.{DistinctKeys, upsert-DistinctKeys}
use swyft.Api.Candles.Keys.{CandleInterval, CandleKey, candle_key_eq, interval_beq, interval_eq}
use swyft.Api.Candles.{Numbers, Ohlcv, merge_bar, accumulate, accumulate_all, write_candles}

abbrev pub or_else {ℓ} : {A : Type ℓ} → Option A → Option A → Option A
or_else none other = other
or_else (some a) other = some a

module _ {F : Type 0} (num : Numbers F) where
  pub accumulate_all-DistinctKeys :
      (t : Table String (Ohlcv F)) (rows : List (String × Ohlcv F))
      → DistinctKeys t
      → DistinctKeys (accumulate_all num t rows)
  unfolding accumulate_all accumulate
  accumulate_all-DistinctKeys t [] d = d
  accumulate_all-DistinctKeys t ((pool, bar) ∷ rows) d =
      accumulate_all-DistinctKeys (upsert pool (merge_bar num bar) bar t) rows
        (upsert-DistinctKeys pool (merge_bar num bar) bar t d)

same_key :
    (interval : CandleInterval) (start : ℕ) (p q : String)
    → (◌===◌ {K = CandleKey} (p, interval, start) (q, interval, start)) ≡ (p === q)
same_key interval start p q = ground (arith, ===_refl interval)

found_later {ℓ} :
    {V : Type ℓ} (p q : String) (t : Table String V) (v : V)
    → find p t ≡ none
    → find q t ≡ some v
    → (p === q) ≡ false
found_later p q t v fresh found = elim (Bool-cases (p === q)) [
  | inl same ↦ let here : find p t ≡ some v = rw ((string_eq.same_iff p q).0 same) found in cc
  | inr other ↦ other
]

-- A filter by the key does not see a write at a key that it leaves out.
keep-upsert {ℓ} :
    {V : Type ℓ} (p : CandleKey → Bool) (k : CandleKey) (v : V) (t : Table CandleKey V)
    → p k ≡ false
    → keep (λ row. p row.0) (upsert k (λ _. v) v t) ≡ keep (λ row. p row.0) t
unfolding upsert
keep-upsert p k v [] h = rw h refl
keep-upsert p k v ((j, w) ∷ t) h = elim (Bool-cases (j === k)) [
  | inl same ↦ rw (same, (candle_key_eq.same_iff j k).0 same, h) refl
  | inr other ↦ rw (other, keep-upsert p k v t h) refl
]

module _ {F : Type 0} (interval : CandleInterval) (start : ℕ) where
  pub find-write_candles :
      (pool : String) (by_pool : Table String (Ohlcv F)) (t : Table CandleKey (Ohlcv F))
      → DistinctKeys by_pool
      → find (pool, interval, start) (write_candles interval start by_pool t)
        ≡ or_else (find pool by_pool) (find (pool, interval, start) t)
  unfolding write_candles find
  find-write_candles pool [] t d = refl
  find-write_candles pool ((p, bar) ∷ rest) t (fresh, d) =
      let key : CandleKey = (p, interval, start) in
      let at : CandleKey = (pool, interval, start) in
      let later = find-write_candles pool rest (upsert key (λ _. bar) bar t) d in
      later
      ∙ rw (find-upsert key at (λ _. bar) bar t, same_key interval start p pool)
          (elim (Bool-cases (p === pool)) [
            | inl same ↦
                let e = (string_eq.same_iff p pool).0 same in
                rw (same, changed_const bar (find key t)) (rw (sym e, fresh) refl)
            | inr other ↦ rw (other) refl
          ])

  -- The keys of other periods and intervals stay.
  pub find-write_candles_other :
      (k : CandleKey) (by_pool : Table String (Ohlcv F)) (t : Table CandleKey (Ohlcv F))
      → (interval_beq interval k.1 && start == k.2) ≡ false
      → find k (write_candles interval start by_pool t) ≡ find k t
  unfolding write_candles
  find-write_candles_other k [] t h = refl
  find-write_candles_other k ((p, bar) ∷ rest) t h =
      let key : CandleKey = (p, interval, start) in
      let apart : (key === k) ≡ false = ground arith in
      find-write_candles_other k rest (upsert key (λ _. bar) bar t) h
      ∙ find-upsert key k (λ _. bar) bar t
      ∙ rw apart refl

  -- Writing what is there changes nothing.
  pub write_candles_same :
      (by_pool : Table String (Ohlcv F)) (t : Table CandleKey (Ohlcv F))
      → ((pool : String) (bar : Ohlcv F)
          → find pool by_pool ≡ some bar
          → find (pool, interval, start) t ≡ some bar)
      → DistinctKeys by_pool
      → write_candles interval start by_pool t ≡ t
  unfolding write_candles find
  write_candles_same [] t h d = refl
  write_candles_same ((p, bar) ∷ rest) t h (fresh, d) =
      let there : find (p, interval, start) t ≡ some bar = h p bar (rw (===_refl p) refl) in
      rw (upsert_same (p, interval, start) (λ _. bar) bar bar t there refl) (
        write_candles_same rest t
          (λ pool b found. h pool b (rw (found_later p pool rest b fresh found) found)) d)

module _ {F : Type 0} (interval : CandleInterval) (start : ℕ) where
  pub keep-write_candles :
      (p : CandleKey → Bool) (by_pool : Table String (Ohlcv F)) (t : Table CandleKey (Ohlcv F))
      → ((pool : String) → p (pool, interval, start) ≡ false)
      → keep (λ row. p row.0) (write_candles interval start by_pool t) ≡ keep (λ row. p row.0) t
  unfolding write_candles
  keep-write_candles p [] t h = refl
  keep-write_candles p ((pool, bar) ∷ rest) t h =
      keep-write_candles p rest (upsert (pool, interval, start) (λ _. bar) bar t) h
      ∙ keep-upsert p (pool, interval, start) bar t (h pool)
