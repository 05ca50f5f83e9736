-- ===== src/Api/PriceCandles/Filled.antt =====
-- What stands at each place of the candles of a chart.
use swyft.Prelude.{
  ℕ, zero, suc, ◌+◌, ◌*◌, ◌/◌, ◌≤◌, ◌<◌, ◌≡◌, refl, ap, ◌∙◌, arith, Bool, true, false, ◌&&◌, Option,
  none, some, List, [], ◌∷◌, leb, ltb, if◌then◌else◌, inl, inr, Bool-cases,
}
use native.Mathlib.Nat.{le-div_iff_mul-le, div-mul-le_self, mul-le-mul_right}
use swyft.Prelude.Equality.{◌===◌, number_eq}
use swyft.Prelude.Table.{Table, find, upsert, find-upsert, changed_const}
use swyft.Api.PriceCandles.{PriceCandle, index_by_time, or_null, fill_from, fill_candle_gaps}

-- What stands at a place of a list.
unfoldable pub get_elem? {ℓ} : {A : Type ℓ} → List A → ℕ → Option A
get_elem? [] i = none
get_elem? (x ∷ xs) zero = some x
get_elem? (x ∷ xs) (suc i) = get_elem? xs i

abbrev first_some {ℓ} : {A : Type ℓ} → Option A → Option A → Option A
first_some none other = other
first_some (some x) other = some x

ltb-suc : (i left : ℕ) → ltb (suc i) (suc left) ≡ ltb i left
ltb-suc i left = ground arith

beyond : (t k x end : ℕ) → leb t end ≡ false → leb (t + k + x) end ≡ false
beyond t k x end h = ground arith

and_false : (a : Bool) → (a && false) ≡ false
and_false a = ground arith

leb_iff : (x a b : ℕ) → (x ≤ b → x ≤ a) → a ≤ b → leb x a ≡ leb x b
leb_iff x a b h le = elim (Bool-cases (leb x b)) [
  | inl below ↦ let fits : x ≤ a = h (ground arith) in ground arith
  | inr above ↦ ground arith
]

-- The start of a bucket is not after the end exactly if it is not after the start of the last bucket.
leb_multiple : (q i k b : ℕ) → 0 < k → leb (q * k + i * k) (b / k * k) ≡ leb (q * k + i * k) b
leb_multiple q i k b positive =
    let whole : q * k + i * k ≡ (q + i) * k = grind arith in
    rw whole (
      leb_iff ((q + i) * k) (b / k * k) b
        (λ h. mul-le-mul_right k ((le-div_iff_mul-le positive).1 h)) (div-mul-le_self b k))

module _ {ℓ} {F : Type ℓ} where
  -- The last candle of a time, in a list of candles.
  unfoldable pub last_at : ℕ → List (PriceCandle F) → Option (PriceCandle F)
  last_at t [] = none
  last_at t (c ∷ candles) = first_some (last_at t candles) (if c.time === t then some c else none)

  picked :
      (last : Option (PriceCandle F)) (same : Bool) (c : PriceCandle F)
      (rest : Option (PriceCandle F))
      → first_some last (if same then some c else rest)
        ≡ first_some (first_some last (if same then some c else none)) rest
  picked none true c rest = refl
  picked none false c rest = refl
  picked (some d) same c rest = refl

  index_found :
      (t : ℕ) (candles : List (PriceCandle F)) (by_time : Table ℕ (PriceCandle F))
      → find t (index_by_time candles by_time) ≡ first_some (last_at t candles) (find t by_time)
  unfolding index_by_time last_at
  index_found t [] by_time = refl
  index_found t (c ∷ candles) by_time =
      index_found t candles (upsert c.time (λ _. c) c by_time)
      ∙ rw (find-upsert c.time t (λ _. c) c by_time, changed_const c (find c.time by_time))
          (picked (last_at t candles) (c.time === t) c (find t by_time))

  get_elem?-fill_from :
      (by_time : Table ℕ (PriceCandle F)) (interval_sec end left t i : ℕ)
      → get_elem? (fill_from by_time interval_sec end left t) i ≡ (
          if ltb i left && leb (t + i * interval_sec) end
          then some (or_null (t + i * interval_sec) (find (t + i * interval_sec) by_time))
          else none)
  unfolding fill_from get_elem?
  get_elem?-fill_from by_time interval_sec end zero t i = ground arith
  get_elem?-fill_from by_time interval_sec end (suc left) t zero = ground arith
  get_elem?-fill_from by_time interval_sec end (suc left) t (suc i) =
      let ih = get_elem?-fill_from by_time interval_sec end left (t + interval_sec) i in
      let further : t + suc i * interval_sec ≡ t + interval_sec + i * interval_sec = grind arith in
      rw further (elim (Bool-cases (leb t end)) [
        | inl there ↦ rw there (ih ∙ rw (ltb-suc i left) refl)
        | inr over ↦
            rw over rw
              (
                beyond t interval_sec (i * interval_sec) end over,
                and_false (ltb (suc i) (suc left)),
              )
              refl
      ])

before : (start x end : ℕ) → ltb end start ≡ true → leb (start + x) end ≡ false
before start x end h = ground arith

no_place : (i limit : ℕ) → leb limit 0 ≡ true → ltb i limit ≡ false
no_place i limit h = ground arith

get_elem?-gated {ℓ} :
    {F : Type ℓ} (by_time : Table ℕ (PriceCandle F)) (interval_sec end limit start i : ℕ)
    → get_elem?
        (if leb limit 0
          then []
          else if ltb end start
          then []
          else fill_from by_time interval_sec end limit start)
        i
      ≡ (if ltb i limit && leb (start + i * interval_sec) end
          then some (or_null (start + i * interval_sec) (find (start + i * interval_sec) by_time))
          else none)
unfolding get_elem?
get_elem?-gated by_time interval_sec end limit start i = elim (Bool-cases (leb limit 0)) [
  | inl empty ↦ rw (empty, no_place i limit empty) refl
  | inr room ↦ elim (Bool-cases (ltb end start)) [
    | inl over ↦
        rw (room, over, before start (i * interval_sec) end over, and_false (ltb i limit)) refl
    | inr here ↦ rw (room, here) (get_elem?-fill_from by_time interval_sec end limit start i)
  ]
]

found_none {ℓ} : {A : Type ℓ} (o : Option A) → first_some o none ≡ o
found_none none = refl
found_none (some x) = refl

-- What the candle of a time is: the last of the given candles at this time, or the empty one.
abbrev pub shown {ℓ} : {F : Type ℓ} → List (PriceCandle F) → ℕ → PriceCandle F
shown candles t = or_null t (last_at t candles)

-- The filled candles stand, one after another, at the starts of the buckets from that of `from` to
-- that of `to`, and no more of them than the limit: at place i is the last of the given candles at the
-- start of the i-th bucket, or the empty candle of this time where there is none.
pub get_elem?-fill_candle_gaps {ℓ} :
    {F : Type ℓ} (candles : List (PriceCandle F)) (interval_sec from to limit i : ℕ)
    → 0 < interval_sec
    → get_elem? (fill_candle_gaps candles interval_sec from to limit) i ≡ (
        if ltb i limit && leb (from / interval_sec * interval_sec + i * interval_sec) to
        then some (shown candles (from / interval_sec * interval_sec + i * interval_sec))
        else none)
unfolding fill_candle_gaps find
get_elem?-fill_candle_gaps candles interval_sec from to limit i positive =
    let runs : leb interval_sec 0 ≡ false = ground arith in
    let start = from / interval_sec * interval_sec in
    let end = to / interval_sec * interval_sec in
    let t = start + i * interval_sec in
    rw runs (
      get_elem?-gated (index_by_time candles []) interval_sec end limit start i
      ∙ rw (leb_multiple (from / interval_sec) i interval_sec to positive) (
          ap
            (λ (o : Option (PriceCandle _)).
              if ltb i limit && leb t to then some (or_null t o) else none)
            (index_found t candles [] ∙ found_none (last_at t candles))))
