-- ===== src/Api/Candles/Backfilled.antt =====
-- Which periods `backfill` of candles.service.ts runs, and in which order.
use swyft.Prelude.{
  ℕ, zero, suc, ◌+◌, ◌-◌, ◌*◌, ◌/◌, ◌≤◌, ◌<◌, ◌≡◌, refl, true, false, some, List, [], ◌∷◌, arith,
  err, ok, ltb, lt→ltb, le→ltb,
}
use native.Mathlib.Decide.{dec_lt}
use native.Mathlib.Nat.{
  mul_comm, mul-sub, le-div_iff_mul-le, mul-lt-mul_of_pos_right, mul-le-mul_right,
}
use swyft.Api.Candles.Keys.{CandleInterval}
use swyft.Api.Candles.{Numbers, CandleGapPolicy, SwapProcessed, interval_ms}
use swyft.Api.Candles.Service.{
  CandlesService, Answer, run_period, next_period, backfill_from, backfill_periods, last_period,
}

-- The starts of `n` successive periods, from the m-th one on.
abbrev pub periods : ℕ → ℕ → ℕ → List ℕ
periods ms m zero = []
periods ms m (suc n) = (m * ms) ∷ periods ms (suc m) n

interval_ms_pos : (interval : CandleInterval) → 0 < interval_ms interval
unfolding interval_ms
interval_ms_pos interval = ground arith

rounds_enough : (a b ms : ℕ) → 0 < ms → a - b < (a * ms - b * ms) / ms + 1
rounds_enough a b ms pos =
    let fits : (a - b) * ms ≤ a * ms - b * ms =
      rw (mul_comm (a - b) ms, mul_comm a ms, mul_comm b ms, mul-sub ms a b) (omega arith) in
    let within : a - b ≤ (a * ms - b * ms) / ms = (le-div_iff_mul-le pos).1 fits in omega arith

next_period_same :
    {F : Type 0} (f g : ℕ → CandlesService F → Answer F) (written : ℕ) (answer : Answer F)
    → ((w : ℕ) (s : CandlesService F) → f w s ≡ g w s)
    → next_period f written answer ≡ next_period g written answer
next_period_same f g written (service, err code) h = refl
next_period_same f g written (service, ok n) h = h (written + n) service

module _ {F : Type 0} (num : Numbers F) (policy : CandleGapPolicy) (interval : CandleInterval) where
  -- One period after the other, with the candles written so far, until one throws.
  unfoldable pub run_periods : List ℕ → ℕ → CandlesService F → Answer F
  run_periods [] written service = (service, ok written)
  run_periods (start ∷ starts) written service =
      next_period (run_periods starts) written (run_period num policy interval start service)

  backfill_from-run_periods :
      (fuel m n written : ℕ) (service : CandlesService F)
      → 0 < interval_ms interval
      → n - m < fuel
      → backfill_from num policy fuel interval
          (n * interval_ms interval)
          (m * interval_ms interval)
          written
          service
        ≡ run_periods (periods (interval_ms interval) m (n - m)) written service
  unfolding backfill_from run_periods
  backfill_from-run_periods zero m n written service pos enough = absurd (omega arith)
  backfill_from-run_periods (suc fuel) m n written service pos enough =
      let ms = interval_ms interval in
      elim (dec_lt m n) [
        | yes before ↦
            let more : n - m ≡ suc (n - suc m) = omega arith in
            let test : ltb (m * ms) (n * ms) ≡ true =
              lt→ltb (m * ms) (n * ms) (mul-lt-mul_of_pos_right before pos) in
            let next : m * ms + ms ≡ suc m * ms = grind arith in
            rw (more, test, next)
              (next_period_same (backfill_from num policy fuel interval (n * ms) (suc m * ms))
                (run_periods (periods ms (suc m) (n - suc m))) written
                (run_period num policy interval (m * ms) service)
                (λ w s. backfill_from-run_periods fuel (suc m) n w s pos (omega arith)))
        | no after ↦
            let none_left : n - m ≡ 0 = omega arith in
            let test : ltb (m * ms) (n * ms) ≡ false =
              le→ltb (m * ms) (n * ms) (mul-le-mul_right ms (omega arith)) in
            rw (none_left, test) refl
      ]

  -- With a first swap: exactly the periods from that swap's to the one before the last complete
  -- one, in order, until one throws.
  pub backfill_periods-run_periods :
      (now : ℕ) (first : SwapProcessed) (service : CandlesService F)
      → backfill_periods num policy now interval service (some first)
        ≡ run_periods
            (periods (interval_ms interval) (first.created_at / interval_ms interval) (
              (now - interval_ms interval) / interval_ms interval
              - first.created_at / interval_ms interval))
            0
            service
  unfolding last_period
  backfill_periods-run_periods now first service =
      let first_period = first.created_at / interval_ms interval in
      let end_period = (now - interval_ms interval) / interval_ms interval in
      backfill_from-run_periods
        ((end_period * interval_ms interval - first_period * interval_ms interval)
            / interval_ms interval
          + 1)
        first_period end_period 0 service (interval_ms_pos interval)
        (rounds_enough end_period first_period (interval_ms interval) (interval_ms_pos interval))
