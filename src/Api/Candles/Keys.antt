-- ===== src/Api/Candles/Keys.antt =====
-- The unique key of priceCandle in candles.service.ts, and the key of the set `inFlight`, the text
-- `<interval>:<periodStart>`.
use swyft.Prelude.{ℕ, ◌≡◌, ◌↔◌, Bool, true, false, ◌&&◌, String, arith, ◌==◌}
use swyft.Prelude.Equality.{Eq, ◌===◌, string_eq}

pub data CandleInterval : Type 0 where
  one_minute five_minutes one_hour one_day : CandleInterval

unfoldable pub interval_beq : CandleInterval → CandleInterval → Bool
interval_beq one_minute one_minute = true
interval_beq five_minutes five_minutes = true
interval_beq one_hour one_hour = true
interval_beq one_day one_day = true
interval_beq _ _ = false

pub interval_beq_iff : (i j : CandleInterval) → (interval_beq i j ≡ true) ↔ (i ≡ j)
unfolding interval_beq
interval_beq_iff one_minute j = ground arith
interval_beq_iff five_minutes j = ground arith
interval_beq_iff one_hour j = ground arith
interval_beq_iff one_day j = ground arith

instance abbrev pub interval_eq : Eq CandleInterval
interval_eq = record { same = interval_beq; same_iff = interval_beq_iff }

-- The pool, the interval and the start of the period.
abbrev pub CandleKey : Type 0
CandleKey = String × CandleInterval × ℕ

abbrev candle_key_beq : CandleKey → CandleKey → Bool
candle_key_beq j k = j.0 === k.0 && interval_beq j.1 k.1 && j.2 == k.2

pub candle_key_beq_iff : (j k : CandleKey) → (candle_key_beq j k ≡ true) ↔ (j ≡ k)
candle_key_beq_iff (p, i, s) (q, j, t) =
    ground (arith, string_eq.same_iff p q, interval_beq_iff i j)

instance abbrev pub candle_key_eq : Eq CandleKey
candle_key_eq = record { same = candle_key_beq; same_iff = candle_key_beq_iff }

abbrev pub PeriodKey : Type 0
PeriodKey = CandleInterval × ℕ

abbrev period_key_beq : PeriodKey → PeriodKey → Bool
period_key_beq j k = interval_beq j.0 k.0 && j.1 == k.1

pub period_key_beq_iff : (j k : PeriodKey) → (period_key_beq j k ≡ true) ↔ (j ≡ k)
period_key_beq_iff (i, s) (j, t) = ground (arith, interval_beq_iff i j)

instance abbrev pub period_key_eq : Eq PeriodKey
period_key_eq = record { same = period_key_beq; same_iff = period_key_beq_iff }
