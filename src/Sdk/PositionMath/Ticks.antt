-- ===== src/Sdk/PositionMath/Ticks.antt =====
-- Ticks and their prices: bounds, order and the round trip.
use swyft.Prelude.{
  ℕ, suc, ◌-◌, ◌*◌, ◌/◌, ◌%◌, ◌||◌, ◌≡◌, true, err, ok, ◌>>=◌, arith, leb, ◌==◌, if◌then◌else◌,
}
use swyft.Prelude.BigInt.{ℤ, pos, negsuc, neg, ltb_ℤ, leb_ℤ}
use swyft.Sdk.PositionMath.{
  q96, min_tick, max_tick, sqrt_price_of_tick, tick_to_sqrt_price_x96, sqrt_price_x96_to_tick,
  tick_out_of_bounds,
}

-- The distance from tick 0 that survives the scaling to a price and back.
abbrev pub rounded : ℕ → ℕ
rounded t = if t % 625 == 0 then t else t - 1

-- The tick that is read back from the price of a tick.
abbrev pub recovered : ℤ → ℤ
recovered (pos t) = pos (rounded t)
recovered (negsuc n) = if leb 20000 (suc n) then negsuc 19998 else neg (rounded (suc n))

scale_back : (t : ℕ) → t * q96 / 20000 * 20000 / q96 ≡ rounded t
scale_back t = ground arith

of_price : (tick : ℤ) → sqrt_price_x96_to_tick (sqrt_price_of_tick tick) ≡ ok (recovered tick)
unfolding sqrt_price_of_tick sqrt_price_x96_to_tick
of_price (pos t) = ground (arith, scale_back t)
of_price (negsuc n) = ground (arith, scale_back (suc n))

-- A tick turned into a price and read back: out of bounds it is refused; from -19999 up it comes
-- back unchanged if it is a multiple of 625, and one step nearer to 0 if not; every tick from
-- -20000 down comes back as -19999.
pub tick_round_trip :
    (tick : ℤ)
    → (tick_to_sqrt_price_x96 tick >>= sqrt_price_x96_to_tick) ≡ (
        if ltb_ℤ tick min_tick || ltb_ℤ max_tick tick
        then err tick_out_of_bounds
        else ok (recovered tick))
unfolding tick_to_sqrt_price_x96
tick_round_trip tick = ground (arith, of_price tick)

-- Prices order as their ticks do, and strictly so unless both ticks are -20000 or less.
pub sqrt_price_of_tick_mono :
    (s t : ℤ)
    → ltb_ℤ s t ≡ true
    → (leb_ℤ (sqrt_price_of_tick s) (sqrt_price_of_tick t) ≡ true)
      × (ltb_ℤ (sqrt_price_of_tick s) (sqrt_price_of_tick t) ≡ ltb_ℤ (negsuc 19999) t)
unfolding sqrt_price_of_tick
sqrt_price_of_tick_mono (pos a) (pos b) h = (ground arith, ground arith)
sqrt_price_of_tick_mono (pos a) (negsuc b) h = cc
sqrt_price_of_tick_mono (negsuc a) (pos b) h = (ground arith, ground arith)
sqrt_price_of_tick_mono (negsuc a) (negsuc b) h = (ground arith, ground arith)
