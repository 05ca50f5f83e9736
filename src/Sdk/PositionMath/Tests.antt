-- ===== src/Sdk/PositionMath/Tests.antt =====
-- Runs of position-math.ts and instances of its theorems.
use swyft.Prelude.{◌≡◌, ok, ◌>>=◌}
use swyft.Prelude.BigInt.{negsuc}
use swyft.Sdk.PositionMath.{tick_to_sqrt_price_x96, sqrt_price_x96_to_tick}
use swyft.Sdk.PositionMath.Ticks.{tick_round_trip}

tick_round_trip_example :
    (tick_to_sqrt_price_x96 (negsuc 999) >>= sqrt_price_x96_to_tick) ≡ ok (negsuc 998)
tick_round_trip_example = tick_round_trip (negsuc 999)
