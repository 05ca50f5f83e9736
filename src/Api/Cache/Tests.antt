-- ===== src/Api/Cache/Tests.antt =====
-- Runs of cache.service.ts and instances of its theorems, with texts for values.
use swyft.Prelude.{◌-◌, min, ◌≡◌, refl, true, false, String, none, some, [], ◌∷◌, ok, err}
use swyft.Prelude.Equality.{◌===◌, string_eq}
use swyft.Prelude.Table.{find}
use swyft.Prelude.Counted.{has_key}
use swyft.Api.Cache.{Json, get, get_or_fetch, pending, throws_at_once, dependency_unavailable}
use swyft.Api.Cache.Stored.{connected, get_or_fetch_again}
use swyft.Api.Cache.SingleFlight.{
  misses, no_flights, run_cache_events, run_cache_events-throws_at_once,
}
use swyft.Api.Cache.Limits.{count_allowed, spent, count_allowed-eq}

abbrev texts : Json String
texts = record { parse = some; stringify = λ v. v; is_null = λ v. v === "null" }

closed_run :
    get_or_fetch texts true true "k" (some "v") (record { available = false; entries = [] })
    ≡ (record { available = false; entries = [] }, err dependency_unavailable)
unfolding get_or_fetch
closed_run = refl

get_or_fetch_again_example :
    get_or_fetch texts true false "k" none
      (get_or_fetch texts true false "k" (some "v") (connected [])).0
    ≡ ((get_or_fetch texts true false "k" (some "v") (connected [])).0, ok "v")
unfolding get find
get_or_fetch_again_example = get_or_fetch_again texts "k" [] false false "v" none refl refl refl

run_cache_events-throws_at_once_example :
    (has_key "k"
        (run_cache_events no_flights
          (misses "k" throws_at_once ∷ misses "k" pending ∷ [])).in_flight
      ≡ true)
    × (has_key "k"
          (run_cache_events no_flights
            (misses "k" throws_at_once ∷ misses "k" pending ∷ [])).running
        ≡ false)
run_cache_events-throws_at_once_example =
    run_cache_events-throws_at_once "k" no_flights (misses "k" pending ∷ []) refl refl

count_allowed-eq_example : count_allowed true 3 60 "k" 5 [] ≡ min 5 (3 - spent none)
unfolding find
count_allowed-eq_example = count_allowed-eq true 3 60 "k" 5 []
