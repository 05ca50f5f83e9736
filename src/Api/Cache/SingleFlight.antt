-- ===== src/Api/Cache/SingleFlight.antt =====
-- Stampede protection in cache.service.ts: the fetches of a key among any other requests.
use swyft.Prelude.{
  ◌≡◌, refl, sym, ap, ◌∙◌, true, false, String, List, [], ◌∷◌, All, arith, if◌then◌else◌, inl, inr,
  Bool-cases,
}
use swyft.Prelude.Equality.{◌===◌, string_eq, ===_refl}
use swyft.Prelude.Counted.{has_key, count_key, drop_key, has_key-delete_key}
use swyft.Prelude.Flights.{Flights, Single, put_on-Single, taken_off-Single}
use swyft.Api.Cache.{FetchStart, pending, throws_at_once, on_miss, on_settled}

pub data CacheEvent : Type 0 where
  misses : String → FetchStart → CacheEvent
  settles : String → CacheEvent

unfoldable pub on_cache_event : Flights String → CacheEvent → Flights String
on_cache_event f (misses key start) = on_miss key start f
on_cache_event f (settles key) = on_settled key f

unfoldable pub run_cache_events : Flights String → List CacheEvent → Flights String
run_cache_events f [] = f
run_cache_events f (e ∷ events) = run_cache_events (on_cache_event f e) events

-- Every fetcher returns a promise.
abbrev pub IsAsync : CacheEvent → Type 0
IsAsync (misses key pending) = Unit
IsAsync (misses key throws_at_once) = ⊥
IsAsync (settles key) = Unit

abbrev pub no_flights : Flights String
no_flights = record { in_flight = []; running = [] }

on_cache_event-Single :
    (f : Flights String) (e : CacheEvent) → IsAsync e → Single f → Single (on_cache_event f e)
unfolding on_cache_event on_miss on_settled
on_cache_event-Single f (misses key pending) a h = put_on-Single f key h
on_cache_event-Single f (misses key throws_at_once) a h = absurd a
on_cache_event-Single f (settles key) a h = taken_off-Single f key h

run_cache_events-Single :
    (f : Flights String) (events : List CacheEvent)
    → All IsAsync events
    → Single f
    → Single (run_cache_events f events)
unfolding run_cache_events
run_cache_events-Single f [] a h = h
run_cache_events-Single f (e ∷ events) (a, all) h =
    run_cache_events-Single (on_cache_event f e) events all (on_cache_event-Single f e a h)

-- With fetchers that return promises, after any misses and settled fetches: one fetch of a key runs if
-- the key is in the map of fetches in flight, and none otherwise.
run_cache_events-running :
    (events : List CacheEvent) (key : String)
    → All IsAsync events
    → count_key key (run_cache_events no_flights events).running
      ≡ (if has_key key (run_cache_events no_flights events).in_flight then 1 else 0)
run_cache_events-running events key all =
    run_cache_events-Single no_flights events all (λ k. unfold count_key in refl) key

-- A key that is in the map although nothing fetches it.
abbrev IsStuck : String → Flights String → Type 0
IsStuck key f = (has_key key f.in_flight ≡ true) × (has_key key f.running ≡ false)

apart :
    (k key : String) (keys : List String)
    → has_key k keys ≡ false
    → has_key key keys ≡ true
    → (k === key) ≡ false
apart k key keys without within = elim (Bool-cases (k === key)) [
  | inl same ↦
      let bad : has_key key keys ≡ false =
        ap (λ (j : String). has_key j keys) (sym ((string_eq.same_iff k key).0 same)) ∙ without in
      cc
  | inr other ↦ other
]

has_key-drop_key :
    (k key : String) (keys : List String)
    → has_key key keys ≡ false
    → has_key key (drop_key k keys) ≡ false
unfolding drop_key
has_key-drop_key k key [] h = h
has_key-drop_key k key (j ∷ keys) h =
    let ih : has_key key keys ≡ false → has_key key (drop_key k keys) ≡ false =
      has_key-drop_key k key keys in
    ground (arith, ih)

on_miss-IsStuck :
    (key k : String) (start : FetchStart) (f : Flights String)
    → IsStuck key f
    → IsStuck key (on_miss k start f)
unfolding on_miss
on_miss-IsStuck key k pending f (stays, idle) = elim (Bool-cases (has_key k f.in_flight)) [
  | inl busy ↦ rw busy (stays, idle)
  | inr free ↦ rw (free, apart k key f.in_flight free stays) (stays, idle)
]
on_miss-IsStuck key k throws_at_once f (stays, idle) = elim (Bool-cases (has_key k f.in_flight)) [
  | inl busy ↦ rw busy (stays, idle)
  | inr free ↦
      let other = apart k key f.in_flight free stays in
      rw (free, other) (has_key-delete_key key k f.in_flight ∙ rw other stays, idle)
]

on_settled-IsStuck :
    (key k : String) (f : Flights String) → IsStuck key f → IsStuck key (on_settled k f)
unfolding on_settled
on_settled-IsStuck key k f (stays, idle) = elim (Bool-cases (has_key k f.running)) [
  | inl runs ↦
      let other : (k === key) ≡ false = elim (Bool-cases (k === key)) [
        | inl same ↦
            let bad : has_key k f.running ≡ false =
              ap (λ (j : String). has_key j f.running) ((string_eq.same_iff k key).0 same) ∙ idle in
            cc
        | inr e ↦ e
      ] in
      rw runs (
        has_key-delete_key key k f.in_flight ∙ rw other stays,
        has_key-drop_key k key f.running idle,
      )
  | inr off ↦ rw off (stays, idle)
]

on_cache_event-IsStuck :
    (key : String) (f : Flights String) (e : CacheEvent)
    → IsStuck key f
    → IsStuck key (on_cache_event f e)
unfolding on_cache_event
on_cache_event-IsStuck key f (misses k start) stuck = on_miss-IsStuck key k start f stuck
on_cache_event-IsStuck key f (settles k) stuck = on_settled-IsStuck key k f stuck

stays-IsStuck :
    (key : String) (f : Flights String) (events : List CacheEvent)
    → IsStuck key f
    → IsStuck key (run_cache_events f events)
unfolding run_cache_events
stays-IsStuck key f [] stuck = stuck
stays-IsStuck key f (e ∷ events) stuck =
    stays-IsStuck key (on_cache_event f e) events (on_cache_event-IsStuck key f e stuck)

-- A fetcher that throws before it returns a promise, for a key that nothing fetches: whatever happens
-- afterwards, the key stays in the map of fetches in flight and no fetch of it runs.
pub run_cache_events-throws_at_once :
    (key : String) (f : Flights String) (events : List CacheEvent)
    → has_key key f.in_flight ≡ false
    → has_key key f.running ≡ false
    → (has_key key (run_cache_events f (misses key throws_at_once ∷ events)).in_flight ≡ true)
      × (has_key key (run_cache_events f (misses key throws_at_once ∷ events)).running ≡ false)
unfolding run_cache_events on_cache_event on_miss
run_cache_events-throws_at_once key f events free idle =
    let first : IsStuck key (on_miss key throws_at_once f) = rw (free, ===_refl key) (refl, idle) in
    stays-IsStuck key (on_miss key throws_at_once f) events first
