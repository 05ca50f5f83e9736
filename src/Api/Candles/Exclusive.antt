-- ===== src/Api/Candles/Exclusive.antt =====
-- `runExclusive` of candles.service.ts among other requests. A request runs its period between
-- `enter` and `leave`; the model keeps the keys of the running ones next to the set `inFlight`.
use swyft.Prelude.{
  ◌≡◌, refl, subst, Option, none, some, List, [], ◌∷◌, inl, inr, Bool-cases, if◌then◌else◌,
}
use swyft.Prelude.Counted.{has_key, count_key, drop_key}
use swyft.Prelude.Flights.{Flights, Single, put_on, put_on-Single, taken_off-Single}
use swyft.Api.Candles.Keys.{PeriodKey, period_key_eq}
use swyft.Api.Candles.Service.{enter, leave}

abbrev pub Requests : Type 0
Requests = Flights PeriodKey

-- A request for a key arrives; a running one of a key returns or throws.
pub data RequestEvent : Type 0 where
  begins settles : PeriodKey → RequestEvent

abbrev pub begun : PeriodKey → Requests → Option (List PeriodKey) → Requests
begun key r none = r
begun key r (some in_flight) = record { in_flight = in_flight; running = key ∷ r.running }

-- Only a running request settles.
unfoldable pub on_event : Requests → RequestEvent → Requests
on_event r (begins key) = begun key r (enter key r.in_flight)
on_event r (settles key) =
    if has_key key r.running
    then record { in_flight = leave key r.in_flight; running = drop_key key r.running }
    else r

unfoldable pub run_events : Requests → List RequestEvent → Requests
run_events r [] = r
run_events r (e ∷ events) = run_events (on_event r e) events

abbrev pub no_requests : Requests
no_requests = record { in_flight = []; running = [] }

begun_lem : (key : PeriodKey) (r : Requests) → put_on key r ≡ begun key r (enter key r.in_flight)
unfolding enter
begun_lem key r = elim (Bool-cases (has_key key r.in_flight)) [
  | inl busy ↦ rw busy refl
  | inr free ↦ rw free refl
]

on_event-Single : (r : Requests) (e : RequestEvent) → Single r → Single (on_event r e)
unfolding on_event leave
on_event-Single r (begins k) h = subst Single (begun_lem k r) (put_on-Single r k h)
on_event-Single r (settles k) h = taken_off-Single r k h

from : (r : Requests) (events : List RequestEvent) → Single r → Single (run_events r events)
unfolding run_events
from r [] h = h
from r (e ∷ events) h = from (on_event r e) events (on_event-Single r e h)

-- After any sequence of requests that begin and settle, a period is run by one request at a time:
-- its key is counted once among the running requests if it is in the set `inFlight`, and not at all
-- otherwise, so no key stays in the set once its request has returned or thrown.
run_events-running :
    (events : List RequestEvent) (key : PeriodKey)
    → count_key key (run_events no_requests events).running
      ≡ (if has_key key (run_events no_requests events).in_flight then 1 else 0)
run_events-running events key = from no_requests events (λ k. unfold count_key in refl) key
