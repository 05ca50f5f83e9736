-- ===== src/Api/Cache.antt =====
-- apps/api/src/cache/cache.service.ts: reads through Redis with one fetch at a time for a key, and
-- the fixed-window limit. JSON is a parameter; `up` says whether a call of Redis succeeds. The ends
-- of TTLs are events: their values are left out, and so are pub/sub and the connection.
pub mod SingleFlight
pub mod Limits
mod Stored
mod Tests
use swyft.Prelude.{
  ℕ, zero, suc, ◌+◌, ◌-◌, Bool, true, false, not, ◌&&◌, String, Option, none, some, List, [], ◌∷◌,
  Result, err, ok, leb, max, if◌then◌else◌,
}
use swyft.Prelude.Equality.{◌===◌, string_eq}
use swyft.Prelude.Table.{Table, find, upsert, remove}
use swyft.Prelude.Counted.{has_key, delete_key}
use swyft.Prelude.Flights.{Flights, put_on, taken_off}

pub data CacheErrorCode : Type 0 where
  dependency_unavailable fetch_failed upstream_error : CacheErrorCode

-- JSON.parse, JSON.stringify, and whether a value is null.
pub record Json (V : Type 0) : Type 0 where
  pub parse : String → Option V
  pub stringify : V → String
  pub is_null : V → Bool

pub record CacheService : Type 0 where
  pub available : Bool
  pub entries : Table String String

module _ {V : Type 0} (json : Json V) where
  abbrev pub non_null : Option V → Option V
  non_null none = none
  non_null (some v) = if json.is_null v then none else some v

  abbrev pub parsed : Option String → Option V
  parsed none = none
  parsed (some raw) = non_null (json.parse raw)

  -- A value that is null counts as missing, as it does for the callers.
  unfoldable pub get : Bool → String → CacheService → Option V
  get up key c = if c.available && up then parsed (find key c.entries) else none

  unfoldable pub set : Bool → String → V → CacheService → CacheService
  set up key value c =
      if c.available && up
      then record c {
        entries = upsert key (λ _. json.stringify value) (json.stringify value) c.entries;
      }
      else c

  -- What the fetcher returned, `none` where it threw.
  abbrev pub fetched :
      Bool → Bool → String → Option V → CacheService → CacheService × Result CacheErrorCode V
  fetched up fail_closed key (some value) c = (set up key value c, ok value)
  fetched up fail_closed key none c =
      (c, err (if fail_closed then fetch_failed else upstream_error))

  abbrev pub read_through :
      Bool
      → Bool
      → String
      → Option V
      → CacheService
      → Option V
      → CacheService × Result CacheErrorCode V
  read_through up fail_closed key fetch c (some value) = (c, ok value)
  read_through up fail_closed key fetch c none = fetched up fail_closed key fetch c

  -- With no other request in between.
  unfoldable pub get_or_fetch :
      Bool → Bool → String → Option V → CacheService → CacheService × Result CacheErrorCode V
  get_or_fetch up fail_closed key fetch c =
      if fail_closed && not c.available
      then (c, err dependency_unavailable)
      else read_through up fail_closed key fetch c (get up key c)

unfoldable pub del : Bool → String → CacheService → CacheService
del up key c = if c.available && up then record c { entries = remove key c.entries } else c

-- How a fetcher behaves when it is called: it returns a promise, or it throws at once.
pub data FetchStart : Type 0 where
  pending throws_at_once : FetchStart

-- `getOrFetch` after a miss. A fetcher that throws at once has run its `finally` before the promise is
-- put into the map.
unfoldable pub on_miss : String → FetchStart → Flights String → Flights String
on_miss key pending f = put_on key f
on_miss key throws_at_once f =
    if has_key key f.in_flight
    then f
    else record { in_flight = key ∷ delete_key key f.in_flight; running = f.running }

-- A fetch returns or throws.
unfoldable pub on_settled : String → Flights String → Flights String
on_settled key f = taken_off key f

pub record RateLimitResult : Type 0 where
  pub allowed : Bool
  pub remaining : ℕ
  pub retry_after_seconds : ℕ

pub data RateLimitErrorCode : Type 0 where
  limit_store_unavailable : RateLimitErrorCode

abbrev pub one_more : Option ℕ → ℕ
one_more none = 1
one_more (some n) = suc n

abbrev pub limit_answer : ℕ → ℕ → ℕ → RateLimitResult
limit_answer limit ttl count =
    if leb count limit
    then record { allowed = true; remaining = limit - count; retry_after_seconds = 0 }
    else record { allowed = false; remaining = 0; retry_after_seconds = max 1 ttl }

-- `ttl` is the answer of Redis for the key, once it is set; `up` whether the script runs.
unfoldable pub check_rate_limit :
    Bool
    → Bool
    → Bool
    → ℕ
    → ℕ
    → String
    → Table String ℕ
    → Table String ℕ × Result RateLimitErrorCode RateLimitResult
check_rate_limit available up fail_closed limit ttl key counters =
    if available && up
    then (upsert key suc 1 counters, ok (limit_answer limit ttl (one_more (find key counters))))
    else if fail_closed
    then (counters, err limit_store_unavailable)
    else (counters, ok (record { allowed = true; remaining = 0; retry_after_seconds = 0 }))
