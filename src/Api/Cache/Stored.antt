-- ===== src/Api/Cache/Stored.antt =====
-- A second read of cache.service.ts finds what the first one fetched.
use swyft.Prelude.{◌≡◌, refl, ap, ◌∙◌, Bool, true, false, String, Option, none, some, ok}
use swyft.Prelude.Equality.{string_eq, ===_refl}
use swyft.Prelude.Table.{Table, find, upsert, find-upsert, changed_const}
use swyft.Api.Cache.{Json, CacheService, get, set, get_or_fetch, read_through, parsed}

abbrev pub connected : Table String String → CacheService
connected t = record { available = true; entries = t }

module _ {V : Type 0} (json : Json V) (key : String) (t : Table String String) where
  get-set :
      (v : V)
      → json.parse (json.stringify v) ≡ some v
      → json.is_null v ≡ false
      → get json true key (set json true key v (connected t)) ≡ some v
  unfolding get set
  get-set v round some_value =
      let raw = json.stringify v in
      let there : find key (upsert key (λ _. raw) raw t) ≡ some raw =
        find-upsert key key (λ _. raw) raw t
        ∙ rw (===_refl key) (ap some (changed_const raw (find key t))) in
      ap (parsed json) there ∙ rw (round, some_value) refl

  first_read :
      (fail_closed : Bool) (v : V)
      → get json true key (connected t) ≡ none
      → (get_or_fetch json true fail_closed key (some v) (connected t)).0
        ≡ set json true key v (connected t)
  unfolding get_or_fetch
  first_read true v missed =
      ap (λ (o : Option V). (read_through json true true key (some v) (connected t) o).0) missed
  first_read false v missed =
      ap (λ (o : Option V). (read_through json true false key (some v) (connected t) o).0) missed

  second_read :
      (fail_closed : Bool) (v : V) (fetch : Option V)
      → get json true key (set json true key v (connected t)) ≡ some v
      → get_or_fetch json true fail_closed key fetch (set json true key v (connected t))
        ≡ (set json true key v (connected t), ok v)
  unfolding get_or_fetch set
  second_read true v fetch found =
      ap (read_through json true true key fetch (set json true key v (connected t))) found
  second_read false v fetch found =
      ap (read_through json true false key fetch (set json true key v (connected t))) found

  -- With Redis there, and for a value that JSON gives back and that is not null: once a read has
  -- fetched it after a miss, the next one returns it whatever its own fetcher would do, and changes
  -- nothing.
  pub get_or_fetch_again :
      (fail_closed strict_again : Bool) (v : V) (fetch : Option V)
      → json.parse (json.stringify v) ≡ some v
      → json.is_null v ≡ false
      → get json true key (connected t) ≡ none
      → get_or_fetch json true strict_again key fetch
          (get_or_fetch json true fail_closed key (some v) (connected t)).0
        ≡ ((get_or_fetch json true fail_closed key (some v) (connected t)).0, ok v)
  get_or_fetch_again fail_closed strict_again v fetch round some_value missed =
      rw (first_read fail_closed v missed)
        (second_read strict_again v fetch (get-set v round some_value))
