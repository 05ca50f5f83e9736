-- ===== src/Api/RateLimit/Tests.antt =====
-- Runs of rate-limit.middleware.ts and instances of its theorems.
use swyft.Prelude.{◌-◌, ◌≤◌, ◌≡◌, refl, true, false, String, none, some, List, [], ◌∷◌}
use swyft.Prelude.Equality.{triple_eq}
use swyft.Prelude.Table.{find, upsert}
use swyft.Api.Indexer.Database.{parse_int}
use swyft.Api.RateLimit.{
  Request, Env, Counters, count, rules_for, endpoint_rule_for, env_int, route_bucket_for,
  unversioned_path, identity_for, use_middleware, hit, hit_all, effective_hit,
  handle_redis_unavailable,
}
use swyft.Api.RateLimit.Budget.{Attempt, Key, passed, passed-le-limit}

abbrev defaults : Env
defaults variable = ""

abbrev untrimmed : String → String
untrimmed text = text

abbrev nonce_request : Request
nonce_request = record {
  method = "POST";
  path = "v1" ∷ "auth" ∷ "nonce" ∷ [];
  internal = none;
  forwarded = none;
  address = some "1.2.3.4";
}

abbrev nonce_key : Key
nonce_key = (("auth-nonce", "1.2.3.4"), "auth-nonce")

abbrev no_counters : Counters
no_counters = []

abbrev tries : List Attempt
tries =
    (nonce_request, true, 60)
    ∷ (nonce_request, true, 60)
    ∷ (nonce_request, false, 60)
    ∷ (nonce_request, true, 60)
    ∷ []

passed_run : passed defaults untrimmed true nonce_key 5 tries no_counters ≡ 3
unfolding use_middleware rules_for endpoint_rule_for route_bucket_for identity_for unversioned_path
    env_int parse_int hit_all hit effective_hit upsert find handle_redis_unavailable
passed_run = refl

passed-le-limit_example :
    passed defaults untrimmed true nonce_key 5 tries no_counters
    ≤ 5 - count (find nonce_key no_counters)
passed-le-limit_example = passed-le-limit defaults untrimmed true nonce_key 5 tries no_counters
