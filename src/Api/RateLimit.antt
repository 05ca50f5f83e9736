-- ===== src/Api/RateLimit.antt =====
-- apps/api/src/rate-limit/rate-limit.middleware.ts. A path is the list of the parts between its
-- slashes, so "/auth/nonce" is "auth" and "nonce". `ttl` is what Redis says of the time that a key has
-- left. The calls of one request succeed or fail together, and no other request runs between them.
mod Budget
mod Tests
use swyft.Prelude.{
  ℕ, zero, suc, ◌+◌, ◌-◌, Bool, true, false, not, ◌&&◌, ◌||◌, String, Option, none, some, List, [],
  ◌∷◌, map, leb, ltb, ◌==◌, if◌then◌else◌, all, any,
}
use swyft.Prelude.BigInt.{pos}
use swyft.Prelude.Number.{codes}
use swyft.Prelude.Equality.{◌===◌, string_eq, triple_eq}
use swyft.Prelude.Table.{Table, find, upsert}
use swyft.Api.KeyRing.{KeySlot, current_slot, previous_slot}
use swyft.Api.Indexer.Database.{parse_int}

pub record RateLimitRule : Type 0 where
  pub name : String
  pub limit : ℕ
  pub window_seconds : ℕ

pub record RateLimitHit : Type 0 where
  pub rule : RateLimitRule
  pub remaining : ℕ
  pub reset_seconds : ℕ
  pub exceeded : Bool

-- `internal` is the slot that the header x-internal-key matched; `forwarded` the header
-- x-forwarded-for; `address` is `req.ip`, or the address of the socket.
pub record Request : Type 0 where
  pub method : String
  pub path : List String
  pub internal : Option KeySlot
  pub forwarded : Option String
  pub address : Option String

abbrev pub is_digit : ℕ → Bool
is_digit c = leb b'0' c && leb c b'9'

-- v and one digit or more
abbrev pub is_version_code : List ℕ → Bool
is_version_code (c ∷ d ∷ ds) = c == b'v' && is_digit d && all is_digit ds
is_version_code _ = false

-- `unversionedPath`; nothing left is "/", whose only part is empty.
unfoldable pub unversioned_path : List String → List String
unversioned_path [] = "" ∷ []
unversioned_path (part ∷ []) = if is_version_code (codes part) then "" ∷ [] else part ∷ []
unversioned_path (part ∷ next ∷ rest) =
    if is_version_code (codes part) then next ∷ rest else part ∷ next ∷ rest

abbrev pub is_prefix : List ℕ → List ℕ → Bool
is_prefix [] t = true
is_prefix (c ∷ cs) [] = false
is_prefix (c ∷ cs) (d ∷ ds) = c == d && is_prefix cs ds

abbrev pub starts_with : String → List String → Bool
starts_with prefix [] = false
starts_with prefix (part ∷ rest) = is_prefix (codes prefix) (codes part)

-- The end of a path that may have a slash behind it.
abbrev pub at_end : List String → Bool
at_end [] = true
at_end (part ∷ []) = part === ""
at_end _ = false

abbrev pub filled : String → Bool
filled part = not (part === "")

abbrev pub is_candles : List String → Bool
is_candles (a ∷ b ∷ c ∷ d ∷ rest) =
    a === "prices" && filled b && filled c && d === "candles" && at_end rest
is_candles _ = false

abbrev pub is_ticks : List String → Bool
is_ticks (a ∷ b ∷ c ∷ rest) = a === "pools" && filled b && c === "ticks" && at_end rest
is_ticks _ = false

abbrev pub is_nonce_path : List String → Bool
is_nonce_path (a ∷ b ∷ []) = a === "auth" && b === "nonce"
is_nonce_path _ = false

abbrev pub is_transactions : List String → Bool
is_transactions (a ∷ []) = a === "transactions"
is_transactions _ = false

-- The variables of the environment, a missing one as the empty text.
abbrev pub Env : Type 0
Env = String → String

unfoldable pub env_int : Env → String → ℕ → ℕ
env_int env name fallback = elim (parse_int (env name)) [
  | none ↦ fallback
  | some n ↦ elim n [ pos k ↦ if k == 0 then fallback else k | _ ↦ fallback ]
]

abbrev pub rule_of : Env → Bool → String → String → ℕ → String → String → ℕ → RateLimitRule
rule_of env internal name variable fallback internal_name internal_variable internal_fallback =
    record {
      name = if internal then internal_name else name;
      limit =
          if internal
          then env_int env internal_variable internal_fallback
          else env_int env variable fallback;
      window_seconds = 60;
    }

unfoldable pub endpoint_rule_for : Env → Request → Bool → Option RateLimitRule
endpoint_rule_for env req internal =
    let path = unversioned_path req.path in
    if is_candles path
    then some (
        rule_of env internal "candles" "CANDLE_RATE_LIMIT_PER_MINUTE" 60 "internal-candles"
          "INTERNAL_CANDLE_RATE_LIMIT_PER_MINUTE" 240)
    else if req.method === "POST" && is_nonce_path path
    then some (
        rule_of env internal "auth-nonce" "NONCE_RATE_LIMIT_PER_MINUTE" 5 "internal-auth-nonce"
          "INTERNAL_NONCE_RATE_LIMIT_PER_MINUTE" 30)
    else if starts_with "auth" path
    then some (
        rule_of env internal "auth" "AUTH_RATE_LIMIT_PER_MINUTE" 10 "internal-auth"
          "INTERNAL_AUTH_RATE_LIMIT_PER_MINUTE" 60)
    else if is_transactions path && req.method === "POST"
    then some (
        rule_of env internal "transactions" "TRANSACTION_RATE_LIMIT_PER_MINUTE" 20
          "internal-transactions" "INTERNAL_TRANSACTION_RATE_LIMIT_PER_MINUTE" 120)
    else if is_ticks path
    then some (
        rule_of env internal "ticks" "TICKS_RATE_LIMIT_PER_MINUTE" 30 "internal-ticks"
          "INTERNAL_TICKS_RATE_LIMIT_PER_MINUTE" 120)
    else none

abbrev pub is_internal : Request → Bool
is_internal req = elim req.internal [ none ↦ false | some _ ↦ true ]

abbrev pub global_rule : Env → Bool → RateLimitRule
global_rule env internal =
    rule_of env internal "global" "RATE_LIMIT_PER_MINUTE" 300 "internal-global"
      "INTERNAL_RATE_LIMIT_PER_MINUTE" 1200

abbrev pub rules_with : RateLimitRule → Option RateLimitRule → List RateLimitRule
rules_with global none = global ∷ []
rules_with global (some endpoint) = global ∷ endpoint ∷ []

unfoldable pub rules_for : Env → Request → List RateLimitRule
rules_for env req =
    rules_with (global_rule env (is_internal req)) (endpoint_rule_for env req (is_internal req))

unfoldable pub route_bucket_for : Request → String
route_bucket_for req =
    let path = unversioned_path req.path in
    if is_candles path
    then "prices-candles"
    else if req.method === "POST" && is_nonce_path path
    then "auth-nonce"
    else if starts_with "auth" path
    then "auth"
    else if is_transactions path
    then "transactions"
    else if is_ticks path
    then "pools-ticks"
    else "global"

abbrev pub slot_identity : KeySlot → String
slot_identity current_slot = "internal:current"
slot_identity previous_slot = "internal:previous"

abbrev pub address_or_unknown : Option String → String
address_or_unknown none = "unknown"
address_or_unknown (some address) = address

abbrev pub forwarded_or : (String → String) → String → Option String → String
forwarded_or first_trimmed other none = other
forwarded_or first_trimmed other (some text) = if text === "" then other else first_trimmed text

-- `first_trimmed text` is `text.split(',')[0].trim()`.
unfoldable pub identity_for : (String → String) → Request → String
identity_for first_trimmed req = elim req.internal [
  | some slot ↦ slot_identity slot
  | none ↦ forwarded_or first_trimmed (address_or_unknown req.address) req.forwarded
]

-- The rule, the identity and the bucket of a counter.
abbrev pub Counters : Type 0
Counters = Table ((String × String) × String) ℕ

abbrev pub key_for : RateLimitRule → String → String → (String × String) × String
key_for rule identity bucket = ((rule.name, identity), bucket)

abbrev pub count : Option ℕ → ℕ
count none = 0
count (some n) = n

-- The answer of `hit` for the counter after INCR.
abbrev pub hit_of : RateLimitRule → ℕ → ℕ → RateLimitHit
hit_of rule total ttl = record {
  rule = rule;
  remaining = rule.limit - total;
  reset_seconds = if ltb 0 ttl then ttl else rule.window_seconds;
  exceeded = ltb rule.limit total;
}

unfoldable pub hit : RateLimitRule → String → String → ℕ → Counters → Counters × RateLimitHit
hit rule identity bucket ttl counters = (
  upsert (key_for rule identity bucket) suc 1 counters,
  hit_of rule (suc (count (find (key_for rule identity bucket) counters))) ttl,
)

abbrev pub then_hit : RateLimitHit → Counters × List RateLimitHit → Counters × List RateLimitHit
then_hit h (counters, hits) = (counters, h ∷ hits)

unfoldable pub hit_all :
    List RateLimitRule → String → String → ℕ → Counters → Counters × List RateLimitHit
hit_all [] identity bucket ttl counters = (counters, [])
hit_all (rule ∷ rules) identity bucket ttl counters =
    then_hit (hit rule identity bucket ttl counters).1
      (hit_all rules identity bucket ttl (hit rule identity bucket ttl counters).0)

abbrev pub lowest : RateLimitHit → List RateLimitHit → RateLimitHit
lowest best [] = best
lowest best (h ∷ hs) = lowest (if ltb h.remaining best.remaining then h else best) hs

abbrev pub first_exceeded : List RateLimitHit → Option RateLimitHit
first_exceeded [] = none
first_exceeded (h ∷ hs) = if h.exceeded then some h else first_exceeded hs

abbrev pub chosen : RateLimitHit → List RateLimitHit → Option RateLimitHit → RateLimitHit
chosen first others none = lowest first others
chosen first others (some h) = h

-- There is always the hit of the global rule; `first` is the head of the list.
unfoldable pub effective_hit : RateLimitHit → List RateLimitHit → RateLimitHit
effective_hit first others = chosen first others (first_exceeded (first ∷ others))

-- What becomes of a request: passed on without or with headers, 429, or 503.
pub data Answer : Type 0 where
  bypassed unavailable : Answer
  allowed degraded limited : RateLimitHit → Answer

abbrev pub public_rule : RateLimitRule → Option RateLimitRule → RateLimitRule
public_rule global none = global
public_rule global (some rule) = rule

unfoldable pub handle_redis_unavailable : Env → Bool → Request → Answer
handle_redis_unavailable env production req =
    if production
    then unavailable
    else degraded (record {
      rule = public_rule (global_rule env false) (endpoint_rule_for env req false);
      remaining = 0;
      reset_seconds = 0;
      exceeded = false;
    })

abbrev pub judged_by : RateLimitHit → Answer
judged_by effective = if effective.exceeded then limited effective else allowed effective

abbrev pub judged : List RateLimitHit → Answer
judged [] = bypassed
judged (first ∷ others) = judged_by (effective_hit first others)

abbrev pub is_exempt : List String → Bool
is_exempt (part ∷ []) = part === "health" || starts_with "metrics" (part ∷ [])
is_exempt path = starts_with "metrics" path

-- The middleware. `up` says whether Redis answers.
unfoldable pub use_middleware :
    Env → (String → String) → Bool → Bool → ℕ → Request → Counters → Counters × Answer
use_middleware env first_trimmed production up ttl req counters =
    if is_exempt req.path
    then (counters, bypassed)
    else if up
    then (let done =
          hit_all (rules_for env req) (identity_for first_trimmed req) (route_bucket_for req) ttl
            counters in
        (done.0, judged done.1))
    else (counters, handle_redis_unavailable env production req)
