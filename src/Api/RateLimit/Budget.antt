-- ===== src/Api/RateLimit/Budget.antt =====
-- How many requests one caller gets through, and whose counters a request touches.
use swyft.Prelude.{
  ℕ, suc, ◌+◌, ◌-◌, ◌≤◌, ◌≡◌, refl, Bool, true, false, ◌&&◌, ◌||◌, String, Option, none, some, List,
  [], ◌∷◌, any, ◌==◌, if◌then◌else◌, Bool-cases, inl, inr, arith, ap, ◌∙◌,
}
use swyft.Prelude.Equality.{◌===◌, string_eq, triple_eq}
use swyft.Prelude.Table.{find, upsert, find-upsert, changed}
use swyft.Api.RateLimit.{
  RateLimitRule, RateLimitHit, Request, Env, rules_for, route_bucket_for, identity_for, Counters,
  key_for, count, hit, hit_all, first_exceeded, effective_hit, chosen, judged_by, Answer, allowed,
  judged, use_middleware, is_exempt, handle_redis_unavailable,
}

abbrev pub Key : Type 0
Key = (String × String) × String

-- Whether one of the rules counts at this key with this limit.
abbrev pub counts_at : Key → ℕ → List RateLimitRule → String → String → Bool
counts_at k limit rules identity bucket =
    any (λ rule. key_for rule identity bucket === k && rule.limit == limit) rules

count-changed : (o : Option ℕ) → count (some (changed suc 1 o)) ≡ suc (count o)
count-changed none = refl
count-changed (some n) = refl

count-hit :
    (k : Key) (rule : RateLimitRule) (identity bucket : String) (ttl : ℕ) (counters : Counters)
    → count (find k (hit rule identity bucket ttl counters).0) ≡ (
        if key_for rule identity bucket === k
        then suc (count (find k counters))
        else count (find k counters))
unfolding hit
count-hit k rule identity bucket ttl counters =
    let key = key_for rule identity bucket in
    elim (Bool-cases (key === k)) [
      | inl same ↦
          rw (find-upsert key k suc 1 counters, same)
            (count-changed (find key counters)
              ∙ ap (λ j. suc (count (find j counters))) ((triple_eq.same_iff key k).0 same))
      | inr other ↦ rw (find-upsert key k suc 1 counters, other)
    ]

-- The counter that the hit of a rule has read, where the rule counts at the key.
count_at :
    (k : Key) (rule : RateLimitRule) (identity bucket : String) (counters : Counters)
    → (key_for rule identity bucket === k) ≡ true
    → count (find (key_for rule identity bucket) counters) ≡ count (find k counters)
count_at k rule identity bucket counters same =
    ap (λ j. count (find j counters)) ((triple_eq.same_iff (key_for rule identity bucket) k).0 same)

first_exceeded-none :
    (h : RateLimitHit) (hs : List RateLimitHit)
    → first_exceeded (h ∷ hs) ≡ none
    → (h.exceeded ≡ false) × (first_exceeded hs ≡ none)
first_exceeded-none h hs within = ground arith

within-hit :
    (k : Key) (limit : ℕ) (rule : RateLimitRule) (identity bucket : String) (ttl : ℕ)
    (counters : Counters)
    → (hit rule identity bucket ttl counters).1.exceeded ≡ false
    → (key_for rule identity bucket === k && rule.limit == limit) ≡ true
    → suc (count (find k counters)) ≤ limit
unfolding hit
within-hit k limit rule identity bucket ttl counters within counted =
    elim (Bool-cases (key_for rule identity bucket === k)) [
      | inl same ↦ ground (arith, count_at k rule identity bucket counters same)
      | inr other ↦ ground arith
    ]

matched : (a b : Bool) → (a || b) ≡ true → b ≡ false → a ≡ true
matched true b h none_left = refl
matched false b h none_left = cc

module _ (k : Key) (limit : ℕ) (identity bucket : String) (ttl : ℕ) where
  count-hit_all :
      (rules : List RateLimitRule) (counters : Counters)
      → count (find k counters) + (if counts_at k limit rules identity bucket then 1 else 0)
        ≤ count (find k (hit_all rules identity bucket ttl counters).0)
  unfolding hit_all
  count-hit_all [] counters = omega arith
  count-hit_all (rule ∷ rules) counters = ground (
    arith,
    count-hit k rule identity bucket ttl counters,
    count-hit_all rules (hit rule identity bucket ttl counters).0,
  )

  -- None of the hits exceeds its limit.
  within-hit_all :
      (rules : List RateLimitRule) (counters : Counters)
      → first_exceeded (hit_all rules identity bucket ttl counters).1 ≡ none
      → counts_at k limit rules identity bucket ≡ true
      → suc (count (find k counters)) ≤ limit
  unfolding hit_all
  within-hit_all [] counters within counted = ground arith
  within-hit_all (rule ∷ rules) counters within counted =
      let next = (hit rule identity bucket ttl counters).0 in
      let (here, later) =
        first_exceeded-none (hit rule identity bucket ttl counters).1
          (hit_all rules identity bucket ttl next).1 within in
      elim (Bool-cases (counts_at k limit rules identity bucket)) [
        | inl rest ↦ ground (
          arith,
          within-hit_all rules next later rest,
          count-hit k rule identity bucket ttl counters,
        )
        | inr none_left ↦ within-hit k limit rule identity bucket ttl counters here (
            matched (key_for rule identity bucket === k && rule.limit == limit) _ counted none_left)
      ]

-- A request with whether Redis answers, and the time left that Redis would give.
abbrev pub Attempt : Type 0
Attempt = Request × Bool × ℕ

abbrev pub is_allowed : Answer → Bool
is_allowed (allowed h) = true
is_allowed _ = false

found_exceeded :
    (hs : List RateLimitHit) (h : RateLimitHit) → first_exceeded hs ≡ some h → h.exceeded ≡ true
found_exceeded [] h found = ground arith
found_exceeded (x ∷ xs) h found = ground (arith, found_exceeded xs h)

chosen_allowed :
    (first : RateLimitHit) (others : List RateLimitHit) (o : Option RateLimitHit)
    → ((h : RateLimitHit) → o ≡ some h → h.exceeded ≡ true)
    → is_allowed (judged_by (chosen first others o)) ≡ true
    → o ≡ none
chosen_allowed first others none over let_in = refl
chosen_allowed first others (some h) over let_in = ground (arith, over h refl)

judged_allowed : (hs : List RateLimitHit) → is_allowed (judged hs) ≡ true → first_exceeded hs ≡ none
unfolding effective_hit
judged_allowed [] let_in = refl
judged_allowed (first ∷ others) let_in =
    chosen_allowed first others (first_exceeded (first ∷ others)) (found_exceeded (first ∷ others))
      let_in

module _ (env : Env) (first_trimmed : String → String) (production : Bool) (k : Key)
    (limit : ℕ) where
  -- Whether one of the rules of the request counts at the key with the limit.
  abbrev pub concerns : Request → Bool
  concerns req =
      counts_at k limit (rules_for env req) (identity_for first_trimmed req) (route_bucket_for req)

  abbrev pub answer_to : Attempt → Counters → Answer
  answer_to (req, up, ttl) counters =
      (use_middleware env first_trimmed production up ttl req counters).1

  abbrev pub counters_after : Attempt → Counters → Counters
  counters_after (req, up, ttl) counters =
      (use_middleware env first_trimmed production up ttl req counters).0

  -- 1 for an attempt that is let through with its hits counted.
  abbrev pub passes : Attempt → Counters → ℕ
  passes (req, up, ttl) counters =
      if concerns req && is_allowed (answer_to (req, up, ttl) counters) then 1 else 0

  abbrev pub passed : List Attempt → Counters → ℕ
  passed [] counters = 0
  passed (a ∷ others) counters = passes a counters + passed others (counters_after a counters)

  passes-count :
      (a : Attempt) (counters : Counters)
      → (passes a counters + count (find k counters) ≤ count (find k (counters_after a counters)))
        × (passes a counters + (limit - count (find k (counters_after a counters)))
            ≤ limit - count (find k counters))
  unfolding use_middleware handle_redis_unavailable
  passes-count (req, true, ttl) counters =
      let rules = rules_for env req in
      let identity = identity_for first_trimmed req in
      let bucket = route_bucket_for req in
      let counted = count-hit_all k limit identity bucket ttl rules counters in
      let hits = (hit_all rules identity bucket ttl counters).1 in
      let within : is_allowed (judged hits) ≡ true
          → concerns req ≡ true
          → suc (count (find k counters)) ≤ limit =
        λ let_in concerned.
          within-hit_all k limit identity bucket ttl rules counters (judged_allowed hits let_in)
            concerned in
      ground (arith, counted, within)
  passes-count (req, false, ttl) counters = ground arith

  -- While a counter does not expire: of any sequence of requests, with outages of Redis in between, at
  -- most as many are let through with their hits counted as the limit of a rule allows, for each
  -- rule, caller and bucket, less those that are already counted.
  pub passed-le-limit :
      (attempts : List Attempt) (counters : Counters)
      → passed attempts counters ≤ limit - count (find k counters)
  passed-le-limit [] counters = omega arith
  passed-le-limit (a ∷ others) counters =
      omega (arith, passes-count a counters, passed-le-limit others (counters_after a counters))

hit_all-other :
    (k : Key) (rules : List RateLimitRule) (identity bucket : String) (ttl : ℕ)
    (counters : Counters)
    → (identity === k.0.1 && bucket === k.1) ≡ false
    → find k (hit_all rules identity bucket ttl counters).0 ≡ find k counters
unfolding hit_all hit
hit_all-other k [] identity bucket ttl counters other = refl
hit_all-other k (rule ∷ rules) identity bucket ttl counters other =
    let key = key_for rule identity bucket in
    let apart : (key === k) ≡ false = ground arith in
    let here : find k (upsert key suc 1 counters) ≡ find k counters =
      rw (find-upsert key k suc 1 counters, apart) in
    hit_all-other k rules identity bucket ttl (upsert key suc 1 counters) other ∙ here

-- A request changes no counter of another caller and none of another bucket, the global rule's
-- counters included: it counts in each bucket on its own.
use_middleware-other :
    (env : Env) (first_trimmed : String → String) (production up : Bool) (ttl : ℕ) (req : Request)
    (k : Key) (counters : Counters)
    → (identity_for first_trimmed req === k.0.1 && route_bucket_for req === k.1) ≡ false
    → find k (use_middleware env first_trimmed production up ttl req counters).0 ≡ find k counters
unfolding use_middleware
use_middleware-other env first_trimmed production true ttl req k counters other =
    elim (Bool-cases (is_exempt req.path)) [
      | inl exempt ↦ rw (exempt)
      | inr counted ↦ rw (counted) (
          hit_all-other k (rules_for env req) (identity_for first_trimmed req)
            (route_bucket_for req) ttl counters other)
    ]
use_middleware-other env first_trimmed production false ttl req k counters other =
    elim (Bool-cases (is_exempt req.path)) [ inl exempt ↦ rw (exempt) | inr counted ↦ rw (counted) ]
