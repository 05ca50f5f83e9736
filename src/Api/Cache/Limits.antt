-- ===== src/Api/Cache/Limits.antt =====
-- How many requests `checkRateLimit` of cache.service.ts allows in one window.
use swyft.Prelude.{
  ℕ, zero, suc, ◌+◌, ◌-◌, ◌≤◌, min, ◌≡◌, refl, ◌∙◌, ap, Bool, true, String, Option, none, some,
  Result, ok, err, arith, leb, if◌then◌else◌, inl, inr, Bool-cases, leb→le,
}
use swyft.Prelude.Equality.{string_eq, ===_refl}
use swyft.Prelude.Table.{Table, find, find-upsert, changed}
use swyft.Api.Cache.{RateLimitResult, RateLimitErrorCode, check_rate_limit, one_more, limit_answer}

abbrev pub is_allowed : Result RateLimitErrorCode RateLimitResult → ℕ
is_allowed (err code) = 0
is_allowed (ok answer) = if answer.allowed then 1 else 0

abbrev pub spent : Option ℕ → ℕ
spent none = 0
spent (some n) = n

spent-changed : (o : Option ℕ) → spent (some (changed suc 1 o)) ≡ suc (spent o)
spent-changed none = refl
spent-changed (some n) = refl

one_more-spent : (o : Option ℕ) → one_more o ≡ suc (spent o)
one_more-spent none = refl
one_more-spent (some n) = refl

allowed-limit_answer :
    (limit ttl count : ℕ)
    → is_allowed (ok (limit_answer limit ttl count)) ≡ (if leb count limit then 1 else 0)
allowed-limit_answer limit ttl count = elim (Bool-cases (leb count limit)) [
  | inl within ↦ rw within refl
  | inr over ↦ rw over refl
]

module _ (fail_closed : Bool) (limit ttl : ℕ) (key : String) where
  abbrev request_step : Table String ℕ → Table String ℕ × Result RateLimitErrorCode RateLimitResult
  request_step counters = check_rate_limit true true fail_closed limit ttl key counters

  -- `n` requests of one caller in a window, with the store there; those that are allowed.
  unfoldable pub count_allowed : ℕ → Table String ℕ → ℕ
  count_allowed zero counters = 0
  count_allowed (suc n) counters =
      is_allowed (request_step counters).1 + count_allowed n (request_step counters).0

  spent-request_step :
      (counters : Table String ℕ)
      → spent (find key (request_step counters).0) ≡ suc (spent (find key counters))
  unfolding check_rate_limit
  spent-request_step counters =
      ap spent (find-upsert key key suc 1 counters)
      ∙ rw (===_refl key) (spent-changed (find key counters))

  allowed-request_step :
      (counters : Table String ℕ)
      → is_allowed (request_step counters).1
        ≡ (if leb (suc (spent (find key counters))) limit then 1 else 0)
  unfolding check_rate_limit
  allowed-request_step counters =
      ap (λ (n : ℕ). is_allowed (ok (limit_answer limit ttl n)))
        (one_more-spent (find key counters))
      ∙ allowed-limit_answer limit ttl (suc (spent (find key counters)))

  -- With the store there: of `n` requests in one window exactly as many are allowed as the limit
  -- leaves after those that the window has counted.
  pub count_allowed-eq :
      (n : ℕ) (counters : Table String ℕ)
      → count_allowed n counters ≡ min n (limit - spent (find key counters))
  unfolding count_allowed
  count_allowed-eq zero counters = omega arith
  count_allowed-eq (suc n) counters =
      let used = spent (find key counters) in
      let ih = count_allowed-eq n (request_step counters).0 in
      elim (Bool-cases (leb (suc used) limit)) [
        | inl within ↦
            let one : is_allowed (request_step counters).1 ≡ 1 =
              allowed-request_step counters ∙ rw within refl in
            omega (arith, ih, one, spent-request_step counters, leb→le (suc used) limit within)
        | inr over ↦
            let nothing : is_allowed (request_step counters).1 ≡ 0 =
              allowed-request_step counters ∙ rw over refl in
            let full : limit ≤ used = ground arith in
            omega (arith, ih, nothing, spent-request_step counters, full)
      ]
