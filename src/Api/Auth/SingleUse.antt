-- ===== src/Api/Auth/SingleUse.antt =====
-- A nonce buys at most one token, whatever the interleaving of requests; no token without a check.
use text.Mathlib.TextEquality.{eq_iff}
use swyft.Prelude.{
  ℕ, zero, suc, ◌+◌, ◌≤◌, ◌≡◌, refl, Bool, true, false, ◌&&◌, String, Option, none, some, List, [],
  ◌∷◌, is_none, all, arith, if◌then◌else◌,
}
use swyft.Prelude.Equality.{◌===◌, string_eq, ===_refl}
use swyft.Prelude.Table.{find, find-upsert, find-remove}
use swyft.Api.Auth.{
  token, rejected, VerifyWalletDto, Store, Phase, get_nonce, consume, clear_attempts, drop_nonce,
  finished, SignatureCheck, after_lookup, judge, after_incr, consume_nonce, step, issue_nonce,
  Request, World, empty, Event, arrive, call, issue, expire_nonce, expire_attempts, call_at, apply,
  history,
}

-- 1 where the stored value is this nonce, 0 where not.
abbrev pub is_nonce : String → Option String → ℕ
is_nonce nonce none = 0
is_nonce nonce (some stored) = if stored === nonce then 1 else 0

abbrev pub held : String → String → Store → ℕ
held wallet nonce s = is_nonce nonce (find wallet s.nonces)

-- 1 for a request that has consumed its nonce and has not failed since.
abbrev pub spending : Phase → ℕ
spending clear_attempts = 1
spending (finished (token wallet)) = 1
spending _ = 0

abbrev pub spent : String → String → VerifyWalletDto → Phase → ℕ
spent wallet nonce dto phase =
    if dto.wallet_address === wallet && dto.nonce === nonce then spending phase else 0

abbrev pub granting : Phase → ℕ
granting (finished (token wallet)) = 1
granting _ = 0

-- The requests for a wallet with a nonce that ended in a token.
abbrev pub granted : String → String → List Request → ℕ
granted wallet nonce [] = 0
granted wallet nonce (r ∷ rs) =
    (if r.dto.wallet_address === wallet && r.dto.nonce === nonce then granting r.phase else 0)
    + granted wallet nonce rs

abbrev spent_all : String → String → List Request → ℕ
spent_all wallet nonce [] = 0
spent_all wallet nonce (r ∷ rs) = spent wallet nonce r.dto r.phase + spent_all wallet nonce rs

-- How often the nonce was issued to the wallet.
abbrev pub issues : String → String → List Event → ℕ
issues wallet nonce [] = 0
issues wallet nonce (issue v m ∷ es) =
    (if v === wallet && m === nonce then 1 else 0) + issues wallet nonce es
issues wallet nonce (_ ∷ es) = issues wallet nonce es

module _ (check : SignatureCheck) (limit : ℕ) (wallet nonce : String) where
  spent-step :
      (dto : VerifyWalletDto) (s : Store) (p : Phase) (up : Bool)
      → spent wallet nonce dto (step check limit dto s p up).1
          + held wallet nonce (step check limit dto s p up).0
        ≤ spent wallet nonce dto p + held wallet nonce s
  unfolding step after_lookup judge after_incr consume_nonce
  spent-step dto s consume true = ground (
    arith,
    find-remove dto.wallet_address wallet s.nonces,
    eq_iff dto.wallet_address wallet,
    eq_iff dto.nonce nonce,
  )
  spent-step dto s drop_nonce true =
      ground
        (arith, find-remove dto.wallet_address wallet s.nonces, eq_iff dto.wallet_address wallet)
  spent-step dto s (finished (token w)) true = ground arith
  spent-step dto s (finished (token w)) false = ground arith
  spent-step dto s (finished (rejected c)) true = ground arith
  spent-step dto s (finished (rejected c)) false = ground arith
  spent-step dto s _ true = ground arith
  spent-step dto s _ false = ground arith

  abbrev budget : World → ℕ
  budget w = spent_all wallet nonce w.requests + held wallet nonce w.store

  call_at-budget :
      (i : ℕ) (up : Bool) (s : Store) (rs : List Request)
      → budget (call_at check limit i up s rs) ≤ spent_all wallet nonce rs + held wallet nonce s
  unfolding call_at
  call_at-budget i up s [] = omega arith
  call_at-budget zero up s (r ∷ rs) = omega (arith, spent-step r.dto s r.phase up)
  call_at-budget (suc i) up s (r ∷ rs) = omega (arith, call_at-budget i up s rs)

  apply-budget :
      (w : World) (e : Event)
      → budget (apply check limit w e) ≤ budget w + issues wallet nonce (e ∷ [])
  unfolding apply issue_nonce
  apply-budget w (arrive dto) = ground arith
  apply-budget w (call i up) = omega (arith, call_at-budget i up w.store w.requests)
  apply-budget w (issue v m) =
      ground
        (arith, find-upsert v wallet (λ _. m) m w.store.nonces, eq_iff v wallet, eq_iff m nonce)
  apply-budget w (expire_nonce v) =
      ground (arith, find-remove v wallet w.store.nonces, eq_iff v wallet)
  apply-budget w (expire_attempts v) = omega arith

  issues-cons :
      (e : Event) (es : List Event)
      → issues wallet nonce (e ∷ es) ≡ issues wallet nonce (e ∷ []) + issues wallet nonce es
  issues-cons (issue v m) es = omega arith
  issues-cons _ es = omega arith

  history-budget :
      (w : World) (es : List Event)
      → budget (history check limit w es) ≤ budget w + issues wallet nonce es
  unfolding history
  history-budget w [] = omega arith
  history-budget w (e ∷ es) =
      omega (arith, history-budget (apply check limit w e) es, apply-budget w e, issues-cons e es)

  granting-le : (p : Phase) → granting p ≤ spending p
  granting-le (finished (token w)) = omega arith
  granting-le (finished (rejected c)) = omega arith
  granting-le _ = omega arith

  granted-le : (rs : List Request) → granted wallet nonce rs ≤ spent_all wallet nonce rs
  granted-le [] = omega arith
  granted-le (r ∷ rs) = ground (arith, granting-le r.phase, granted-le rs)

-- A service that starts with no request and no stored nonce: whatever the interleaving of requests,
-- failures of the store, new nonces and expiries, the requests for a wallet with a nonce that end
-- in a token are at most as many as the times that this nonce was issued to this wallet.
pub granted-le-issues :
    (check : SignatureCheck) (limit : ℕ) (wallet nonce : String) (es : List Event)
    → granted wallet nonce (history check limit empty es).requests ≤ issues wallet nonce es
unfolding find
granted-le-issues check limit wallet nonce es = omega (
  arith,
  granted-le check limit wallet nonce (history check limit empty es).requests,
  history-budget check limit wallet nonce empty es,
)

-- Whether a request that has passed the check, or has a token, has a signature that is accepted.
abbrev pub authorised : SignatureCheck → VerifyWalletDto → Phase → Bool
authorised check dto consume = is_none (check dto)
authorised check dto clear_attempts = is_none (check dto)
authorised check dto (finished (token wallet)) =
    is_none (check dto) && (wallet === dto.wallet_address)
authorised check dto _ = true

abbrev pub all_authorised : SignatureCheck → List Request → Bool
all_authorised check rs = all (λ r. authorised check r.dto r.phase) rs

module _ (check : SignatureCheck) (limit : ℕ) where
  authorised-after_lookup :
      (dto : VerifyWalletDto) (stored : Option String)
      → authorised check dto (after_lookup check limit dto stored) ≡ true
  unfolding after_lookup
  authorised-after_lookup dto none = refl
  authorised-after_lookup dto (some stored) = ground arith

  authorised-consume_nonce :
      (dto : VerifyWalletDto) (stored : Option String) (s : Store)
      → is_none (check dto) ≡ true
      → authorised check dto (consume_nonce check limit dto stored s).1 ≡ true
  unfolding consume_nonce
  authorised-consume_nonce dto none s h = refl
  authorised-consume_nonce dto (some stored) s h = ground arith

  authorised-step :
      (dto : VerifyWalletDto) (s : Store) (p : Phase) (up : Bool)
      → authorised check dto p ≡ true
      → authorised check dto (step check limit dto s p up).1 ≡ true
  unfolding step judge after_incr consume_nonce
  authorised-step dto s get_nonce true h =
      authorised-after_lookup dto (find dto.wallet_address s.nonces)
  authorised-step dto s consume true h =
      authorised-consume_nonce dto (find dto.wallet_address s.nonces) s h
  authorised-step dto s clear_attempts true h = rw (h, ===_refl dto.wallet_address)
  authorised-step dto s (finished (token w)) true h = h
  authorised-step dto s (finished (token w)) false h = h
  authorised-step dto s (finished (rejected c)) true h = h
  authorised-step dto s (finished (rejected c)) false h = h
  authorised-step dto s _ true h = ground arith
  authorised-step dto s _ false h = ground arith

  all_authorised-call_at :
      (i : ℕ) (up : Bool) (s : Store) (rs : List Request)
      → all_authorised check rs ≡ true
      → all_authorised check (call_at check limit i up s rs).requests ≡ true
  unfolding call_at
  all_authorised-call_at i up s [] h = h
  all_authorised-call_at zero up s (r ∷ rs) h = ground (arith, authorised-step r.dto s r.phase up)
  all_authorised-call_at (suc i) up s (r ∷ rs) h = ground (arith, all_authorised-call_at i up s rs)

  all_authorised-apply :
      (w : World) (e : Event)
      → all_authorised check w.requests ≡ true
      → all_authorised check (apply check limit w e).requests ≡ true
  unfolding apply
  all_authorised-apply w (arrive dto) h = h
  all_authorised-apply w (call i up) h = all_authorised-call_at i up w.store w.requests h
  all_authorised-apply w (issue v m) h = h
  all_authorised-apply w (expire_nonce v) h = h
  all_authorised-apply w (expire_attempts v) h = h

  -- Whatever the interleaving, from requests that are authorised only authorised ones arise: one
  -- that is about to consume its nonce or has a token has a signature that is accepted, and the token
  -- is for the wallet that signed.
  pub all_authorised-history :
      (w : World) (es : List Event)
      → all_authorised check w.requests ≡ true
      → all_authorised check (history check limit w es).requests ≡ true
  unfolding history
  all_authorised-history w [] h = h
  all_authorised-history w (e ∷ es) h =
      all_authorised-history (apply check limit w e) es (all_authorised-apply w e h)
