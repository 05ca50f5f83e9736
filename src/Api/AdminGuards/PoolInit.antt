-- ===== src/Api/AdminGuards/PoolInit.antt =====
-- `PoolInitGuard` of internal-key.guard.ts: one `initialize` for each pool and nonce. The store of
-- claimed nonces is injected; `claim` answers with `none` where it throws.
use Prim.Native.String.{String}
use swyft.Prelude.{
  ℕ, Bool, true, false, Option, none, some, Result, err, ok, ◌>>=◌, ◌>>◌, ◌==◌, if◌then◌else◌,
}
use swyft.Prelude.Number.{Number}
use swyft.Prelude.Equality.{string_eq}
use swyft.Api.KeyRing.{non_empty}
use swyft.Api.AdminGuards.{
  GuardError, missing_key, invalid_key, auth_not_configured, replay_detected,
  dependency_unavailable, reference_error, Credentials, check_role, check_expiry, or_text,
}

pub record ReplayStore (S : Type 0) : Type 0 where
  pub claim : String → S → S × Option Bool

-- What Node gives: the number of bytes of a text, and what `timingSafeEqual` is bound to.
pub record NodeNames : Type 0 where
  pub byte_length : String → ℕ
  pub timing_safe_equal : Option (String → String → Bool)

abbrev pub called : Option (String → String → Bool) → String → String → Result GuardError Bool
called none a b = err reference_error
called (some equal) a b = ok (equal a b)

unfoldable pub safe_equal : NodeNames → String → String → Result GuardError Bool
safe_equal node a b =
    if node.byte_length a == node.byte_length b then called node.timing_safe_equal a b else ok false

pub record InitRequest : Type 0 where
  pub credentials : Credentials
  pub header_pool_id : Option String
  pub body_pool_id : Option String
  pub nonce : Option String

abbrev pub or_thrown : GuardError → Option String → Result GuardError String
or_thrown code none = err code
or_thrown code (some t) = ok t

abbrev pub granted_if : Bool → Result GuardError (Unit {0})
granted_if true = ok tt
granted_if false = err invalid_key

abbrev pub append_text : String → String → String
append_text String.[] t = t
append_text (String.◌∷◌ c s) t = String.◌∷◌ c (append_text s t)

-- `pool-init:${poolId}:${nonce}`
abbrev pub claim_key : String → String → String
claim_key pool nonce = append_text "pool-init:" (append_text pool (append_text ":" nonce))

module _ (node : NodeNames) (number : String → Number) (now : ℕ) where
  -- Everything before the store: the key to claim.
  unfoldable pub pool_init_checks : Option String → InitRequest → Result GuardError String
  pool_init_checks pool_init_auth r = do
    expected ← or_thrown auth_not_configured (non_empty pool_init_auth)
    key ← or_thrown missing_key (non_empty r.credentials.key)
    equal ← safe_equal node key expected
    granted_if equal
    check_role "pool-init-admin" r.credentials.role
    check_expiry number now r.credentials.expires_at
    pool ← or_thrown replay_detected (non_empty (or_text r.header_pool_id r.body_pool_id))
    nonce ← or_thrown replay_detected (non_empty r.nonce)
    ok (claim_key pool nonce)

abbrev pub claim_answer : Option Bool → Result GuardError (Unit {0})
claim_answer none = err dependency_unavailable
claim_answer (some false) = err replay_detected
claim_answer (some true) = ok tt

module _ {S : Type 0} where
  abbrev pub claimed_with :
      Option (ReplayStore S) → S → Result GuardError String → S × Result GuardError (Unit {0})
  claimed_with store s (err code) = (s, err code)
  claimed_with none s (ok key) = (s, err dependency_unavailable)
  claimed_with (some store) s (ok key) = ((store.claim key s).0, claim_answer (store.claim key s).1)

  unfoldable pub pool_init_guard :
      NodeNames
      → (String → Number)
      → ℕ
      → Option String
      → Option (ReplayStore S)
      → InitRequest
      → S
      → S × Result GuardError (Unit {0})
  pool_init_guard node number now pool_init_auth store r s =
      claimed_with store s (pool_init_checks node number now pool_init_auth r)
