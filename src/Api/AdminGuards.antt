-- ===== src/Api/AdminGuards.antt =====
-- apps/api/src/admin/internal-key.guard.ts: the guards of the administration, over the key rings of
-- apps/api/src/admin/internal-key-ring.ts. SHA-256, Date.parse and Number(text) are parameters, and
-- so is the store of claimed nonces, which is injected. `safeEqual` calls `timingSafeEqual`, a name
-- that the file neither declares nor imports: what it is bound to is a parameter as well, `none`
-- where nothing is and the call throws. Times are milliseconds.
mod Described
mod Entrance
pub mod PoolInit
mod SingleInit
mod Tests
use swyft.Prelude.{
  ℕ, Bool, true, false, not, String, Option, none, some, List, [], ◌∷◌, ◌++◌, Result, err, ok,
  ◌>>=◌, ◌>>◌, if◌then◌else◌,
}
use swyft.Prelude.BigInt.{pos, leb_ℤ, ltb_ℤ}
use swyft.Prelude.Number.{Number, int, fraction, not_finite}
use swyft.Prelude.Equality.{Eq, ◌===◌, string_eq}
use swyft.Api.KeyRing.{
  KeyRing, KeyRingMatch, KeyRingDenial, load_key_ring, match_key_ring, matched, denied,
  key_ring_config_problems, ConfigProblem, placeholder_internal_api_key,
}

-- The ends of the codes FEE_COLLECTOR_AUTH_…, TESTNET_REDEPLOY_AUTH_… and POOL_INIT_AUTH_…, and the
-- ReferenceError of a name that nothing binds.
pub data GuardError : Type 0 where
  missing_key invalid_key wrong_role expired auth_not_configured mainnet_forbidden : GuardError
  replay_detected dependency_unavailable reference_error : GuardError

-- The variables of a ring: NAME, NAME_PREVIOUS, NAME_PREVIOUS_EXPIRES_AT.
pub record RingEnv : Type 0 where
  pub current : Option String
  pub previous : Option String
  pub previous_expires_at : Option String

-- x-internal-key, and the role and the expiry that a caller may add.
pub record Credentials : Type 0 where
  pub key : Option String
  pub role : Option String
  pub expires_at : Option String

abbrev pub denial_code : KeyRingDenial → GuardError
denial_code KeyRingDenial.not_configured = auth_not_configured
denial_code KeyRingDenial.missing = missing_key
denial_code KeyRingDenial.invalid = invalid_key
denial_code KeyRingDenial.previous_expired = expired

abbrev pub ring_answer : KeyRingMatch → Result GuardError (Unit {0})
ring_answer (matched slot) = ok tt
ring_answer (denied reason) = err (denial_code reason)

-- A role may be missing; another role than the wanted one may not be there.
unfoldable pub check_role : String → Option String → Result GuardError (Unit {0})
check_role wanted none = ok tt
check_role wanted (some role) =
    if role === "" then ok tt else if role === wanted then ok tt else err wrong_role

-- `!Number.isFinite(ts) || ts <= Date.now()`
abbrev pub is_past : ℕ → Number → Bool
is_past now (int ts) = leb_ℤ ts (pos now)
is_past now (fraction ts) = ltb_ℤ ts (pos now)
is_past now not_finite = true

unfoldable pub check_expiry : (String → Number) → ℕ → Option String → Result GuardError (Unit {0})
check_expiry number now none = ok tt
check_expiry number now (some text) =
    if text === "" then ok tt else if is_past now (number text) then err expired else ok tt

abbrev pub load_ring : (String → Option ℕ) → RingEnv → KeyRing
load_ring date_parse env = load_key_ring date_parse env.current env.previous env.previous_expires_at

abbrev pub is_defined : Option String → Bool
is_defined none = false
is_defined (some _) = true

-- `??`
abbrev pub or_text : Option String → Option String → Option String
or_text none other = other
or_text (some t) other = some t

-- The problems of `validateInternalApiKeyConfig`: in production a missing key or the placeholder,
-- and those of the three rings.
pub data StartupProblem : Type 0 where
  key_not_set : StartupProblem
  rings_invalid : List ConfigProblem → StartupProblem

abbrev pub ring_problems : (String → Option ℕ) → ℕ → RingEnv → List ConfigProblem
ring_problems date_parse now env =
    key_ring_config_problems env.previous_expires_at (load_ring date_parse env) now

abbrev pub no_problems : List ConfigProblem → Result StartupProblem (Unit {0})
no_problems [] = ok tt
no_problems (p ∷ ps) = err (rings_invalid (p ∷ ps))

abbrev pub key_set : Option String → Bool
key_set none = false
key_set (some key) =
    if key === "" then false else if key === placeholder_internal_api_key then false else true

unfoldable pub validate_internal_api_key_config :
    (String → Option ℕ) → ℕ → Bool → RingEnv → RingEnv → RingEnv → Result StartupProblem (Unit {0})
validate_internal_api_key_config date_parse now production internal fee testnet =
    if production
    then (if key_set internal.current
        then no_problems (
            ring_problems date_parse now internal
            ++ (ring_problems date_parse now fee ++ ring_problems date_parse now testnet))
        else err key_not_set)
    else ok tt

abbrev pub check_network : Option String → Result GuardError (Unit {0})
check_network none = ok tt
check_network (some network) =
    if network === "" then ok tt else if network === "testnet" then ok tt else err mainnet_forbidden

module _ {D : Type 0} ⦃eq : Eq D⦄ (digest : String → D) (date_parse : String → Option ℕ)
    (number : String → Number) (now : ℕ) where
  abbrev pub check_key_ring : Option String → RingEnv → Result GuardError (Unit {0})
  check_key_ring key env = ring_answer (match_key_ring digest key (load_ring date_parse env) now)

  -- FEE_COLLECTOR_AUTH takes precedence if it is defined, even by an empty text.
  unfoldable pub internal_key_guard : RingEnv → RingEnv → Credentials → Result GuardError (Unit {0})
  internal_key_guard fee internal c = do
    check_key_ring c.key (if is_defined fee.current then fee else internal)
    check_role "fee-collector" c.role
    check_expiry number now c.expires_at

  -- The networks of the header and of the body.
  unfoldable pub testnet_redeploy_guard :
      RingEnv → Option String → Option String → Credentials → Result GuardError (Unit {0})
  testnet_redeploy_guard env header_network body_network c = do
    check_network (or_text header_network body_network)
    check_key_ring c.key env
    check_role "testnet-redeployer" c.role
    check_expiry number now c.expires_at
