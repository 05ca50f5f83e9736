-- ===== src/Api/PriceStream.antt =====
-- apps/api/src/price: the WebSocket of the prices. ws-auth-policy.ts says who may connect and what an
-- anonymous session may do, price.gateway.ts handles the messages, and price.service.ts keeps the two
-- maps of the subscriptions. jsonwebtoken's `verify`, parseInt, the parsing of the URL and of JSON and
-- the pattern of a pool's id are parameters. A client is a number; the texts of errors are left out.
pub mod Policy
pub mod Subscriptions
pub mod Mirrored
pub mod Closed
pub mod Capped
mod Tests
use swyft.Prelude.{
  ℕ, zero, suc, Bool, true, false, not, ◌&&◌, ◌||◌, String, Option, none, some, List, [], ◌∷◌,
  Result, err, ok, ltb, leb, min, length, if◌then◌else◌,
}
use swyft.Prelude.BigInt.{ℤ, pos, negsuc}
use swyft.Prelude.Equality.{◌===◌, string_eq}
use swyft.Api.KeyRing.{non_empty}
use swyft.Api.Jwt.{Claim, text, JwtPayload}

pub data WsErrorCode : Type 0 where
  auth_required auth_invalid auth_expired forbidden invalid_request subscription_limit : WsErrorCode

pub data WsPoolUpdatesAuthMode : Type 0 where
  required optional : WsPoolUpdatesAuthMode

pub data DowngradeReason : Type 0 where
  invalid_mode mainnet_not_enabled : DowngradeReason

pub record WsAuthPolicy : Type 0 where
  pub mode : WsPoolUpdatesAuthMode
  pub max_subscriptions : ℕ
  pub anonymous_max_subscriptions : ℕ
  pub downgrade_reason : Option DowngradeReason

-- The variables of the environment that the policy reads.
pub record WsEnv : Type 0 where
  pub max_per_client : Option String
  pub anonymous_max : Option String
  pub auth_mode : Option String
  pub stellar_network : Option String
  pub anonymous_mainnet : Option String

abbrev pub positive : ℕ → Option ℤ → ℕ
positive fallback (some (pos (suc n))) = suc n
positive fallback _ = fallback

unfoldable pub positive_int : (String → Option ℤ) → Option String → ℕ → ℕ
positive_int parse_int none fallback = fallback
positive_int parse_int (some raw) fallback =
    if raw === "" then fallback else positive fallback (parse_int raw)

abbrev pub is_text : String → Option String → Bool
is_text wanted none = false
is_text wanted (some t) = t === wanted

abbrev pub mode_or_default : Option String → String
mode_or_default none = "required"
mode_or_default (some t) = t

-- `normal` is trim().toLowerCase().
unfoldable pub resolve_ws_auth_policy :
    (String → Option ℤ) → (String → String) → WsEnv → WsAuthPolicy
resolve_ws_auth_policy parse_int normal env =
    let max = positive_int parse_int env.max_per_client 50 in
    let anonymous = min (positive_int parse_int env.anonymous_max 10) max in
    let raw = normal (mode_or_default env.auth_mode) in
    let with_mode : WsPoolUpdatesAuthMode → Option DowngradeReason → WsAuthPolicy = λ mode reason.
      record {
        mode = mode;
        max_subscriptions = max;
        anonymous_max_subscriptions = anonymous;
        downgrade_reason = reason;
      } in
    if not (raw === "required") && not (raw === "optional")
    then with_mode required (some invalid_mode)
    else if raw === "optional"
    then (if is_text "mainnet" env.stellar_network && not (is_text "true" env.anonymous_mainnet)
        then with_mode required (some mainnet_not_enabled)
        else with_mode optional none)
    else with_mode required none

pub data WsPrincipal : Type 0 where
  wallet_session : String → WsPrincipal
  anonymous_session : WsPrincipal

-- What `verify` returns or throws; a payload that is no object counts as not valid.
pub data Verified : Type 0 where
  payload : JwtPayload → Verified
  token_expired not_valid : Verified

abbrev pub claim_text : Claim → Option String
claim_text (text t) = non_empty (some t)
claim_text _ = none

abbrev pub first_text : Option String → Option String → Option String
first_text none other = other
first_text (some t) other = some t

unfoldable pub wallet_from : JwtPayload → Option String
wallet_from p =
    first_text (claim_text p.wallet_address)
      (first_text (claim_text p.wallet) (first_text (claim_text p.address) (claim_text p.sub)))

abbrev pub session_of : Option String → Result WsErrorCode WsPrincipal
session_of none = err auth_invalid
session_of (some wallet) = ok (wallet_session wallet)

abbrev pub verified_session : Verified → Result WsErrorCode WsPrincipal
verified_session (payload p) = session_of (wallet_from p)
verified_session token_expired = err auth_expired
verified_session not_valid = err auth_invalid

abbrev pub without_token : WsPoolUpdatesAuthMode → Result WsErrorCode WsPrincipal
without_token optional = ok anonymous_session
without_token required = err auth_required

abbrev pub with_token :
    (String → String → Verified) → String → Option String → Result WsErrorCode WsPrincipal
with_token verify token none = err auth_invalid
with_token verify token (some secret) = verified_session (verify token secret)

abbrev pub token_session :
    (String → String → Verified)
    → Option String
    → WsAuthPolicy
    → Option String
    → Result WsErrorCode WsPrincipal
token_session verify secret policy none = without_token policy.mode
token_session verify secret policy (some token) = with_token verify token (non_empty secret)

-- The query's `token`; the outer `none` is a malformed URL.
unfoldable pub authenticate_ws_handshake :
    (String → String → Verified)
    → Option String
    → WsAuthPolicy
    → Option (Option String)
    → Result WsErrorCode WsPrincipal
authenticate_ws_handshake verify secret policy none = err invalid_request
authenticate_ws_handshake verify secret policy (some token) =
    token_session verify secret policy (non_empty token)

pub data WsAction : Type 0 where
  subscribe_action unsubscribe_action swap_action : WsAction

unfoldable pub is_action_allowed : WsPrincipal → WsAction → Bool
is_action_allowed (wallet_session w) action = true
is_action_allowed anonymous_session subscribe_action = true
is_action_allowed anonymous_session unsubscribe_action = true
is_action_allowed anonymous_session swap_action = false

unfoldable pub subscription_limit_for : WsPrincipal → WsAuthPolicy → ℕ
subscription_limit_for (wallet_session w) policy = policy.max_subscriptions
subscription_limit_for anonymous_session policy = policy.anonymous_max_subscriptions
