-- ===== src/Api/PriceStream/Policy.antt =====
-- Who may connect, by ws-auth-policy.ts.
use swyft.Prelude.{
  ◌≤◌, ◌≡◌, ◌≢◌, ◌⊎◌, refl, arith, true, false, String, Option, none, some, ok, inl, inr,
  Bool-cases,
}
use swyft.Prelude.BigInt.{ℤ}
use swyft.Prelude.Equality.{◌===◌, string_eq}
use swyft.Api.KeyRing.{non_empty}
use swyft.Api.PriceStream.{
  wallet_session, without_token, WsPoolUpdatesAuthMode, WsEnv, WsAuthPolicy, Verified, required,
  optional, anonymous_session, resolve_ws_auth_policy, is_text, mode_or_default,
  authenticate_ws_handshake, token_session, verified_session, session_of, with_token, wallet_from,
  subscription_limit_for,
}

session_not_anonymous : (o : Option String) → session_of o ≢ ok anonymous_session
session_not_anonymous none h = cc
session_not_anonymous (some wallet) h = cc

-- A presented token never ends in an anonymous session.
verified_not_anonymous : (v : Verified) → verified_session v ≢ ok anonymous_session
verified_not_anonymous (Verified.payload p) h = session_not_anonymous (wallet_from p) h
verified_not_anonymous Verified.token_expired h = cc
verified_not_anonymous Verified.not_valid h = cc

with_token_not_anonymous :
    (verify : String → String → Verified) (token : String) (secret : Option String)
    → with_token verify token secret ≢ ok anonymous_session
with_token_not_anonymous verify token none h = cc
with_token_not_anonymous verify token (some secret) h =
    verified_not_anonymous (verify token secret) h

without_token_optional :
    (mode : WsPoolUpdatesAuthMode) → without_token mode ≡ ok anonymous_session → mode ≡ optional
without_token_optional required h = cc
without_token_optional optional h = refl

token_session_optional :
    (verify : String → String → Verified) (secret : Option String) (policy : WsAuthPolicy)
    (token : Option String)
    → token_session verify secret policy token ≡ ok anonymous_session
    → (policy.mode ≡ optional) × (token ≡ none)
token_session_optional verify secret policy none h = (without_token_optional policy.mode h, refl)
token_session_optional verify secret policy (some token) h =
    absurd (with_token_not_anonymous verify token (non_empty secret) h)

resolved_optional :
    (parse_int : String → Option ℤ) (normal : String → String) (env : WsEnv)
    → (resolve_ws_auth_policy parse_int normal env).mode ≡ optional
    → (normal (mode_or_default env.auth_mode) ≡ "optional")
      × ((is_text "mainnet" env.stellar_network ≡ false)
          ⊎ (is_text "true" env.anonymous_mainnet ≡ true))
unfolding resolve_ws_auth_policy
resolved_optional parse_int normal env h =
    let raw = normal (mode_or_default env.auth_mode) in
    elim (Bool-cases (raw === "optional")) [
      | inl set ↦ elim (Bool-cases (is_text "mainnet" env.stellar_network)) [
        | inl mainnet ↦ elim (Bool-cases (is_text "true" env.anonymous_mainnet)) [
          | inl allowed ↦ ((string_eq.same_iff raw "optional").0 set, inr allowed)
          | inr forbidden ↦ grind arith
        ]
        | inr other ↦ ((string_eq.same_iff raw "optional").0 set, inl other)
      ]
      | inr unset ↦ grind arith
    ]

limits_ordered :
    (parse_int : String → Option ℤ) (normal : String → String) (env : WsEnv) (wallet : String)
    → subscription_limit_for anonymous_session (resolve_ws_auth_policy parse_int normal env)
      ≤ subscription_limit_for (wallet_session wallet) (resolve_ws_auth_policy parse_int normal env)
unfolding resolve_ws_auth_policy subscription_limit_for
limits_ordered parse_int normal env wallet = ground arith

-- A handshake ends in an anonymous session only where it presents no token, the operator has set the
-- mode to optional, and the network is not the mainnet or anonymous readers are enabled there; and an
-- anonymous session never gets more subscriptions than a wallet.
pub authenticate_ws_handshake-anonymous_session :
    (verify : String → String → Verified) (parse_int : String → Option ℤ) (normal : String → String)
    (secret : Option String) (env : WsEnv) (token : Option String) (wallet : String)
    → authenticate_ws_handshake verify secret
        (resolve_ws_auth_policy parse_int normal env)
        (some token)
      ≡ ok anonymous_session
    → (non_empty token ≡ none)
      × (normal (mode_or_default env.auth_mode) ≡ "optional")
      × ((is_text "mainnet" env.stellar_network ≡ false)
          ⊎ (is_text "true" env.anonymous_mainnet ≡ true))
      × (subscription_limit_for anonymous_session (resolve_ws_auth_policy parse_int normal env)
          ≤ subscription_limit_for
              (wallet_session wallet)
              (resolve_ws_auth_policy parse_int normal env))
unfolding authenticate_ws_handshake
authenticate_ws_handshake-anonymous_session verify parse_int normal secret env token wallet h =
    let policy = resolve_ws_auth_policy parse_int normal env in
    let (mode, missing) = token_session_optional verify secret policy (non_empty token) h in
    let (set, where_allowed) = resolved_optional parse_int normal env mode in
    (missing, set, where_allowed, limits_ordered parse_int normal env wallet)
