-- ===== src/Api/PriceStream/Tests.antt =====
-- Runs of the WebSocket of the prices and instances of its theorems: two connections, one with a
-- wallet and one that is anonymous and may hold one subscription.
use swyft.Prelude.{
  ℕ, ◌≤◌, ◌≡◌, ◌⊎◌, refl, true, false, String, Option, none, some, List, [], ◌∷◌, err, zero, suc,
  if◌then◌else◌,
}
use swyft.Prelude.BigInt.{ℤ, pos}
use swyft.Prelude.Equality.{◌===◌, string_eq, number_eq}
use swyft.Prelude.Counted.{has_key}
use swyft.Prelude.Table.{find, upsert}
use swyft.Api.KeyRing.{non_empty}
use swyft.Api.PriceStream.{
  WsEnv, WsAuthPolicy, WsPrincipal, wallet_session, anonymous_session, auth_invalid, forbidden,
  subscription_limit, Verified, WsAction, subscribe_action, unsubscribe_action, swap_action,
  mode_or_default, is_text, resolve_ws_auth_policy, authenticate_ws_handshake,
  subscription_limit_for, is_action_allowed,
}
use swyft.Api.PriceStream.Policy.{authenticate_ws_handshake-anonymous_session}
use swyft.Api.PriceStream.Subscriptions.{
  StreamEvent, received, no_subscriptions, run_stream_events, remove_client, get_subscription_count,
  handle_message, subscribe,
}
use swyft.Api.PriceStream.Mirrored.{clients_of, IsMirrored}
use swyft.Api.PriceStream.Closed.{run_stream_events-IsMirrored}
use swyft.Api.PriceStream.Capped.{run_stream_events-get_subscription_count}

abbrev one_or_no_number : String → Option ℤ
one_or_no_number raw = if raw === "1" then some (pos 1) else none

abbrev open_env : WsEnv
open_env = record {
  max_per_client = none;
  anonymous_max = some "1";
  auth_mode = some "optional";
  stellar_network = some "testnet";
  anonymous_mainnet = none;
}

abbrev rejected_token : String → String → Verified
rejected_token token secret = Verified.not_valid

abbrev open_policy : WsAuthPolicy
open_policy = resolve_ws_auth_policy one_or_no_number (λ t. t) open_env

abbrev two_principals : ℕ → WsPrincipal
two_principals zero = wallet_session "GA"
two_principals (suc n) = anonymous_session

abbrev message : WsAction → String → StreamEvent
message action pool = received (record { action = some action; pool_id = some pool })

abbrev two_connections : List (ℕ × StreamEvent)
two_connections =
    (0, message subscribe_action "a")
    ∷ (1, message subscribe_action "a")
    ∷ (1, message subscribe_action "b")
    ∷ (0, message subscribe_action "b")
    ∷ (0, message unsubscribe_action "a")
    ∷ []

presented_token :
    authenticate_ws_handshake rejected_token (some "secret") open_policy (some (some "t"))
    ≡ err auth_invalid
unfolding authenticate_ws_handshake
presented_token = refl

anonymous_swap :
    (handle_message 1 anonymous_session 1
      (record { action = some swap_action; pool_id = some "a" })
      no_subscriptions).1
    ≡ some forbidden
unfolding handle_message is_action_allowed
anonymous_swap = refl

-- A pool that is held is subscribed to again, at the limit.
held_again :
    (handle_message 1 anonymous_session 1
      (record { action = some subscribe_action; pool_id = some "a" })
      (subscribe 1 "a" no_subscriptions)).1
    ≡ some subscription_limit
unfolding handle_message is_action_allowed subscribe get_subscription_count find upsert
held_again = refl

authenticate_ws_handshake-anonymous_session_example :
    (non_empty (some "") ≡ none)
    × (mode_or_default open_env.auth_mode ≡ "optional")
    × ((is_text "mainnet" open_env.stellar_network ≡ false)
        ⊎ (is_text "true" open_env.anonymous_mainnet ≡ true))
    × (subscription_limit_for anonymous_session open_policy
        ≤ subscription_limit_for (wallet_session "GA") open_policy)
unfolding authenticate_ws_handshake resolve_ws_auth_policy
authenticate_ws_handshake-anonymous_session_example =
    authenticate_ws_handshake-anonymous_session rejected_token one_or_no_number (λ t. t)
      (some "secret") open_env (some "") "GA" refl

run_stream_events-IsMirrored_example :
    IsMirrored (run_stream_events open_policy two_principals two_connections no_subscriptions)
    × (has_key 1 (
          clients_of "a" (
            remove_client 1
              (run_stream_events open_policy two_principals two_connections no_subscriptions)))
        ≡ false)
    × (get_subscription_count 1 (
          remove_client 1
            (run_stream_events open_policy two_principals two_connections no_subscriptions))
        ≡ 0)
run_stream_events-IsMirrored_example =
    run_stream_events-IsMirrored open_policy two_principals two_connections 1 "a"

run_stream_events-get_subscription_count_example :
    get_subscription_count 1
      (run_stream_events open_policy two_principals two_connections no_subscriptions)
    ≤ subscription_limit_for anonymous_session open_policy
run_stream_events-get_subscription_count_example =
    run_stream_events-get_subscription_count open_policy two_principals two_connections 1
