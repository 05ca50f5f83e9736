-- ===== src/Api/PriceStream/Subscriptions.antt =====
-- The maps `subscriptions` and `clientPools` of price.service.ts, the channels that it has subscribed
-- to, and the messages of price.gateway.ts.
use swyft.Prelude.{
  ℕ, String, Option, none, some, is_none, List, [], ◌∷◌, leb, length, if◌then◌else◌,
}
use swyft.Prelude.Equality.{Eq, string_eq, number_eq}
use swyft.Prelude.Counted.{has_key, delete_key}
use swyft.Prelude.Table.{Table, find, upsert, update, remove}
use swyft.Api.PriceStream.{
  WsPrincipal, WsAction, subscribe_action, unsubscribe_action, swap_action, WsErrorCode,
  invalid_request, forbidden, subscription_limit, is_action_allowed, subscription_limit_for,
  WsAuthPolicy,
}

pub record Subscriptions : Type 0 where
  pub subscriptions : Table String (List ℕ)
  pub client_pools : Table ℕ (List String)
  pub channels : List String

-- `Set.add`
abbrev pub add_key {ℓ} : {K : Type ℓ} ⦃eq : Eq K⦄ → K → List K → List K
add_key key keys = if has_key key keys then keys else key ∷ keys

abbrev pub or_nil {ℓ} : {A : Type ℓ} → Option (List A) → List A
or_nil none = []
or_nil (some xs) = xs

unfoldable pub subscribe : ℕ → String → Subscriptions → Subscriptions
subscribe client pool s = record {
  subscriptions = upsert pool (add_key client) (client ∷ []) s.subscriptions;
  client_pools = upsert client (add_key pool) (pool ∷ []) s.client_pools;
  channels = if is_none (find pool s.subscriptions) then pool ∷ s.channels else s.channels;
}

abbrev pub dropped : ℕ → String → Subscriptions → List ℕ → Subscriptions
dropped client pool s [] = record s {
  subscriptions = remove pool s.subscriptions;
  channels = delete_key pool s.channels;
}
dropped client pool s (c ∷ rest) = record s {
  subscriptions = update pool (λ _. c ∷ rest) s.subscriptions;
}

abbrev pub dropped_from : ℕ → String → Subscriptions → Option (List ℕ) → Subscriptions
dropped_from client pool s none = s
dropped_from client pool s (some clients) = dropped client pool s (delete_key client clients)

unfoldable pub unsubscribe : ℕ → String → Subscriptions → Subscriptions
unsubscribe client pool s =
    let rest = dropped_from client pool s (find pool s.subscriptions) in
    record rest { client_pools = update client (delete_key pool) s.client_pools }

unfoldable pub unsubscribe_all : ℕ → List String → Subscriptions → Subscriptions
unsubscribe_all client [] s = s
unsubscribe_all client (pool ∷ pools) s = unsubscribe_all client pools (unsubscribe client pool s)

abbrev pub removed : ℕ → Subscriptions → Option (List String) → Subscriptions
removed client s none = s
removed client s (some pools) =
    let rest = unsubscribe_all client pools s in
    record rest { client_pools = remove client rest.client_pools }

unfoldable pub remove_client : ℕ → Subscriptions → Subscriptions
remove_client client s = removed client s (find client s.client_pools)

unfoldable pub get_subscription_count : ℕ → Subscriptions → ℕ
get_subscription_count client s = length (or_nil (find client s.client_pools))

-- A frame that is not too large and holds an object. A missing action is one that is not known, a
-- missing pool one whose id is not valid.
pub record PriceMessage : Type 0 where
  pub action : Option WsAction
  pub pool_id : Option String

abbrev pub perform_action :
    ℕ → ℕ → WsAction → String → Subscriptions → Subscriptions × Option WsErrorCode
perform_action client max subscribe_action pool s =
    if leb max (get_subscription_count client s)
    then (s, some subscription_limit)
    else (subscribe client pool s, none)
perform_action client max unsubscribe_action pool s = (unsubscribe client pool s, none)
perform_action client max swap_action pool s = (s, none)

abbrev pub checked_message :
    ℕ
    → WsPrincipal
    → ℕ
    → Option WsAction
    → Option String
    → Subscriptions
    → Subscriptions × Option WsErrorCode
checked_message client principal max none pool s = (s, some invalid_request)
checked_message client principal max (some action) none s = (s, some invalid_request)
checked_message client principal max (some action) (some pool) s =
    if is_action_allowed principal action
    then perform_action client max action pool s
    else (s, some forbidden)

-- The error that is sent; a swap's invalidation of the price cache is left out.
unfoldable pub handle_message :
    ℕ → WsPrincipal → ℕ → PriceMessage → Subscriptions → Subscriptions × Option WsErrorCode
handle_message client principal max msg s =
    checked_message client principal max msg.action msg.pool_id s

abbrev pub no_subscriptions : Subscriptions
no_subscriptions = record { subscriptions = []; client_pools = []; channels = [] }

-- What a connection does: it sends a message, or it closes or fails, also where it is written to.
pub data StreamEvent : Type 0 where
  received : PriceMessage → StreamEvent
  closed : StreamEvent

-- The listeners of onClientConnection; `principals` is who the handshake of a connection found.
unfoldable pub on_client_event :
    WsAuthPolicy → (ℕ → WsPrincipal) → ℕ → StreamEvent → Subscriptions → Subscriptions
on_client_event policy principals client (received msg) s =
    (handle_message client (principals client) (subscription_limit_for (principals client) policy)
      msg s).0
on_client_event policy principals client closed s = remove_client client s

unfoldable pub run_stream_events :
    WsAuthPolicy → (ℕ → WsPrincipal) → List (ℕ × StreamEvent) → Subscriptions → Subscriptions
run_stream_events policy principals [] s = s
run_stream_events policy principals ((client, event) ∷ rest) s =
    run_stream_events policy principals rest (on_client_event policy principals client event s)
