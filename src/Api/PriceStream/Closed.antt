-- ===== src/Api/PriceStream/Closed.antt =====
-- A connection that closes, and the two maps over all that connections do.
use swyft.Prelude.{
  ℕ, ◌≡◌, refl, sym, ap, ◌∙◌, arith, Bool, true, false, ◌||◌, String, Option, none, some, List, [],
  ◌∷◌, leb, length, if◌then◌else◌, inl, inr, Bool-cases,
}
use swyft.Prelude.Equality.{◌===◌, string_eq, number_eq, ===_refl}
use swyft.Prelude.Counted.{has_key}
use swyft.Prelude.Table.{find, find-remove}
use swyft.Api.PriceStream.{
  WsAuthPolicy, WsPrincipal, WsAction, subscribe_action, unsubscribe_action, swap_action,
  is_action_allowed, subscription_limit_for,
}
use swyft.Api.PriceStream.Subscriptions.{
  Subscriptions, or_nil, unsubscribe, unsubscribe_all, removed, remove_client, perform_action,
  checked_message, handle_message, get_subscription_count, no_subscriptions, StreamEvent, received,
  closed, on_client_event, run_stream_events,
}
use swyft.Api.PriceStream.Mirrored.{
  clients_of, pools_of, IsMirrored, pools-unsubscribe, subscribe-IsMirrored, unsubscribe-IsMirrored,
}

unsubscribe_all-IsMirrored :
    (client : ℕ) (pools : List String) (s : Subscriptions)
    → IsMirrored s
    → IsMirrored (unsubscribe_all client pools s)
unfolding unsubscribe_all
unsubscribe_all-IsMirrored client [] s h = h
unsubscribe_all-IsMirrored client (pool ∷ pools) s h =
    unsubscribe_all-IsMirrored client pools (unsubscribe client pool s)
      (unsubscribe-IsMirrored client pool s h)

lost :
    (held one others : Bool)
    → (if others then false else (if one then false else held))
      ≡ (if one || others then false else held)
lost held one others = ground arith

-- What a client loses with a list of pools.
pools-unsubscribe_all :
    (client : ℕ) (pools : List String) (p : String) (s : Subscriptions)
    → has_key p (pools_of client (unsubscribe_all client pools s))
      ≡ (if has_key p pools then false else has_key p (pools_of client s))
unfolding unsubscribe_all
pools-unsubscribe_all client [] p s = refl
pools-unsubscribe_all client (pool ∷ pools) p s =
    pools-unsubscribe_all client pools p (unsubscribe client pool s)
    ∙ rw (pools-unsubscribe client client pool p s, ===_refl client)
        (lost (has_key p (pools_of client s)) (pool === p) (has_key p pools))

itself : (held : Bool) → (if held then false else held) ≡ false
itself held = ground arith

-- A client that gives up all its pools has none.
pools-unsubscribe_all-none :
    (client c : ℕ) (pools : List String) (p : String) (s : Subscriptions)
    → find client s.client_pools ≡ some pools
    → (client === c) ≡ true
    → has_key p (pools_of c (unsubscribe_all client pools s)) ≡ false
pools-unsubscribe_all-none client c pools p s there same =
    ap (λ (k : ℕ). has_key p (pools_of k (unsubscribe_all client pools s)))
      (sym ((number_eq.same_iff client c).0 same))
    ∙ pools-unsubscribe_all client pools p s
    ∙ rw there (itself (has_key p pools))

removed-IsMirrored :
    (client : ℕ) (s : Subscriptions) (o : Option (List String))
    → find client s.client_pools ≡ o
    → IsMirrored s
    → IsMirrored (removed client s o)
removed-IsMirrored client s none there h = h
removed-IsMirrored client s (some pools) there h = λ c p.
    let after = unsubscribe_all client pools s in
    unsubscribe_all-IsMirrored client pools s h c p
    ∙ sym (
        ap (λ (o : Option (List String)). has_key p (or_nil o))
          (find-remove client c after.client_pools)
        ∙ elim (Bool-cases (client === c)) [
          | inl same ↦ rw same (sym (pools-unsubscribe_all-none client c pools p s there same))
          | inr other ↦ rw other refl
        ])

remove_client-IsMirrored :
    (client : ℕ) (s : Subscriptions) → IsMirrored s → IsMirrored (remove_client client s)
unfolding remove_client
remove_client-IsMirrored client s h =
    removed-IsMirrored client s (find client s.client_pools) refl h

-- A client that left has no pools.
removed-none :
    (client : ℕ) (s : Subscriptions) (o : Option (List String))
    → find client s.client_pools ≡ o
    → pools_of client (removed client s o) ≡ []
removed-none client s none there = rw there refl
removed-none client s (some pools) there =
    ap or_nil (find-remove client client (unsubscribe_all client pools s).client_pools)
    ∙ rw (===_refl client) refl

action-IsMirrored :
    (client max : ℕ) (action : WsAction) (pool : String) (s : Subscriptions)
    → IsMirrored s
    → IsMirrored (perform_action client max action pool s).0
action-IsMirrored client max subscribe_action pool s h =
    elim (Bool-cases (leb max (get_subscription_count client s))) [
      | inl full ↦ rw full h
      | inr room ↦ rw room (subscribe-IsMirrored client pool s h)
    ]
action-IsMirrored client max unsubscribe_action pool s h = unsubscribe-IsMirrored client pool s h
action-IsMirrored client max swap_action pool s h = h

message-IsMirrored :
    (client : ℕ) (principal : WsPrincipal) (max : ℕ) (action : Option WsAction)
    (pool : Option String) (s : Subscriptions)
    → IsMirrored s
    → IsMirrored (checked_message client principal max action pool s).0
message-IsMirrored client principal max none pool s h = h
message-IsMirrored client principal max (some action) none s h = h
message-IsMirrored client principal max (some action) (some pool) s h =
    elim (Bool-cases (is_action_allowed principal action)) [
      | inl allowed ↦ rw allowed (action-IsMirrored client max action pool s h)
      | inr forbidden ↦ rw forbidden h
    ]

event-IsMirrored :
    (policy : WsAuthPolicy) (principals : ℕ → WsPrincipal) (client : ℕ) (event : StreamEvent)
    (s : Subscriptions)
    → IsMirrored s
    → IsMirrored (on_client_event policy principals client event s)
unfolding on_client_event handle_message
event-IsMirrored policy principals client (received msg) s h =
    message-IsMirrored client (principals client)
      (subscription_limit_for (principals client) policy) msg.action msg.pool_id s h
event-IsMirrored policy principals client closed s h = remove_client-IsMirrored client s h

run-IsMirrored :
    (policy : WsAuthPolicy) (principals : ℕ → WsPrincipal) (events : List (ℕ × StreamEvent))
    (s : Subscriptions)
    → IsMirrored s
    → IsMirrored (run_stream_events policy principals events s)
unfolding run_stream_events
run-IsMirrored policy principals [] s h = h
run-IsMirrored policy principals ((client, event) ∷ rest) s h =
    run-IsMirrored policy principals rest (on_client_event policy principals client event s)
      (event-IsMirrored policy principals client event s h)

empty-IsMirrored : IsMirrored no_subscriptions
unfolding find
empty-IsMirrored client pool = refl

-- Whatever messages the connections send and in whatever order they close, from no subscriptions: a
-- connection is among the clients of a pool exactly if the pool is among the pools of the connection,
-- and a connection that then closes is among the clients of no pool and holds no subscription.
pub run_stream_events-IsMirrored :
    (policy : WsAuthPolicy) (principals : ℕ → WsPrincipal) (events : List (ℕ × StreamEvent))
    (client : ℕ) (pool : String)
    → IsMirrored (run_stream_events policy principals events no_subscriptions)
      × (has_key client (
            clients_of pool
              (remove_client client (run_stream_events policy principals events no_subscriptions)))
          ≡ false)
      × (get_subscription_count client
            (remove_client client (run_stream_events policy principals events no_subscriptions))
          ≡ 0)
unfolding remove_client get_subscription_count
run_stream_events-IsMirrored policy principals events client pool =
    let s = run_stream_events policy principals events no_subscriptions in
    let kept = run-IsMirrored policy principals events no_subscriptions empty-IsMirrored in
    let none_left = removed-none client s (find client s.client_pools) refl in
    (
      kept,
      remove_client-IsMirrored client s kept client pool ∙ ap (has_key pool) none_left,
      ap length none_left,
    )
