-- ===== src/Api/PriceStream/Capped.antt =====
-- How many subscriptions a connection can hold.
use swyft.Prelude.{
  ℕ, suc, ◌≡◌, ◌≤◌, keep, sym, ap, ◌∙◌, arith, Bool, false, not, String, Option, none, some, List,
  [], ◌∷◌, leb, length, inl, inr, Bool-cases,
}
use swyft.Prelude.Equality.{Eq, ◌===◌, string_eq, number_eq}
use swyft.Prelude.Counted.{delete_key}
use swyft.Prelude.Table.{find, changed, map?, find-remove, find-upsert, find-update}
use swyft.Api.PriceStream.{
  WsAuthPolicy, WsPrincipal, WsAction, subscribe_action, unsubscribe_action, swap_action,
  is_action_allowed, subscription_limit_for,
}
use swyft.Api.PriceStream.Subscriptions.{
  Subscriptions, or_nil, add_key, unsubscribe, subscribe, unsubscribe_all, removed, remove_client,
  perform_action, checked_message, handle_message, get_subscription_count, no_subscriptions,
  StreamEvent, received, closed, on_client_event, run_stream_events,
}
use swyft.Api.PriceStream.Mirrored.{pools_of}

length-keep_le {ℓ} : {A : Type ℓ} (f : A → Bool) (xs : List A) → length (keep f xs) ≤ length xs
length-keep_le f [] = ground arith
length-keep_le f (x ∷ xs) = let ih = length-keep_le f xs in ground arith

length-add_key {ℓ} :
    {K : Type ℓ} ⦃eq : Eq K⦄ (k : K) (o : Option (List K))
    → length (changed (add_key k) (k ∷ []) o) ≤ suc (length (or_nil o))
length-add_key k none = ground arith
length-add_key k (some keys) = ground arith

length-deleted {ℓ} :
    {K : Type ℓ} ⦃eq : Eq K⦄ (k : K) (o : Option (List K))
    → length (or_nil (map? (delete_key k) o)) ≤ length (or_nil o)
length-deleted k none = ground arith
length-deleted k (some keys) = length-keep_le (λ j. not (j === k)) keys

unsubscribe_le :
    (client c : ℕ) (pool : String) (s : Subscriptions)
    → length (pools_of c (unsubscribe client pool s)) ≤ length (pools_of c s)
unfolding unsubscribe
unsubscribe_le client c pool s =
    rw (find-update client c (delete_key pool) s.client_pools) (elim (Bool-cases (client === c)) [
      | inl same ↦
          rw (same, (number_eq.same_iff client c).0 same)
            (length-deleted pool (find c s.client_pools))
      | inr other ↦ rw other (omega arith)
    ])

unsubscribe_all_le :
    (client c : ℕ) (pools : List String) (s : Subscriptions)
    → length (pools_of c (unsubscribe_all client pools s)) ≤ length (pools_of c s)
unfolding unsubscribe_all
unsubscribe_all_le client c [] s = omega arith
unsubscribe_all_le client c (pool ∷ pools) s =
    let one = unsubscribe_le client c pool s in
    let others = unsubscribe_all_le client c pools (unsubscribe client pool s) in omega arith

removed_le :
    (client c : ℕ) (s : Subscriptions) (o : Option (List String))
    → length (pools_of c (removed client s o)) ≤ length (pools_of c s)
removed_le client c s none = omega arith
removed_le client c s (some pools) =
    let after = unsubscribe_all client pools s in
    rw (find-remove client c after.client_pools) (elim (Bool-cases (client === c)) [
      | inl same ↦ rw same (omega arith)
      | inr other ↦ rw other (unsubscribe_all_le client c pools s)
    ])

subscribe_le :
    (client c : ℕ) (pool : String) (s : Subscriptions) (limits : ℕ → ℕ)
    → leb (limits client) (get_subscription_count client s) ≡ false
    → length (pools_of c s) ≤ limits c
    → length (pools_of c (subscribe client pool s)) ≤ limits c
unfolding subscribe get_subscription_count
subscribe_le client c pool s limits room h =
    rw (find-upsert client c (add_key pool) (pool ∷ []) s.client_pools)
      (elim (Bool-cases (client === c)) [
        | inl same ↦
            let here : client ≡ c = (number_eq.same_iff client c).0 same in
            let more = length-add_key pool (find c s.client_pools) in
            let free : leb (limits c) (get_subscription_count c s) ≡ false =
              ap (λ (k : ℕ). leb (limits k) (get_subscription_count k s)) (sym here) ∙ room in
            rw (same, here) (ground arith)
        | inr other ↦ rw other h
      ])

action_le :
    (client c : ℕ) (action : WsAction) (pool : String) (s : Subscriptions) (limits : ℕ → ℕ)
    → length (pools_of c s) ≤ limits c
    → length (pools_of c (perform_action client (limits client) action pool s).0) ≤ limits c
action_le client c subscribe_action pool s limits h =
    elim (Bool-cases (leb (limits client) (get_subscription_count client s))) [
      | inl full ↦ rw full h
      | inr room ↦ rw room (subscribe_le client c pool s limits room h)
    ]
action_le client c unsubscribe_action pool s limits h =
    let fewer = unsubscribe_le client c pool s in omega arith
action_le client c swap_action pool s limits h = h

message_le :
    (client c : ℕ) (principal : WsPrincipal) (action : Option WsAction) (pool : Option String)
    (s : Subscriptions) (limits : ℕ → ℕ)
    → length (pools_of c s) ≤ limits c
    → length (pools_of c (checked_message client principal (limits client) action pool s).0)
      ≤ limits c
message_le client c principal none pool s limits h = h
message_le client c principal (some action) none s limits h = h
message_le client c principal (some action) (some pool) s limits h =
    elim (Bool-cases (is_action_allowed principal action)) [
      | inl allowed ↦ rw allowed (action_le client c action pool s limits h)
      | inr forbidden ↦ rw forbidden h
    ]

event_le :
    (policy : WsAuthPolicy) (principals : ℕ → WsPrincipal) (client c : ℕ) (event : StreamEvent)
    (s : Subscriptions)
    → length (pools_of c s) ≤ subscription_limit_for (principals c) policy
    → length (pools_of c (on_client_event policy principals client event s))
      ≤ subscription_limit_for (principals c) policy
unfolding on_client_event handle_message remove_client
event_le policy principals client c (received msg) s h =
    message_le client c (principals client) msg.action msg.pool_id s
      (λ k. subscription_limit_for (principals k) policy) h
event_le policy principals client c closed s h =
    let fewer = removed_le client c s (find client s.client_pools) in omega arith

run_le :
    (policy : WsAuthPolicy) (principals : ℕ → WsPrincipal) (events : List (ℕ × StreamEvent)) (c : ℕ)
    (s : Subscriptions)
    → length (pools_of c s) ≤ subscription_limit_for (principals c) policy
    → length (pools_of c (run_stream_events policy principals events s))
      ≤ subscription_limit_for (principals c) policy
unfolding run_stream_events
run_le policy principals [] c s h = h
run_le policy principals ((client, event) ∷ rest) c s h =
    run_le policy principals rest c (on_client_event policy principals client event s)
      (event_le policy principals client c event s h)

-- Whatever messages the connections send and in whatever order they close, from no subscriptions, no
-- connection ever holds more subscriptions than the policy allows its principal.
pub run_stream_events-get_subscription_count :
    (policy : WsAuthPolicy) (principals : ℕ → WsPrincipal) (events : List (ℕ × StreamEvent))
    (client : ℕ)
    → get_subscription_count client (run_stream_events policy principals events no_subscriptions)
      ≤ subscription_limit_for (principals client) policy
unfolding get_subscription_count find subscription_limit_for
run_stream_events-get_subscription_count policy principals events client =
    run_le policy principals events client no_subscriptions (omega arith)
