-- ===== src/Api/AdminGuards/Tests.antt =====
-- Runs of internal-key.guard.ts and instances of its theorems, with the identity for the digest.
use swyft.Prelude.{
  ℕ, ◌≤◌, ◌≡◌, ◌≢◌, refl, arith, inl, Bool, true, false, String, Option, none, some, List, [], ◌∷◌,
  ok, err,
}
use swyft.Prelude.BigInt.{pos}
use swyft.Prelude.Number.{Number, int}
use swyft.Prelude.Equality.{◌===◌, string_eq, ===_refl}
use swyft.Prelude.Counted.{has_key}
use swyft.Api.KeyRing.{match_key_ring, load_key_ring}
use swyft.Api.AdminGuards.{
  RingEnv, Credentials, internal_key_guard, testnet_redeploy_guard, wrong_role, check_role,
  check_expiry, or_text,
}
use swyft.Api.AdminGuards.Described.{AcceptsKey}
use swyft.Api.AdminGuards.Entrance.{
  absent_or, IsOpenUntil, internal_key_guard-AcceptsKey, testnet_redeploy_guard-AcceptsKey,
}
use swyft.Api.AdminGuards.PoolInit.{
  ReplayStore, NodeNames, InitRequest, pool_init_guard, safe_equal, pool_init_checks,
}
use swyft.Api.AdminGuards.SingleInit.{
  IsSingleUse, count_granted, count_granted_bounds, pool_init_guard-closed,
}

abbrev plain : String → String
plain text = text

abbrev no_date : String → Option ℕ
no_date text = none

abbrev nine : String → Number
nine text = int (pos 9)

abbrev ring_env : RingEnv
ring_env = record { current = some "k"; previous = none; previous_expires_at = none }

abbrev unset : RingEnv
unset = record { current = none; previous = none; previous_expires_at = none }

abbrev caller : Option String → Credentials
caller role = record { key = some "k"; role = role; expires_at = some "9" }

entered_run : internal_key_guard plain no_date nine 5 unset ring_env (caller none) ≡ ok tt
unfolding internal_key_guard match_key_ring load_key_ring check_role check_expiry
entered_run = refl

other_role_run :
    internal_key_guard plain no_date nine 5 unset ring_env (caller (some "reader")) ≡ err wrong_role
unfolding internal_key_guard match_key_ring load_key_ring check_role check_expiry
other_role_run = refl

-- A header that names the testnet hides another network in the body.
hidden_network_run :
    testnet_redeploy_guard plain no_date nine 5 ring_env
      (some "testnet")
      (some "mainnet")
      (caller none)
    ≡ ok tt
unfolding testnet_redeploy_guard match_key_ring load_key_ring check_role check_expiry
hidden_network_run = refl

internal_key_guard-AcceptsKey_example :
    AcceptsKey plain no_date ring_env (some "k") 5
    × (absent_or "fee-collector" none ≡ true)
    × IsOpenUntil nine 5 (some "9")
internal_key_guard-AcceptsKey_example =
    (internal_key_guard-AcceptsKey plain no_date nine 5 unset ring_env (caller none)).0 entered_run

testnet_redeploy_guard-AcceptsKey_example :
    (absent_or "testnet" (or_text (some "testnet") (some "mainnet")) ≡ true)
    × AcceptsKey plain no_date ring_env (some "k") 5
    × (absent_or "testnet-redeployer" none ≡ true)
    × IsOpenUntil nine 5 (some "9")
testnet_redeploy_guard-AcceptsKey_example =
    (testnet_redeploy_guard-AcceptsKey plain no_date nine 5 ring_env (some "testnet")
        (some "mainnet") (caller none)).0
      hidden_network_run

-- A store that keeps the keys in a list.
abbrev answered : Bool → String → List String → List String × Option Bool
answered true key keys = (keys, some false)
answered false key keys = (key ∷ keys, some true)

abbrev listed : ReplayStore (List String)
listed = record { claim = λ key keys. answered (has_key key keys) key keys }

abbrev used_in : List String → String → Bool
used_in keys key = has_key key keys

listed_fresh :
    (b : Bool) (k : String) (s : List String) → (answered b k s).1 ≡ some true → b ≡ false
listed_fresh true k s h = cc
listed_fresh false k s h = refl

listed_marks :
    (b : Bool) (k : String) (s : List String)
    → (answered b k s).1 ≡ some true
    → used_in (answered b k s).0 k ≡ true
listed_marks true k s h = cc
listed_marks false k s h = rw (===_refl k) refl

listed_keeps :
    (b : Bool) (k j : String) (s : List String)
    → used_in s j ≡ true
    → used_in (answered b k s).0 j ≡ true
listed_keeps true k j s h = h
listed_keeps false k j s h = ground arith

listed-IsSingleUse : IsSingleUse listed used_in
listed-IsSingleUse = record {
  fresh = λ k s. listed_fresh (has_key k s) k s;
  marks = λ k s. listed_marks (has_key k s) k s;
  keeps = λ k j s. listed_keeps (has_key k s) k j s;
}

abbrev node : NodeNames
node = record { byte_length = λ t. 1; timing_safe_equal = some (λ a b. a === b) }

abbrev unbound : NodeNames
unbound = record { byte_length = λ t. 1; timing_safe_equal = none }

abbrev init : InitRequest
init = record {
  credentials = caller none;
  header_pool_id = some "p";
  body_pool_id = none;
  nonce = some "1";
}

one_init_run : count_granted node nine 5 (some "k") listed "pool-init:p:1" (init ∷ init ∷ []) [] ≡ 1
unfolding count_granted pool_init_guard pool_init_checks safe_equal check_role check_expiry
one_init_run = refl

count_granted_bounds_example :
    count_granted node nine 5 (some "k") listed "pool-init:p:1" (init ∷ init ∷ []) [] ≤ 1
count_granted_bounds_example =
    count_granted_bounds node nine 5 (some "k") listed used_in listed-IsSingleUse "pool-init:p:1"
      (init ∷ init ∷ []) []

pool_init_guard-closed_example :
    (pool_init_guard unbound nine 5 (some "k") (some listed) init []).1 ≢ ok tt
pool_init_guard-closed_example =
    pool_init_guard-closed unbound nine 5 (some "k") (some listed) init [] (inl refl)
