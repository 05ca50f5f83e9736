-- ===== src/Api/AdminGuards/SingleInit.antt =====
-- How often `PoolInitGuard` of internal-key.guard.ts lets an initialisation through.
use swyft.Prelude.{
  ℕ, ◌+◌, ◌≤◌, ◌≡◌, ◌≢◌, ◌⊎◌, ◌==◌, refl, sym, ap, ◌∙◌, Bool, true, false, String, Option, none,
  some, List, [], ◌∷◌, Result, ok, err, arith, >>=-then, inl, inr, Bool-cases, if◌then◌else◌,
}
use swyft.Prelude.Number.{Number}
use swyft.Prelude.Equality.{◌===◌, string_eq}
use swyft.Api.KeyRing.{non_empty}
use swyft.Api.AdminGuards.{GuardError, reference_error, auth_not_configured, missing_key}
use swyft.Api.AdminGuards.PoolInit.{
  ReplayStore, NodeNames, InitRequest, pool_init_checks, pool_init_guard, claimed_with,
  claim_answer, safe_equal, or_thrown, granted_if, called,
}

-- A store that hands a key out once, as the injected interface promises.
pub record IsSingleUse {S : Type 0} (store : ReplayStore S) (used : S → String → Bool)
    : Type 0 where
  pub fresh : (k : String) (s : S) → (store.claim k s).1 ≡ some true → used s k ≡ false
  pub marks :
      (k : String) (s : S) → (store.claim k s).1 ≡ some true → used (store.claim k s).0 k ≡ true
  pub keeps : (k j : String) (s : S) → used s j ≡ true → used (store.claim k s).0 j ≡ true

abbrev pub is_granted : String → Result GuardError String → Result GuardError (Unit {0}) → ℕ
is_granted key (ok k) (ok _) = if k === key then 1 else 0
is_granted key _ _ = 0

module _ {S : Type 0} (store : ReplayStore S) (used : S → String → Bool)
    (law : IsSingleUse store used) (key : String) where
  abbrev open_slots : S → ℕ
  open_slots s = if used s key then 0 else 1

  claimed_open : (k : String) (s : S) → open_slots (store.claim k s).0 ≤ open_slots s
  claimed_open k s = elim (Bool-cases (used s key)) [
    | inl gone ↦ rw (gone, law.keeps k key s gone) (omega arith)
    | inr free ↦ rw free (ground arith)
  ]

  answered :
      (k : String) (s : S) (o : Option Bool)
      → (store.claim k s).1 ≡ o
      → is_granted key (ok k) (claim_answer o) + open_slots (store.claim k s).0 ≤ open_slots s
  answered k s none e = omega (arith, claimed_open k s)
  answered k s (some false) e = omega (arith, claimed_open k s)
  answered k s (some true) e = elim (Bool-cases (k === key)) [
    | inl same ↦
        let eq = (string_eq.same_iff k key).0 same in
        let free : used s key ≡ false = ap (used s) (sym eq) ∙ law.fresh k s e in
        let gone : used (store.claim k s).0 key ≡ true =
          ap (used (store.claim k s).0) (sym eq) ∙ law.marks k s e in
        rw (same, free, gone) (omega arith)
    | inr other ↦ rw other (omega (arith, claimed_open k s))
  ]

  claimed :
      (checks : Result GuardError String) (s : S)
      → is_granted key checks (claimed_with (some store) s checks).1
          + open_slots (claimed_with (some store) s checks).0
        ≤ open_slots s
  claimed (err code) s = omega arith
  claimed (ok k) s = answered k s (store.claim k s).1 refl

module _ {S : Type 0} (node : NodeNames) (number : String → Number) (now : ℕ) (auth : Option String)
    (store : ReplayStore S) where
  -- The requests for a key that are let through.
  unfoldable pub count_granted : String → List InitRequest → S → ℕ
  count_granted key [] s = 0
  count_granted key (r ∷ rest) s =
      is_granted key (pool_init_checks node number now auth r)
        (pool_init_guard node number now auth (some store) r s).1
      + count_granted key rest (pool_init_guard node number now auth (some store) r s).0

  -- With a store that hands each key out once: whatever requests arrive in whatever order, one of
  -- those for the same pool and nonce is let through at most, and none if the key was used before.
  pub count_granted_bounds :
      (used : S → String → Bool)
      → IsSingleUse store used
      → (key : String) (requests : List InitRequest) (s : S)
      → count_granted key requests s ≤ (if used s key then 0 else 1)
  unfolding count_granted pool_init_guard
  count_granted_bounds used law key [] s = ground arith
  count_granted_bounds used law key (r ∷ rest) s =
      let checks = pool_init_checks node number now auth r in
      let s' = (claimed_with (some store) s checks).0 in
      omega (arith, claimed store used law key checks s, count_granted_bounds used law key rest s')

abbrev is_some {ℓ} : {A : Type ℓ} → Option A → Bool
is_some none = false
is_some (some a) = true

no_name :
    (node : NodeNames) (a b : String) (equal : Bool)
    → node.timing_safe_equal ≡ none
    → safe_equal node a b ≡ ok equal
    → equal ≡ false
unfolding safe_equal
no_name node a b equal unbound h = elim (Bool-cases (node.byte_length a == node.byte_length b)) [
  | inl same ↦
      let thrown : err reference_error ≡ ok equal =
        sym (rw same (ap (λ (f : Option (String → String → Bool)). called f a b) unbound)) ∙ h in
      cc
  | inr other ↦ let answer : ok false ≡ ok equal = sym (rw other refl) ∙ h in cc
]

-- Without the name no check gets past the key.
checks_no_name :
    (node : NodeNames) (number : String → Number) (now : ℕ) (auth : Option String) (r : InitRequest)
    (k : String)
    → node.timing_safe_equal ≡ none
    → pool_init_checks node number now auth r ≢ ok k
unfolding pool_init_checks
checks_no_name node number now auth r k unbound h =
    >>=-then (or_thrown auth_not_configured (non_empty auth))
      (λ expected e1 h1.
        >>=-then (or_thrown missing_key (non_empty r.credentials.key))
          (λ key e2 h2.
            >>=-then (safe_equal node key expected)
              (λ equal e3 h3.
                >>=-then (granted_if equal)
                  (λ _ e4 h4.
                    let off = no_name node key expected equal unbound e3 in
                    let bad : granted_if false ≡ ok tt = ap granted_if (sym off) ∙ e4 in cc)
                  h3)
              h2)
          h1)
      h

closed_by_store :
    {S : Type 0} (store : Option (ReplayStore S)) (s : S) (checks : Result GuardError String)
    → is_some store ≡ false
    → (claimed_with store s checks).1 ≢ ok tt
closed_by_store none s (err code) off h = cc
closed_by_store none s (ok k) off h = cc
closed_by_store (some store) s checks off h = cc

closed_by_checks :
    {S : Type 0} (store : Option (ReplayStore S)) (s : S) (checks : Result GuardError String)
    → ((k : String) → checks ≢ ok k)
    → (claimed_with store s checks).1 ≢ ok tt
closed_by_checks store s (err code) never h = cc
closed_by_checks store s (ok k) never h = never k refl

-- Where nothing binds `timingSafeEqual`, as in this file, or where no store is injected, no request is
-- let through, whatever its credentials.
pub pool_init_guard-closed :
    {S : Type 0} (node : NodeNames) (number : String → Number) (now : ℕ) (auth : Option String)
    (store : Option (ReplayStore S)) (r : InitRequest) (s : S)
    → (node.timing_safe_equal ≡ none) ⊎ (is_some store ≡ false)
    → (pool_init_guard node number now auth store r s).1 ≢ ok tt
unfolding pool_init_guard
pool_init_guard-closed node number now auth store r s (inl unbound) =
    closed_by_checks store s (pool_init_checks node number now auth r)
      (λ k. checks_no_name node number now auth r k unbound)
pool_init_guard-closed node number now auth store r s (inr missing) =
    closed_by_store store s (pool_init_checks node number now auth r) missing
