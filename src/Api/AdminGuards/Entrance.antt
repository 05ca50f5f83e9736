-- ===== src/Api/AdminGuards/Entrance.antt =====
-- Whom the guards of internal-key.guard.ts let in.
use swyft.Prelude.{
  ℕ, ◌≡◌, ◌↔◌, ◌⊎◌, inl, inr, subst, sym, ◌∙◌, Bool-cases, refl, Bool, true, false, String, Option,
  none, some, Result, ok, err, arith, if◌then◌else◌, ◌>>◌,
}
use swyft.Prelude.Number.{Number}
use swyft.Prelude.Equality.{Eq, ◌===◌, string_eq}
use swyft.Api.KeyRing.{KeyRingMatch, match_key_ring, matched, denied}
use swyft.Api.AdminGuards.Described.{
  Matches, IsAfter, is_past-IsAfter, AcceptsKey, match_key_ring-AcceptsKey,
}
use swyft.Api.KeyRing.{non_empty}
use swyft.Api.AdminGuards.{
  expired, GuardError, RingEnv, Credentials, ring_answer, check_role, check_expiry, is_past,
  load_ring, is_defined, or_text, check_network, internal_key_guard, testnet_redeploy_guard,
  check_key_ring,
}

-- No text, or the wanted one.
abbrev pub absent_or : String → Option String → Bool
absent_or wanted none = true
absent_or wanted (some t) = if t === "" then true else t === wanted

-- No expiry, or a finite number in the future.
abbrev pub IsOpenUntil : (String → Number) → ℕ → Option String → Type 0
IsOpenUntil number now at =
    (non_empty at ≡ none) ⊎ ((t : String) × (non_empty at ≡ some t) × IsAfter now (number t))

ring_answer-Matches : (m : KeyRingMatch) → (ring_answer m ≡ ok tt) ↔ Matches m
ring_answer-Matches (matched slot) = (λ h. (slot, refl), λ h. refl)
ring_answer-Matches (denied reason) =
    (λ h. cc, λ h. let e : denied reason ≡ matched h.0 = h.1 in cc)

check_role-absent_or :
    (wanted : String) (role : Option String)
    → (check_role wanted role ≡ ok tt) ↔ (absent_or wanted role ≡ true)
unfolding check_role
check_role-absent_or wanted none = (λ h. refl, λ h. refl)
check_role-absent_or wanted (some role) = ground arith

text_same : {s t : String} → ◌≡◌ {A = Option String} (some s) (some t) → t ≡ s
text_same h = cc

ok_or_expired :
    (b : Bool)
    → ◌≡◌ {A = Result GuardError (Unit {0})} (if b then err expired else ok tt) (ok tt)
      ↔ (b ≡ false)
ok_or_expired true = (λ h. cc, λ h. cc)
ok_or_expired false = (λ h. refl, λ h. refl)

check_expiry-IsOpenUntil :
    (number : String → Number) (now : ℕ) (at : Option String)
    → (check_expiry number now at ≡ ok tt) ↔ IsOpenUntil number now at
unfolding check_expiry
check_expiry-IsOpenUntil number now none = (λ h. inl refl, λ h. refl)
check_expiry-IsOpenUntil number now (some at) = elim (Bool-cases (at === "")) [
  | inl empty ↦ (λ h. inl (rw (empty) refl), λ h. rw (empty) refl)
  | inr full ↦
      let given : non_empty (some at) ≡ some at = rw (full) refl in
      let unexpired = ok_or_expired (is_past now (number at)) in
      let after = is_past-IsAfter now (number at) in
      (
        λ h. inr (at, given, after.0 (unexpired.0 (sym (rw (full) refl) ∙ h))),
        λ h. elim h [
          | inl e ↦ let both : none ≡ some at = sym e ∙ given in cc
          | inr (t, e, later) ↦ rw (full) (
              unexpired.1 (
                after.1 (
                  subst (λ (u : String). IsAfter now (number u)) (text_same (sym given ∙ e))
                    later)))
        ],
      )
]

check_network-absent_or :
    (network : Option String)
    → (check_network network ≡ ok tt) ↔ (absent_or "testnet" network ≡ true)
check_network-absent_or none = (λ h. refl, λ h. refl)
check_network-absent_or (some network) = ground arith

-- A step and the rest both pass, or the whole does not.
then_ok :
    (m rest : Result GuardError (Unit {0})) → ((m >> rest) ≡ ok tt) ↔ ((m ≡ ok tt) × (rest ≡ ok tt))
then_ok (err code) rest = (λ h. cc, λ h. cc)
then_ok (ok _) rest = (λ h. (refl, h), λ h. h.1)

module _ {D : Type 0} ⦃eq : Eq D⦄ (digest : String → D) (date_parse : String → Option ℕ)
    (number : String → Number) (now : ℕ) where
  ring_ok :
      (key : Option String) (env : RingEnv)
      → (check_key_ring digest date_parse number now key env ≡ ok tt)
        ↔ AcceptsKey digest date_parse env key now
  ring_ok key env =
      let answer = ring_answer-Matches (match_key_ring digest key (load_ring date_parse env) now) in
      let accepted = match_key_ring-AcceptsKey digest date_parse env key now in
      (λ h. accepted.0 (answer.0 h), λ h. answer.1 (accepted.1 h))

  checks_ok :
      (ring : Result GuardError (Unit {0})) (wanted : String) (c : Credentials)
      → ((ring >> (check_role wanted c.role >> check_expiry number now c.expires_at)) ≡ ok tt)
        ↔ ((ring ≡ ok tt) × (absent_or wanted c.role ≡ true) × IsOpenUntil number now c.expires_at)
  checks_ok ring wanted c =
      let role = check_role wanted c.role in
      let expiry = check_expiry number now c.expires_at in
      (
        λ h.
            let outer = (then_ok ring (role >> expiry)).0 h in
            let inner = (then_ok role expiry).0 outer.1 in
            (
              outer.0,
              (check_role-absent_or wanted c.role).0 inner.0,
              (check_expiry-IsOpenUntil number now c.expires_at).0 inner.1,
            ),
        λ h. (then_ok ring (role >> expiry)).1 (
          h.0,
          (then_ok role expiry).1 (
            (check_role-absent_or wanted c.role).1 h.1,
            (check_expiry-IsOpenUntil number now c.expires_at).1 h.2,
          ),
        ),
      )

  -- The guard of the fee collector lets a request in exactly when its key has the digest of the
  -- current key of the ring, or before the end of the rotation that of the previous key, where the
  -- ring is FEE_COLLECTOR_AUTH if that is defined and INTERNAL_API_KEY otherwise and has a current
  -- key; its role is missing or fee-collector; and its expiry is missing or a finite number in the
  -- future.
  pub internal_key_guard-AcceptsKey :
      (fee internal : RingEnv) (c : Credentials)
      → (internal_key_guard digest date_parse number now fee internal c ≡ ok tt) ↔ (
          AcceptsKey digest date_parse (if is_defined fee.current then fee else internal) c.key now
          × (absent_or "fee-collector" c.role ≡ true)
          × IsOpenUntil number now c.expires_at)
  unfolding internal_key_guard
  internal_key_guard-AcceptsKey fee internal c =
      let env : RingEnv = if is_defined fee.current then fee else internal in
      let ring = ring_ok c.key env in
      let checks =
        checks_ok (check_key_ring digest date_parse number now c.key env) "fee-collector" c in
      (λ h. let r = checks.0 h in (ring.0 r.0, r.1, r.2), λ h. checks.1 (ring.1 h.0, h.1, h.2))

  -- The guard of the testnet redeployment lets a request in exactly when no network is named, or the
  -- testnet, by the header or else by the body, its key opens the ring TESTNET_REDEPLOY_AUTH, its
  -- role is missing or testnet-redeployer, and its expiry is missing or a number in the future.
  pub testnet_redeploy_guard-AcceptsKey :
      (env : RingEnv) (header body : Option String) (c : Credentials)
      → (testnet_redeploy_guard digest date_parse number now env header body c ≡ ok tt) ↔ (
          (absent_or "testnet" (or_text header body) ≡ true)
          × AcceptsKey digest date_parse env c.key now
          × (absent_or "testnet-redeployer" c.role ≡ true)
          × IsOpenUntil number now c.expires_at)
  unfolding testnet_redeploy_guard
  testnet_redeploy_guard-AcceptsKey env header body c =
      let network = check_network-absent_or (or_text header body) in
      let ring = ring_ok c.key env in
      let inner = check_key_ring digest date_parse number now c.key env in
      let checks = checks_ok inner "testnet-redeployer" c in
      let whole = then_ok (check_network (or_text header body)) (
        inner
        >> (check_role "testnet-redeployer" c.role >> check_expiry number now c.expires_at)) in
      (
        λ h. let w = whole.0 h in let r = checks.0 w.1 in (network.0 w.0, ring.0 r.0, r.1, r.2),
        λ h. whole.1 (network.1 h.0, checks.1 (ring.1 h.1, h.2, h.3)),
      )
