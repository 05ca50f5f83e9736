-- ===== src/Api/KeyRing/Windows.antt =====
-- Who gets in, and for how long after a rotation.
use swyft.Prelude.{
  ℕ, ◌+◌, ◌<◌, ◌≡◌, refl, true, false, not, ◌&&◌, String, Option, none, some, List, [], ◌∷◌, ◌++◌,
  if◌then◌else◌, Bool-cases, inl, inr, arith, ap, subst,
}
use swyft.Prelude.Equality.{Eq, ◌===◌, string_eq}
use swyft.Api.KeyRing.{
  current_slot, previous_slot, KeyRingMatch, matched, denied, invalid, previous_expired, KeyRing,
  is_after, match_key_ring, match_configured, match_current, match_previous, max_rotation_window_ms,
  key_ring_config_problems, expiry_problems, previous_problems, other_problems, expiry_set,
  problems_of,
}

-- What a ring grants for a text, by comparison of the texts themselves.
abbrev pub granted_previous : Option String → Option ℕ → String → ℕ → KeyRingMatch
granted_previous none expires_at presented now = denied invalid
granted_previous (some previous) expires_at presented now =
    if not (previous === "") && presented === previous
    then (if is_after expires_at now then matched previous_slot else denied previous_expired)
    else denied invalid

abbrev pub granted_text : String → KeyRing → String → ℕ → KeyRingMatch
granted_text current ring presented now =
    if presented === current
    then matched current_slot
    else granted_previous ring.previous ring.previous_expires_at presented now

module _ {D : Type 0} ⦃eq : Eq D⦄ (digest : String → D) (presented : String)
    (no_collision : (t : String) → digest presented ≡ digest t → presented ≡ t) where
  digest_same : (t : String) → (digest presented === digest t) ≡ (presented === t)
  digest_same t = elim (Bool-cases (presented === t)) [
    | inl same ↦ rw (same) (
        (eq.same_iff (digest presented) (digest t)).1
          (ap digest ((string_eq.same_iff presented t).0 same)))
    | inr other ↦ elim (Bool-cases (digest presented === digest t)) [
      | inl d ↦
          let same : (presented === t) ≡ true =
            (string_eq.same_iff presented t).1
              (no_collision t ((eq.same_iff (digest presented) (digest t)).0 d)) in
          rw (d, same)
      | inr d ↦ rw (d, other)
    ]
  ]

  match_previous-eq :
      (previous : Option String) (at : Option ℕ) (now : ℕ)
      → match_previous digest previous at presented now ≡ granted_previous previous at presented now
  match_previous-eq none at now = refl
  match_previous-eq (some previous) at now = rw (digest_same previous)

  match_current-eq :
      (current : String) (ring : KeyRing) (now : ℕ)
      → (presented === "") ≡ false
      → match_current digest current ring (some presented) now
        ≡ granted_text current ring presented now
  match_current-eq current ring now full =
      rw (full, digest_same current, match_previous-eq ring.previous ring.previous_expires_at now)

  -- Where the presented text has the digest of no other text, a ring with a current key judges it by
  -- equality with the keys themselves: the current key always enters, the previous one before its
  -- expiry only, and nothing else does.
  pub match_key_ring-texts :
      (current : String) (previous : Option String) (at : Option ℕ) (now : ℕ)
      → (current === "") ≡ false
      → (presented === "") ≡ false
      → match_key_ring digest
          (some presented)
          (record { current = some current; previous = previous; previous_expires_at = at })
          now
        ≡ granted_text current
            (record { current = some current; previous = previous; previous_expires_at = at })
            presented
            now
  unfolding match_key_ring
  match_key_ring-texts current previous at now full full' = rw (full) (
      match_current-eq current
        (record { current = some current; previous = previous; previous_expires_at = at }) now
        full')

append-nil {ℓ} : {A : Type ℓ} (xs ys : List A) → xs ++ ys ≡ [] → ys ≡ []
append-nil [] ys h = h
append-nil (x ∷ xs) ys h = cc

expiry_bound :
    (at : Option ℕ) (boot now : ℕ)
    → expiry_problems at boot ≡ []
    → is_after at now ≡ true
    → now < boot + max_rotation_window_ms
expiry_bound none boot now sound fresh = ground arith
expiry_bound (some at) boot now sound fresh = ground arith

module _ {D : Type 0} ⦃eq : Eq D⦄ (digest : String → D) where
  previous_fresh :
      (o : Option String) (at : Option ℕ) (presented : String) (now : ℕ)
      → match_previous digest o at presented now ≡ matched previous_slot
      → is_after at now ≡ true
  previous_fresh none at presented now accepted = ground arith
  previous_fresh (some previous) at presented now accepted = ground arith

  previous_bound :
      (o expires_raw : Option String) (ring : KeyRing) (presented : String) (boot now : ℕ)
      → problems_of o expires_raw ring boot ≡ []
      → match_previous digest o ring.previous_expires_at presented now ≡ matched previous_slot
      → now < boot + max_rotation_window_ms
  previous_bound none expires_raw ring presented boot now sound accepted = ground arith
  previous_bound (some previous) expires_raw ring presented boot now sound accepted =
      elim (Bool-cases (previous === "")) [
        | inl blank ↦ ground arith
        | inr full ↦
            let all : previous_problems previous ring boot ≡ [] =
              subst
                (λ b.
                  (if b then expiry_set expires_raw else previous_problems previous ring boot) ≡ [])
                full sound in
            expiry_bound ring.previous_expires_at boot now
              (append-nil (other_problems previous ring)
                (expiry_problems ring.previous_expires_at boot) all)
              (previous_fresh (some previous) ring.previous_expires_at presented now accepted)
      ]

  current_bound :
      (current : String) (ring : KeyRing) (expires_raw presented : Option String) (boot now : ℕ)
      → problems_of ring.previous expires_raw ring boot ≡ []
      → match_current digest current ring presented now ≡ matched previous_slot
      → now < boot + max_rotation_window_ms
  current_bound current ring expires_raw none boot now sound accepted = ground arith
  current_bound current ring expires_raw (some presented) boot now sound accepted =
      previous_bound ring.previous expires_raw ring presented boot now sound (ground arith)

  configured_bound :
      (o : Option String) (ring : KeyRing) (expires_raw presented : Option String) (boot now : ℕ)
      → problems_of ring.previous expires_raw ring boot ≡ []
      → match_configured digest o ring presented now ≡ matched previous_slot
      → now < boot + max_rotation_window_ms
  configured_bound none ring expires_raw presented boot now sound accepted = ground arith
  configured_bound (some current) ring expires_raw presented boot now sound accepted =
      current_bound current ring expires_raw presented boot now sound (ground arith)

  -- A ring whose configuration shows no problem at the time of the boot: if its previous key is
  -- accepted at some time, this is within seven days of the boot.
  pub match_key_ring-window :
      (ring : KeyRing) (expires_raw presented : Option String) (boot now : ℕ)
      → key_ring_config_problems expires_raw ring boot ≡ []
      → match_key_ring digest presented ring now ≡ matched previous_slot
      → now < boot + max_rotation_window_ms
  unfolding key_ring_config_problems match_key_ring
  match_key_ring-window ring expires_raw presented boot now sound accepted =
      configured_bound ring.current ring expires_raw presented boot now sound accepted
