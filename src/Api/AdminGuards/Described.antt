-- ===== src/Api/AdminGuards/Described.antt =====
-- Keys and expiries that internal-key.guard.ts accepts, described without its own steps.
use swyft.Prelude.{
  ℕ, ◌≤◌, ◌<◌, ◌≡◌, ◌↔◌, ◌⊎◌, inl, inr, refl, sym, ◌∙◌, arith, Bool, true, false, not, ◌&&◌, String,
  Option, none, some, Bool-cases, ltb, if◌then◌else◌, subst,
}
use swyft.Prelude.BigInt.{pos, negsuc}
use swyft.Prelude.Number.{Number, int, fraction, not_finite}
use swyft.Prelude.Equality.{Eq, ◌===◌, string_eq}
use swyft.Api.KeyRing.{
  KeyRingDenial, KeySlot, current_slot, previous_slot, KeyRingMatch, matched, denied, non_empty,
  match_key_ring, match_configured, load_key_ring, parsed_date, match_previous, is_after,
}
use swyft.Api.AdminGuards.{RingEnv, load_ring, is_past}

-- The ring that counts matches a slot.
abbrev pub Matches : KeyRingMatch → Type 0
Matches answer = (slot : KeySlot) × (answer ≡ matched slot)

-- A finite number above `now`.
abbrev pub IsAfter : ℕ → Number → Type 0
IsAfter now (int (pos m)) = now < m
IsAfter now (int (negsuc m)) = ⊥
IsAfter now (fraction (pos m)) = now ≤ m
IsAfter now (fraction (negsuc m)) = ⊥
IsAfter now not_finite = ⊥

pub is_past-IsAfter : (now : ℕ) (n : Number) → (is_past now n ≡ false) ↔ IsAfter now n
is_past-IsAfter now (int (pos m)) = (λ h. ground arith, λ h. ground arith)
is_past-IsAfter now (int (negsuc m)) = (λ h. cc, λ h. absurd h)
is_past-IsAfter now (fraction (pos m)) = (λ h. ground arith, λ h. ground arith)
is_past-IsAfter now (fraction (negsuc m)) = (λ h. cc, λ h. absurd h)
is_past-IsAfter now not_finite = (λ h. cc, λ h. absurd h)

non_empty-full : (o : Option String) (t : String) → non_empty o ≡ some t → (t === "") ≡ false
non_empty-full none t h = cc
non_empty-full (some u) t h = ground (arith, string_eq.same_iff u t)

within :
    (empty same early : Bool) (slot : KeySlot)
    → (if not empty && same
        then (if early then matched previous_slot else denied KeyRingDenial.previous_expired)
        else denied KeyRingDenial.invalid)
      ≡ matched slot
    → (same ≡ true) × (early ≡ true)
within true same early slot h = cc
within false false early slot h = cc
within false true false slot h = cc
within false true true slot h = (refl, refl)

is_after-some :
    (at : Option ℕ) (now : ℕ) → is_after at now ≡ true → (end : ℕ) × (at ≡ some end) × (now < end)
is_after-some none now h = cc
is_after-some (some end) now h = (end, refl, ground arith)

clash : {b : Bool} → b ≡ true → b ≡ false → ⊥
clash h k = cc

no_match : {m : KeyRingMatch} (reason : KeyRingDenial) → m ≡ denied reason → Matches m → ⊥
no_match reason e h = let both : denied reason ≡ matched h.0 = sym e ∙ h.1 in cc

no_text : {o : Option String} {t : String} → o ≡ none → o ≡ some t → ⊥
no_text e h = let both = sym e ∙ h in cc

some_text : {s t : String} → ◌≡◌ {A = Option String} (some s) (some t) → t ≡ s
some_text h = cc

module _ {D : Type 0} ⦃eq : Eq D⦄ (digest : String → D) where
  -- The presented text has the digest of the current one, or that of the previous one before `at`.
  abbrev pub Opens : String → Option String → Option ℕ → String → ℕ → Type 0
  Opens current previous at presented now =
      (digest presented ≡ digest current)
      ⊎ ((old : String) × (end : ℕ) × (previous ≡ some old)
          × (digest presented ≡ digest old)
          × (at ≡ some end)
          × (now < end))

  match_previous-Opens :
      (current : String) (previous : Option String) (at : Option ℕ) (presented : String) (now : ℕ)
      (slot : KeySlot)
      → match_previous digest previous at presented now ≡ matched slot
      → Opens current previous at presented now
  match_previous-Opens current none at presented now slot h = cc
  match_previous-Opens current (some old) at presented now slot h =
      let (same, early) =
        within (old === "") (digest presented === digest old) (is_after at now) slot h in
      let (end, there, before) = is_after-some at now early in
      inr (old, end, refl, (eq.same_iff (digest presented) (digest old)).0 same, there, before)

  opens_previous :
      (old : String) (end : ℕ) (presented : String) (now : ℕ)
      → (old === "") ≡ false
      → digest presented ≡ digest old
      → now < end
      → match_previous digest (some old) (some end) presented now ≡ matched previous_slot
  opens_previous old end presented now full same before =
      let early : ltb now end ≡ true = ground arith in
      rw (full, (eq.same_iff (digest presented) (digest old)).1 same, early) refl

  passed_on :
      (current : String) (previous : Option String) (at : Option ℕ) (presented : String) (now : ℕ)
      → (current === "") ≡ false
      → (presented === "") ≡ false
      → (digest presented === digest current) ≡ false
      → match_configured digest
          (some current)
          (record { current = some current; previous = previous; previous_expires_at = at })
          (some presented)
          now
        ≡ match_previous digest previous at presented now
  passed_on current previous at presented now full named differs = rw (full, named, differs) refl

  match_configured-Opens :
      (current : String) (previous : Option String) (at : Option ℕ) (presented : String) (now : ℕ)
      → (current === "") ≡ false
      → (presented === "") ≡ false
      → ((old : String) → previous ≡ some old → (old === "") ≡ false)
      → Matches (
          match_configured digest
            (some current)
            (record { current = some current; previous = previous; previous_expires_at = at })
            (some presented)
            now)
        ↔ Opens current previous at presented now
  match_configured-Opens current previous at presented now full named old_full =
      elim (Bool-cases (digest presented === digest current)) [
        | inl same ↦ (
          λ h. inl ((eq.same_iff (digest presented) (digest current)).0 same),
          λ h. rw (full, named, same) (current_slot, refl),
        )
        | inr differs ↦ (
          λ h. match_previous-Opens current previous at presented now h.0 (
              subst (λ (m : KeyRingMatch). m ≡ matched h.0)
                (passed_on current previous at presented now full named differs) h.1),
          λ h. elim h [
            | inl same ↦
                absurd (clash ((eq.same_iff (digest presented) (digest current)).1 same) differs)
            | inr (old, end, there, same, until, before) ↦ (
              previous_slot,
              passed_on current previous at presented now full named differs
                  ∙ rw (there, until)
                      (opens_previous old end presented now (old_full old there) same before),
            )
          ],
        )
      ]

  -- The ring is configured, and the presented text opens it. An empty text counts as a missing one.
  abbrev pub AcceptsKey : (String → Option ℕ) → RingEnv → Option String → ℕ → Type 0
  AcceptsKey date_parse env key now =
      (current : String) × (presented : String) × (non_empty env.current ≡ some current)
      × (non_empty key ≡ some presented)
      × Opens current (non_empty env.previous)
          (parsed_date date_parse (non_empty env.previous_expires_at)) presented now

  accepted :
      (set : Option String) (previous : Option String) (at : Option ℕ) (key : Option String)
      (now : ℕ)
      → ((c : String) → set ≡ some c → (c === "") ≡ false)
      → ((old : String) → previous ≡ some old → (old === "") ≡ false)
      → Matches (
          match_configured digest set
            (record { current = set; previous = previous; previous_expires_at = at })
            key
            now)
        ↔ ((current : String) × (presented : String) × (set ≡ some current)
            × (non_empty key ≡ some presented)
            × Opens current previous at presented now)
  accepted none previous at key now full old_full = (
    λ h. let e : denied KeyRingDenial.not_configured ≡ matched h.0 = h.1 in cc,
    λ h. let e : none ≡ some h.0 = h.2 in cc,
  )
  accepted (some c) previous at none now full old_full = (
    λ h. absurd (no_match KeyRingDenial.missing (rw (full c refl) refl) h),
    λ h. let e : none ≡ some h.1 = h.3 in cc,
  )
  accepted (some c) previous at (some p) now full old_full = elim (Bool-cases (p === "")) [
    | inl empty ↦ (
      λ h. absurd (no_match KeyRingDenial.missing (rw (full c refl, empty) refl) h),
      λ h. absurd (no_text (rw (empty) refl) h.3),
    )
    | inr named ↦
        let opens = match_configured-Opens c previous at p now (full c refl) named old_full in
        let given : non_empty (some p) ≡ some p = rw (named) refl in
        (
          λ h. (c, p, refl, given, opens.0 h),
          λ h. opens.1 (
              subst (λ (t : String). Opens c previous at t now) (some_text (sym given ∙ h.3))
                (subst (λ (t : String). Opens t previous at h.1 now) (some_text h.2) h.4)),
        )
  ]

  pub match_key_ring-AcceptsKey :
      (date_parse : String → Option ℕ) (env : RingEnv) (key : Option String) (now : ℕ)
      → Matches (match_key_ring digest key (load_ring date_parse env) now)
        ↔ AcceptsKey date_parse env key now
  unfolding match_key_ring load_key_ring
  match_key_ring-AcceptsKey date_parse env key now =
      accepted (non_empty env.current) (non_empty env.previous)
        (parsed_date date_parse (non_empty env.previous_expires_at)) key now
        (non_empty-full env.current) (non_empty-full env.previous)
