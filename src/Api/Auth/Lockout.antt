-- ===== src/Api/Auth/Lockout.antt =====
-- Requests with no other one in between: what each branch of `verifyWallet` leaves behind.
use text.Mathlib.TextEquality.{eq_iff}
use swyft.Prelude.{
  ℕ, zero, suc, ◌+◌, ◌≤◌, ◌≡◌, ◌≢◌, refl, false, String, Option, none, some, List, [], ◌∷◌, All,
  length, arith, if◌then◌else◌, inl, inr, leb, subst, Bool-cases, ◌==◌, ap, ◌∙◌,
}
use swyft.Prelude.Equality.{◌===◌, string_eq, ===_refl}
use swyft.Prelude.Table.{find, upsert, remove, find-upsert, find-remove, changed}
use swyft.Api.Auth.{
  Code, Outcome, token, rejected, nonce_unknown, nonce_mismatch, too_many_attempts, VerifyWalletDto,
  Store, Phase, consume, count_failure, finished, SignatureCheck, after_lookup, judge, after_incr,
  consume_nonce, step, run, verify_wallet, issue_nonce, incremented,
}

-- The code with which a request is refused for a stored nonce, if it is.
abbrev pub refusal : SignatureCheck → String → VerifyWalletDto → Option Code
refusal check stored dto = if stored === dto.nonce then check dto else some nonce_mismatch

abbrev pub without_nonce : String → Store → Store
without_nonce wallet s = record s { nonces = remove wallet s.nonces }

abbrev pub without_attempts : String → Store → Store
without_attempts wallet s = record s { attempts = remove wallet s.attempts }

abbrev pub counted : String → Store → Store
counted wallet s = record s { attempts = upsert wallet suc 1 s.attempts }

-- What `registerFailedAttempt` and the error after it amount to.
abbrev pub refused : ℕ → Code → String → Store → Store × Phase
refused limit code wallet s =
    if leb limit (incremented (find wallet s.attempts))
    then (
      without_attempts wallet (without_nonce wallet (counted wallet s)),
      finished (rejected too_many_attempts),
    )
    else (counted wallet s, finished (rejected code))

abbrev pub answer : SignatureCheck → ℕ → VerifyWalletDto → Store → Option String → Store × Phase
answer check limit dto s none = (s, finished (rejected nonce_unknown))
answer check limit dto s (some stored) =
    if stored === ""
    then (s, finished (rejected nonce_unknown))
    else elim (refusal check stored dto) [
      | none ↦ (
        without_attempts dto.wallet_address (without_nonce dto.wallet_address s),
        finished (token dto.wallet_address),
      )
      | some code ↦ refused limit code dto.wallet_address s
    ]

module _ (check : SignatureCheck) (limit : ℕ) where
  run-finished :
      (n : ℕ) (dto : VerifyWalletDto) (s : Store) (o : Outcome)
      → run check limit n dto (s, finished o) ≡ (s, finished o)
  unfolding run step
  run-finished zero dto s o = refl
  run-finished (suc n) dto s o = run-finished n dto s o

  run-judge :
      (n : ℕ) (dto : VerifyWalletDto) (s : Store) (code : Code) (attempts : ℕ)
      → run check limit (suc (suc (suc n))) dto (s, judge check limit code attempts) ≡ (
          if leb limit attempts
          then (
            without_attempts dto.wallet_address (without_nonce dto.wallet_address s),
            finished (rejected too_many_attempts),
          )
          else (s, finished (rejected code)))
  unfolding run step judge
  run-judge n dto s code attempts = elim (Bool-cases (leb limit attempts)) [
    | inl over ↦ rw (over, run-finished n)
    | inr under ↦ rw (under, run-finished (suc (suc n)))
  ]

  run-failure :
      (n : ℕ) (dto : VerifyWalletDto) (s : Store) (code : Code)
      → run check limit (suc (suc (suc (suc (suc (suc n)))))) dto (s, count_failure code)
        ≡ refused limit code dto.wallet_address s
  unfolding run step after_incr
  run-failure n dto s code =
      elim (Bool-cases (incremented (find dto.wallet_address s.attempts) == 1)) [
        | inl first ↦ rw (first, run-judge n dto (counted dto.wallet_address s) code)
        | inr later ↦ rw (later, run-judge (suc (suc n)) dto (counted dto.wallet_address s) code)
      ]

  run-consume :
      (dto : VerifyWalletDto) (s : Store)
      → find dto.wallet_address s.nonces ≡ some dto.nonce
      → run check limit 6 dto (s, consume) ≡ (
        without_attempts dto.wallet_address (without_nonce dto.wallet_address s),
        finished (token dto.wallet_address),
      )
  unfolding run step consume_nonce
  run-consume dto s h = rw (h, ===_refl dto.nonce)

  run-match :
      (dto : VerifyWalletDto) (s : Store) (checked : Option Code)
      → find dto.wallet_address s.nonces ≡ some dto.nonce
      → run check limit 6 dto (s, elim checked [ none ↦ consume | some code ↦ count_failure code ])
        ≡ elim checked [
          | none ↦ (
            without_attempts dto.wallet_address (without_nonce dto.wallet_address s),
            finished (token dto.wallet_address),
          )
          | some code ↦ refused limit code dto.wallet_address s
        ]
  run-match dto s none h = run-consume dto s h
  run-match dto s (some code) h = run-failure 0 dto s code

  run-lookup :
      (dto : VerifyWalletDto) (s : Store) (stored : Option String)
      → find dto.wallet_address s.nonces ≡ stored
      → run check limit 6 dto (s, after_lookup check limit dto stored)
        ≡ answer check limit dto s stored
  unfolding after_lookup
  run-lookup dto s none h = run-finished 6 dto s (rejected nonce_unknown)
  run-lookup dto s (some stored) h = elim (Bool-cases (stored === "")) [
    | inl blank ↦ rw (blank, run-finished 6)
    | inr full ↦ elim (Bool-cases (stored === dto.nonce)) [
      | inl same ↦
          let at_nonce : find dto.wallet_address s.nonces ≡ some dto.nonce =
            h ∙ ap some ((eq_iff stored dto.nonce).0 same) in
          rw (full, same, run-match dto s (check dto) at_nonce)
      | inr other ↦ rw (full, other, run-failure 0)
    ]
  ]

  -- A request alone: the result and the keys it leaves are those of the table `answer`.
  pub verify_wallet-eq :
      (dto : VerifyWalletDto) (s : Store)
      → verify_wallet check limit dto s
        ≡ answer check limit dto s (find dto.wallet_address s.nonces)
  unfolding verify_wallet run step
  verify_wallet-eq dto s = run-lookup dto s (find dto.wallet_address s.nonces) refl

-- Requests one after the other.
abbrev pub serve : SignatureCheck → ℕ → Store → List VerifyWalletDto → Store
serve check limit s [] = s
serve check limit s (dto ∷ dtos) = serve check limit (verify_wallet check limit dto s).0 dtos

-- A request for the wallet that is refused where the nonce is stored.
abbrev pub Wrong : SignatureCheck → String → String → VerifyWalletDto → Type 0
Wrong check wallet stored dto = (dto.wallet_address ≡ wallet) × (refusal check stored dto ≢ none)

abbrev tries : Option ℕ → ℕ
tries none = 0
tries (some n) = n

-- What a wrong request leaves: nothing at the limit, one more failure below it.
abbrev Left : ℕ → String → String → Option ℕ → Store → Type 0
Left limit wallet stored failures s =
    (find wallet s.nonces ≡ (if leb limit (suc (tries failures)) then none else some stored))
    × (leb limit (suc (tries failures)) ≡ false
        → tries (find wallet s.attempts) ≡ suc (tries failures))

module _ (check : SignatureCheck) (limit : ℕ) (stored : String) where
  refused-Left :
      (code : Code) (wallet : String) (s : Store)
      → find wallet s.nonces ≡ some stored
      → Left limit wallet stored (find wallet s.attempts) (refused limit code wallet s).0
  refused-Left code wallet s h = ground (
    arith,
    find-upsert wallet wallet suc 1 s.attempts,
    find-remove wallet wallet s.nonces,
    ===_refl wallet,
  )

  not_blank : (text : String) → text ≢ "" → (text === "") ≡ false
  not_blank text full = ground (arith, eq_iff text "")

  answer-Left :
      (dto : VerifyWalletDto) (s : Store)
      → stored ≢ ""
      → find dto.wallet_address s.nonces ≡ some stored
      → (verdict : Option Code) → verdict ≢ none
      → refusal check stored dto ≡ verdict
      → Left limit dto.wallet_address stored
          (find dto.wallet_address s.attempts)
          (answer check limit dto s (some stored)).0
  answer-Left dto s full h none bad e = ground arith
  answer-Left dto s full h (some code) bad e =
      rw (not_blank stored full, e) (refused-Left code dto.wallet_address s h)

  verify_wallet-Left :
      (dto : VerifyWalletDto) (s : Store) (wallet : String)
      → stored ≢ ""
      → find wallet s.nonces ≡ some stored
      → Wrong check wallet stored dto
      → Left limit wallet stored (find wallet s.attempts) (verify_wallet check limit dto s).0
  verify_wallet-Left dto s wallet full h (same, bad) =
      subst
        (λ w.
          find w s.nonces ≡ some stored
          → Left limit w stored (find w s.attempts) (verify_wallet check limit dto s).0)
        same
        (λ at.
          rw (verify_wallet-eq check limit dto s, at)
            (answer-Left dto s full at (refusal check stored dto) bad refl))
        h

  gone_stays :
      (dtos : List VerifyWalletDto) (s : Store) (wallet : String)
      → find wallet s.nonces ≡ none
      → All (Wrong check wallet stored) dtos
      → find wallet (serve check limit s dtos).nonces ≡ none
  gone_stays [] s wallet h _ = h
  gone_stays (dto ∷ dtos) s wallet h ((same, _), rest) =
      let alone : (verify_wallet check limit dto s).0 ≡ s =
        rw (verify_wallet-eq check limit dto s, ap (λ w. find w s.nonces) same, h) in
      gone_stays dtos (verify_wallet check limit dto s).0 wallet (rw (alone, h)) rest

  -- A wallet has a nonce and a counter of failures. Requests for this wallet that are wrong (another
  -- nonce, or a signature that is refused) come one after the other. If there is at least one and
  -- they reach the limit together with the failures already counted, the nonce is gone.
  pub serve-locks_out :
      (dtos : List VerifyWalletDto) (s : Store) (wallet : String)
      → stored ≢ ""
      → find wallet s.nonces ≡ some stored
      → All (Wrong check wallet stored) dtos
      → 1 ≤ length dtos
      → limit ≤ tries (find wallet s.attempts) + length dtos
      → find wallet (serve check limit s dtos).nonces ≡ none
  serve-locks_out [] s wallet full h wrong some_dto enough = ground arith
  serve-locks_out (dto ∷ []) s wallet full h (bad, _) some_dto enough =
      ground (arith, (verify_wallet-Left dto s wallet full h bad).0)
  serve-locks_out (dto ∷ later ∷ dtos) s wallet full h (bad, rest) some_dto enough =
      let left = verify_wallet-Left dto s wallet full h bad in
      let next = (verify_wallet check limit dto s).0 in
      elim (Bool-cases (leb limit (suc (tries (find wallet s.attempts))))) [
        | inl over ↦ gone_stays (later ∷ dtos) next wallet (rw (left.0, over)) rest
        | inr under ↦
            serve-locks_out (later ∷ dtos) next wallet full (rw (left.0, under)) rest (omega arith)
              (omega (arith, left.1 under))
      ]

  changed_const : (o : Option String) → some (changed (λ _. stored) stored o) ≡ some stored
  changed_const none = refl
  changed_const (some _) = refl

  -- The same with a nonce that was issued after the failures were counted: the counter is kept, so a
  -- fresh nonce has only what is left of the limit.
  issue-locks_out :
      (dtos : List VerifyWalletDto) (s : Store) (wallet : String)
      → stored ≢ ""
      → All (Wrong check wallet stored) dtos
      → 1 ≤ length dtos
      → limit ≤ tries (find wallet s.attempts) + length dtos
      → find wallet (serve check limit (issue_nonce wallet stored s) dtos).nonces ≡ none
  unfolding issue_nonce
  issue-locks_out dtos s wallet full wrong some_dto enough =
      serve-locks_out dtos (issue_nonce wallet stored s) wallet full
        (rw (find-upsert wallet wallet (λ _. stored) stored s.nonces, ===_refl wallet)
          (changed_const (find wallet s.nonces)))
        wrong some_dto enough

module _ (check : SignatureCheck) (limit : ℕ) where
  -- A request whose nonce is the stored one and whose signature is accepted gets a token, and the
  -- same request sent again is refused: the nonce is no longer known.
  pub verify_wallet-once :
      (dto : VerifyWalletDto) (s : Store)
      → dto.nonce ≢ ""
      → find dto.wallet_address s.nonces ≡ some dto.nonce
      → check dto ≡ none
      → ((verify_wallet check limit dto s).1 ≡ finished (token dto.wallet_address))
        × ((verify_wallet check limit dto (verify_wallet check limit dto s).0).1
            ≡ finished (rejected nonce_unknown))
  verify_wallet-once dto s full h valid =
      let alone : verify_wallet check limit dto s ≡ (
        without_attempts dto.wallet_address (without_nonce dto.wallet_address s),
        finished (token dto.wallet_address),
      ) =
        rw (
          verify_wallet-eq check limit dto s,
          h,
          not_blank check limit dto.nonce dto.nonce full,
          ===_refl dto.nonce,
          valid,
        ) in
      (
        rw (alone),
        rw (
          alone,
          verify_wallet-eq check limit dto,
          find-remove dto.wallet_address dto.wallet_address s.nonces,
          ===_refl dto.wallet_address,
        ),
      )
