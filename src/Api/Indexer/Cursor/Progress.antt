-- ===== src/Api/Indexer/Cursor/Progress.antt =====
-- The durable cursor over a sequence of jobs.
use swyft.Prelude.{
  ℕ, Bool, true, false, Option, none, some, List, [], ◌∷◌, ◌++◌, leb, if◌then◌else◌, ◌≡◌, refl,
  arith, ◌≤◌, All, Bool-cases, inl, inr, leb→le, le→leb,
}
use swyft.Prelude.BigInt.{ℤ, pos, negsuc}
use swyft.Prelude.Number.{Number, int, fraction, not_finite}
use swyft.Api.Indexer.Cursor.{
  max_safe_integer, valid_ledger, CursorStore, SetMaxNumber, persistable, persist, advanced,
  advance_ledger, advance_job, get_last_ledger, restored, stored_integer, attempted,
}

-- Jobs one after the other, each with whether the database answers.
abbrev pub follow : SetMaxNumber → CursorStore → List (Bool × Option Number) → CursorStore
follow set_max s [] = s
follow set_max s ((up, ledger) ∷ jobs) = follow set_max (advance_job set_max up ledger s) jobs

-- The stored cursor is a safe integer that is `n` or more.
abbrev pub Reached : ℕ → CursorStore → Type 0
Reached n s = persistable n s.cursor ≡ false

after-kept :
    (n ledger : ℕ) (cursor : Option Number)
    → ledger ≤ max_safe_integer
    → persistable n cursor ≡ false
    → persistable n (if persistable ledger cursor then some (int (pos ledger)) else cursor) ≡ false
after-kept n ledger none safe reached = ground arith
after-kept n ledger (some (int (pos k))) safe reached = ground arith
after-kept n ledger (some (int (negsuc k))) safe reached = ground arith
after-kept n ledger (some (fraction k)) safe reached = ground arith
after-kept n ledger (some not_finite) safe reached = ground arith

after-new :
    (ledger : ℕ) (cursor : Option Number)
    → ledger ≤ max_safe_integer
    → persistable ledger (if persistable ledger cursor then some (int (pos ledger)) else cursor)
      ≡ false
after-new ledger none safe = ground arith
after-new ledger (some (int (pos k))) safe = ground arith
after-new ledger (some (int (negsuc k))) safe = ground arith
after-new ledger (some (fraction k)) safe = ground arith
after-new ledger (some not_finite) safe = ground arith

persist-cursor :
    (ledger : ℕ) (told : Bool) (s : CursorStore)
    → (persist ledger told s).0.cursor
      ≡ (if persistable ledger s.cursor then some (int (pos ledger)) else s.cursor)
persist-cursor ledger told s = ground arith

abbrev pub present : Option ℕ → List ℕ
present none = []
present (some n) = n ∷ []

pub valid_ledger-safe :
    (ledger : Number) → All (λ k. k ≤ max_safe_integer) (present (valid_ledger ledger))
valid_ledger-safe (int (pos n)) = elim (Bool-cases (leb n max_safe_integer)) [
  | inl safe ↦ rw (safe) (leb→le n max_safe_integer safe, tt)
  | inr large ↦ rw (large) tt
]
valid_ledger-safe (int (negsuc n)) = tt
valid_ledger-safe (fraction n) = tt
valid_ledger-safe not_finite = tt

module _ (set_max : SetMaxNumber) where
  advanced-Reached :
      (up : Bool) (n ledger : ℕ) (s : CursorStore) (method : SetMaxNumber)
      → ledger ≤ max_safe_integer
      → Reached n s
      → Reached n (advanced set_max up ledger s method).0
  advanced-Reached up n ledger s none safe reached = reached
  advanced-Reached true n ledger s (some update) safe reached =
      rw
        (persist-cursor ledger (update (pos ledger) s.cached).1
          (record s { cached = (update (pos ledger) s.cached).0 }))
        (after-kept n ledger s.cursor safe reached)
  advanced-Reached false n ledger s (some update) safe reached = reached

  attempted-Reached :
      (up : Bool) (n : ℕ) (s : CursorStore) (ledger : Option ℕ)
      → All (λ k. k ≤ max_safe_integer) (present ledger)
      → Reached n s
      → Reached n (attempted set_max up s ledger).0
  attempted-Reached up n s none safe reached = reached
  attempted-Reached up n s (some k) (safe, _) reached =
      advanced-Reached up n k s set_max safe reached

  advance_job-Reached :
      (up : Bool) (n : ℕ) (ledger : Option Number) (s : CursorStore)
      → Reached n s
      → Reached n (advance_job set_max up ledger s)
  unfolding advance_job advance_ledger
  advance_job-Reached up n none s reached = reached
  advance_job-Reached up n (some ledger) s reached =
      attempted-Reached up n s (valid_ledger ledger) (valid_ledger-safe ledger) reached

  follow_kept :
      (n : ℕ) (jobs : List (Bool × Option Number)) (s : CursorStore)
      → Reached n s
      → Reached n (follow set_max s jobs)
  follow_kept n [] s reached = reached
  follow_kept n ((up, ledger) ∷ jobs) s reached =
      follow_kept n jobs (advance_job set_max up ledger s)
        (advance_job-Reached up n ledger s reached)

-- With a cache that has `setMaxNumber`, whatever it answers: once a job with a valid ledger was
-- handled while the database answered and the advances run one after the other, the stored cursor is at this ledger or beyond it, after any
-- jobs before and any jobs later, in any order of their ledgers.
follow-Reached :
    (update : ℤ → Option Number → Option Number × Bool) (n : ℕ)
    (before later : List (Bool × Option Number)) (s : CursorStore)
    → n ≤ max_safe_integer
    → Reached n (follow (some update) s (before ++ (true, some (int (pos n))) ∷ later))
unfolding advance_job advance_ledger
follow-Reached update n [] later s safe =
    follow_kept (some update) n later (advance_job (some update) true (some (int (pos n))) s) (
      rw (advance_job, advance_ledger, le→leb n max_safe_integer safe)
        (rw
          (persist-cursor n (update (pos n) s.cached).1
            (record s { cached = (update (pos n) s.cached).0 }))
          (after-new n s.cursor safe)))
follow-Reached update n ((up, ledger) ∷ before) later s safe =
    follow-Reached update n before later (advance_job (some update) up ledger s) safe

without_method :
    (up : Bool) (ledger : Option Number) (s : CursorStore) → advance_job none up ledger s ≡ s
unfolding advance_job advance_ledger
without_method up none s = refl
without_method up (some ledger) s =
    elim (valid_ledger ledger) as (λ o. (attempted none up s o).0 ≡ s) [
      | none ↦ refl
      | some n ↦ refl
    ]

restored-stuck :
    (up : Bool) (s : CursorStore) (o : Option ℤ) → (restored none up s none o).1 ≡ pos 0
restored-stuck up s none = refl
restored-stuck up s (some n) = refl

resumed : (up : Bool) (s : CursorStore) → s.cached ≡ none → (get_last_ledger none up s).1 ≡ pos 0
unfolding get_last_ledger
resumed true s empty =
    rw (empty)
      (restored-stuck true (record s { cached = none }) (stored_integer none true s.cursor))
resumed false s empty = rw (empty)

-- With a cache that has no `setMaxNumber`, no sequence of jobs changes anything, and a service that
-- starts with an empty cache resumes at ledger 0, whatever the stored cursor is.
follow-stuck :
    (up : Bool) (jobs : List (Bool × Option Number)) (s : CursorStore)
    → s.cached ≡ none
    → (follow none s jobs ≡ s) × ((get_last_ledger none up (follow none s jobs)).1 ≡ pos 0)
follow-stuck up [] s empty = (refl, resumed up s empty)
follow-stuck up ((answered, ledger) ∷ jobs) s empty =
    rw (without_method answered ledger s) (follow-stuck up jobs s empty)
