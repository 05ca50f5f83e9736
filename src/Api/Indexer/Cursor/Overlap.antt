-- ===== src/Api/Indexer/Cursor/Overlap.antt =====
-- Advances of the cursor that overlap, in any order of their parts.
use swyft.Prelude.{
  ℕ, ◌≤◌, ◌≡◌, refl, arith, Bool, true, false, Option, none, some, List, [], ◌∷◌, All, leb, subst,
  inl, inr, Bool-cases,
}
use swyft.Prelude.BigInt.{pos, negsuc}
use swyft.Prelude.Number.{Number, int, fraction, not_finite}
use swyft.Prelude.Equality.{◌===◌, ===_refl, number_eq}
use swyft.Prelude.Counted.{has_key, drop_key}
use swyft.Api.Indexer.Cursor.{
  max_safe_integer, valid_ledger, CursorStore, SetMaxNumber, persistable, write_cursor, Advances,
  AdvanceEvent, tested, upserted, test_ledger, on_advance_event, run_advances, advance_ledger,
}
use swyft.Api.Indexer.Cursor.Progress.{Reached, present, valid_ledger-safe}

-- A ledger that may be written without taking the cursor below `n`.
abbrev pub IsBeyond : ℕ → ℕ → Type 0
IsBeyond n k = (n ≤ k) × (k ≤ max_safe_integer)

beyond_of_test :
    (n k : ℕ) (cursor : Option Number)
    → persistable n cursor ≡ false
    → persistable k cursor ≡ true
    → n ≤ k
beyond_of_test n k none reached ahead = cc
beyond_of_test n k (some (int (pos c))) reached ahead = ground arith
beyond_of_test n k (some (int (negsuc c))) reached ahead = ground arith
beyond_of_test n k (some (fraction c)) reached ahead = cc
beyond_of_test n k (some not_finite) reached ahead = cc

written-Reached : (n k : ℕ) (s : CursorStore) → IsBeyond n k → Reached n (write_cursor k s)
written-Reached n k s (ahead, safe) = ground arith

module _ (P : ℕ → Type 0) where
  has_key-All : (k : ℕ) (ks : List ℕ) → has_key k ks ≡ true → All P ks → P k
  has_key-All k [] there all = cc
  has_key-All k (j ∷ ks) there (p, all) = elim (Bool-cases (j === k)) [
    | inl same ↦ subst P ((number_eq.same_iff j k).0 same) p
    | inr other ↦ (let rest : has_key k ks ≡ true = ground arith in has_key-All k ks rest all)
  ]

  drop_key-All : (k : ℕ) (ks : List ℕ) → All P ks → All P (drop_key k ks)
  unfolding drop_key
  drop_key-All k [] all = tt
  drop_key-All k (j ∷ ks) (p, all) = elim (Bool-cases (j === k)) [
    | inl same ↦ rw (same) all
    | inr other ↦ rw (other) (p, drop_key-All k ks all)
  ]

-- The cursor is at `n` or beyond it, and so is every write that is still to come.
abbrev pub IsSettled : ℕ → Advances → Type 0
IsSettled n a = Reached n a.store × All (IsBeyond n) a.pending

test_ledger-IsSettled :
    (set_max : SetMaxNumber) (up : Bool) (n : ℕ) (ledger : Option ℕ) (a : Advances)
    → All (λ k. k ≤ max_safe_integer) (present ledger)
    → IsSettled n a
    → IsSettled n (test_ledger set_max up ledger a)
test_ledger-IsSettled set_max up n none a safe h = h
test_ledger-IsSettled none up n (some k) a safe h = h
test_ledger-IsSettled (some update) false n (some k) a safe h = h
test_ledger-IsSettled (some update) true n (some k) a (safe, _) (reached, all) =
    elim (Bool-cases (persistable k a.store.cursor)) [
      | inl ahead ↦
          rw (ahead) (reached, ((beyond_of_test n k a.store.cursor reached ahead, safe), all))
      | inr behind ↦ rw (behind) (reached, all)
    ]

on_advance_event-IsSettled :
    (set_max : SetMaxNumber) (n : ℕ) (event : AdvanceEvent) (a : Advances)
    → IsSettled n a
    → IsSettled n (on_advance_event set_max event a)
unfolding on_advance_event
on_advance_event-IsSettled set_max n (tested up ledger) a h =
    test_ledger-IsSettled set_max up n (valid_ledger ledger) a (valid_ledger-safe ledger) h
on_advance_event-IsSettled set_max n (upserted true k) a (reached, all) =
    elim (Bool-cases (has_key k a.pending)) [
      | inl there ↦ rw (there) (
        written-Reached n k a.store (has_key-All (IsBeyond n) k a.pending there all),
        drop_key-All (IsBeyond n) k a.pending all,
      )
      | inr missing ↦ rw (missing) (reached, all)
    ]
on_advance_event-IsSettled set_max n (upserted false k) a (reached, all) =
    elim (Bool-cases (has_key k a.pending)) [
      | inl there ↦ rw (there) (reached, drop_key-All (IsBeyond n) k a.pending all)
      | inr missing ↦ rw (missing) (reached, all)
    ]

-- Once the stored cursor is at a ledger or beyond it, and no write of a lower ledger is still to come,
-- this stays so however later advances overlap, with any cache and whenever the database fails.
pub run_advances-IsSettled :
    (set_max : SetMaxNumber) (n : ℕ) (events : List AdvanceEvent) (a : Advances)
    → Reached n a.store
    → All (IsBeyond n) a.pending
    → IsSettled n (run_advances set_max events a)
unfolding run_advances
run_advances-IsSettled set_max n [] a reached all = (reached, all)
run_advances-IsSettled set_max n (event ∷ events) a reached all =
    let h = on_advance_event-IsSettled set_max n event a (reached, all) in
    run_advances-IsSettled set_max n events (on_advance_event set_max event a) h.0 h.1

-- An advance that nothing overlaps is its two parts.
advance_ledger-parts :
    (set_max : SetMaxNumber) (n : ℕ) (s : CursorStore)
    → (advance_ledger set_max true (int (pos n)) s).0
      ≡ (run_advances set_max
          (tested true (int (pos n)) ∷ upserted true n ∷ [])
          (record { store = s; pending = [] })).store
unfolding advance_ledger run_advances on_advance_event drop_key
advance_ledger-parts none n s = elim (Bool-cases (leb n max_safe_integer)) [
  | inl safe ↦ rw (safe) refl
  | inr large ↦ rw (large) refl
]
advance_ledger-parts (some update) n s = elim (Bool-cases (leb n max_safe_integer)) [
  | inl safe ↦ elim (Bool-cases (persistable n s.cursor)) [
    | inl ahead ↦ rw (safe, ahead, ===_refl n) refl
    | inr behind ↦ rw (safe, behind) refl
  ]
  | inr large ↦ rw (large) refl
]
