-- ===== src/Api/Indexer/Cursor.antt =====
-- apps/api/src/indexer/indexer-cursor.service.ts, and `advanceLedger` of indexer.worker.ts: the last
-- ledger that was processed. The service calls `setMaxNumber` of the cache, which is a parameter:
-- no file of the repository defines it, and `none` stands for a cache without it, on which the call
-- throws. `up` says whether the database answers.
pub mod Progress
pub mod Overlap
use swyft.Prelude.{
  ℕ, suc, ◌^◌, ◌-◌, ◌≤◌, Bool, true, false, ◌||◌, ◌&&◌, not, Option, none, some, List, [], ◌∷◌, leb,
  ltb, if◌then◌else◌, ◌≡◌, refl, max, All, arith,
}
use swyft.Prelude.BigInt.{ℤ, pos, negsuc, ltb_ℤ}
use swyft.Prelude.Equality.{number_eq}
use swyft.Prelude.Counted.{has_key, drop_key}
use swyft.Prelude.Number.{Number, int, fraction, not_finite}

-- Number.isSafeInteger
abbrev pub max_safe_integer : ℕ
max_safe_integer = 9007199254740991

abbrev pub safe_integer : Number → Option ℤ
safe_integer (int (pos n)) = if leb n max_safe_integer then some (pos n) else none
safe_integer (int (negsuc n)) = if ltb n max_safe_integer then some (negsuc n) else none
safe_integer _ = none

-- Safe and not negative.
abbrev pub valid_ledger : Number → Option ℕ
valid_ledger (int (pos n)) = if leb n max_safe_integer then some n else none
valid_ledger _ = none

-- The cached number and the number that the text in the row of `indexerCursor` parses to.
pub record CursorStore : Type 0 where
  pub cached : Option Number
  pub cursor : Option Number

abbrev pub SetMaxNumber : Type 0
SetMaxNumber = Option (ℤ → Option Number → Option Number × Bool)

abbrev pub persistable : ℕ → Option Number → Bool
persistable ledger none = true
persistable ledger (some stored) = elim (safe_integer stored) [
  | none ↦ true
  | some current ↦ ltb_ℤ current (pos ledger)
]

abbrev pub write_cursor : ℕ → CursorStore → CursorStore
write_cursor ledger s = record s { cursor = some (int (pos ledger)) }

abbrev pub persist : ℕ → Bool → CursorStore → CursorStore × Bool
persist ledger cache_updated s =
    if persistable ledger s.cursor then (write_cursor ledger s, true) else (s, cache_updated)

module _ (set_max : SetMaxNumber) (up : Bool) where
  -- The `try` of `advanceLedger`.
  abbrev pub advanced : ℕ → CursorStore → SetMaxNumber → CursorStore × Bool
  advanced ledger s none = (s, false)
  advanced ledger s (some update) =
      let s' = record s { cached = (update (pos ledger) s.cached).0 } in
      if up then persist ledger (update (pos ledger) s.cached).1 s' else (s', false)

  abbrev pub attempted : CursorStore → Option ℕ → CursorStore × Bool
  attempted s none = (s, false)
  attempted s (some n) = advanced n s set_max

  -- An advance that no other one overlaps; AdvanceEvent has the parts of those that do.
  unfoldable pub advance_ledger : Number → CursorStore → CursorStore × Bool
  advance_ledger ledger s = attempted s (valid_ledger ledger)

  -- `advanceLedger` of the worker, which drops the answer.
  unfoldable pub advance_job : Option Number → CursorStore → CursorStore
  advance_job none s = s
  advance_job (some ledger) s = (advance_ledger ledger s).0

  abbrev pub restored : CursorStore → SetMaxNumber → Option ℤ → CursorStore × ℤ
  restored s method none = (s, pos 0)
  restored s none (some ledger) = (s, pos 0)
  restored s (some update) (some ledger) =
      (record s { cached = (update ledger s.cached).0 }, ledger)

  abbrev pub stored_integer : Option Number → Option ℤ
  stored_integer none = none
  stored_integer (some stored) = safe_integer stored

  abbrev pub cached_ledger : Option Number → Option ℕ
  cached_ledger none = none
  cached_ledger (some n) = valid_ledger n

  abbrev pub looked_up : CursorStore → Option ℕ → CursorStore × ℤ
  looked_up s none = if up then restored s set_max (stored_integer s.cursor) else (s, pos 0)
  looked_up s (some n) = (s, pos n)

  unfoldable pub get_last_ledger : CursorStore → CursorStore × ℤ
  get_last_ledger s = looked_up s (cached_ledger s.cached)

-- Advances that overlap: the store, and the ledgers whose `findUnique` was answered, whose test said
-- to persist and whose `upsert` is still to come. Five jobs of a queue run at a time.
pub record Advances : Type 0 where
  pub store : CursorStore
  pub pending : List ℕ

-- An advance up to its test, and the `upsert` of one. `up` says whether the database answers.
pub data AdvanceEvent : Type 0 where
  tested : Bool → Number → AdvanceEvent
  upserted : Bool → ℕ → AdvanceEvent

abbrev pub test_ledger : SetMaxNumber → Bool → Option ℕ → Advances → Advances
test_ledger set_max up none a = a
test_ledger none up (some n) a = a
test_ledger (some update) up (some n) a = record {
  store = record a.store { cached = (update (pos n) a.store.cached).0 };
  pending = if up && persistable n a.store.cursor then n ∷ a.pending else a.pending;
}

unfoldable pub on_advance_event : SetMaxNumber → AdvanceEvent → Advances → Advances
on_advance_event set_max (tested up ledger) a = test_ledger set_max up (valid_ledger ledger) a
on_advance_event set_max (upserted up n) a =
    if has_key n a.pending
    then record {
      store = if up then write_cursor n a.store else a.store;
      pending = drop_key n a.pending;
    }
    else a

unfoldable pub run_advances : SetMaxNumber → List AdvanceEvent → Advances → Advances
run_advances set_max [] a = a
run_advances set_max (event ∷ events) a =
    run_advances set_max events (on_advance_event set_max event a)
