-- ===== src/Api/Indexer/Replays/Drain.antt =====
-- A replay of all dead letters leaves none open.
use swyft.Prelude.{
  ℕ, zero, suc, ◌≤◌, ◌≡◌, ◌∙◌, refl, Bool, true, false, ◌&&◌, ◌||◌, String, Option, none, some,
  List, [], ◌∷◌, ◌++◌, any, all, keep, take, map, length, if◌then◌else◌, Bool-cases, inl, inr, ap,
  arith,
}
use swyft.Prelude.Equality.{◌===◌, string_eq}
use swyft.Prelude.Table.{find, map?}
use swyft.Api.Indexer.DeadLetters.{
  DeadLetterEntry, Row, Rows, reverse, open_row, to_entry, selected, get_dead_letters,
}
use swyft.Api.Indexer.DeadLetters.Laws.{is_open, recovered}
use swyft.Api.Indexer.Replays.{AddAnswer, replay_dead_letters, load, dlq_limit}
use swyft.Api.Indexer.Replays.Partition.{takes, marks, replay_each-rows}

module _ {ℓ} {A : Type ℓ} (p : A → Bool) where
  any-append : (xs ys : List A) → any p (xs ++ ys) ≡ (any p ys || any p xs)
  any-append [] ys = ground arith
  any-append (x ∷ xs) ys = ground (arith, any-append xs ys)

  any-reverse : (xs : List A) → any p (reverse xs) ≡ any p xs
  any-reverse [] = refl
  any-reverse (x ∷ xs) = ground (arith, any-append (reverse xs) (x ∷ []), any-reverse xs)

  any-all :
      (q : A → Bool) (xs : List A)
      → all q xs ≡ true
      → any p xs ≡ true
      → any (λ x. q x && p x) xs ≡ true
  any-all q [] every some_one = some_one
  any-all q (x ∷ xs) every some_one = ground (arith, any-all q xs)

  any-keep : (q : A → Bool) (xs : List A) → any p (keep q xs) ≡ any (λ x. q x && p x) xs
  any-keep q [] = refl
  any-keep q (x ∷ xs) = ground (arith, any-keep q xs)

take-all {ℓ} : {A : Type ℓ} (n : ℕ) (xs : List A) → length xs ≤ n → take n xs ≡ xs
take-all zero [] short = refl
take-all zero (x ∷ xs) short = ground arith
take-all (suc n) [] short = refl
take-all (suc n) (x ∷ xs) short = ap (λ t. x ∷ t) (take-all n xs (omega arith))

any-map {ℓ κ} :
    {A : Type ℓ} {B : Type κ} (f : A → B) (p : B → Bool) (xs : List A)
    → any p (map f xs) ≡ any (λ x. p (f x)) xs
any-map f p [] = refl
any-map f p (x ∷ xs) = ap (λ b. p (f x) || b) (any-map f p xs)

-- An open row that `find` sees is one of the rows.
find-any :
    (j : String) (rows : Rows)
    → is_open (find j rows) ≡ true
    → any (λ r. open_row r && r.0 === j) rows ≡ true
unfolding find
find-any j [] seen = seen
find-any j ((k, row) ∷ rows) seen = ground (arith, find-any j rows)

closed_after : (now : ℕ) (o : Option Row) → is_open (map? (recovered now) o) ≡ false
closed_after now none = refl
closed_after now (some row) = refl

drained :
    (now : ℕ) (marked : Bool) (o : Option Row)
    → (is_open o ≡ true → marked ≡ true)
    → is_open (if marked then map? (recovered now) o else o) ≡ false
drained now true o reaches = closed_after now o
drained now false o reaches = elim (Bool-cases (is_open o)) [
  | inl seen ↦ ground (arith, reaches seen)
  | inr closed ↦ closed
]

abbrev pub open_rows : Rows → List (String × Row)
open_rows rows = keep (selected none true) (reverse rows)

module _ {P : Type 0} (parse : String → Option P) (empty_payload : P)
    (event_id_of : P → Option String) (answer : String → String → AddAnswer)
    (clears : String → Bool) (now : ℕ) where
  abbrev pub entry_of : String × Row → DeadLetterEntry P
  entry_of row = to_entry parse empty_payload row

  -- Whether the queue takes the job of a row, and its row can be marked.
  abbrev pub replayable : DeadLetterEntry P → Bool
  replayable e = takes event_id_of answer e && clears e.job_id

  reaches :
      (rows : Rows) (j : String)
      → all replayable (map entry_of (open_rows rows)) ≡ true
      → is_open (find j rows) ≡ true
      → marks event_id_of answer clears (map entry_of (open_rows rows)) j ≡ true
  reaches rows j every seen =
      any-all (λ e. e.job_id === j) replayable (map entry_of (open_rows rows)) every
        (any-map entry_of (λ e. e.job_id === j) (open_rows rows)
          ∙ any-keep (λ r. r.0 === j) (selected none true) (reverse rows)
          ∙ any-reverse (λ r. open_row r && r.0 === j) rows
          ∙ find-any j rows seen)

  -- Of at most 500 open rows, whose jobs all go to their queue and whose rows can all be marked: a
  -- replay of all dead letters leaves no row open.
  pub replay_dead_letters-drains :
      (rows : Rows) (j : String)
      → length (open_rows rows) ≤ dlq_limit
      → all replayable (map entry_of (open_rows rows)) ≡ true
      → is_open (
          find j
            (replay_dead_letters parse empty_payload event_id_of answer true clears now none
              rows).0.rows)
        ≡ false
  unfolding replay_dead_letters load get_dead_letters
  replay_dead_letters-drains rows j few every =
      rw
        (
          take-all dlq_limit (open_rows rows) few,
          replay_each-rows event_id_of answer clears now (map entry_of (open_rows rows)) rows j,
        )
        (drained now (marks event_id_of answer clears (map entry_of (open_rows rows)) j)
          (find j rows) (reaches rows j every))
