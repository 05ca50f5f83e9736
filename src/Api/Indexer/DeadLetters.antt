-- ===== src/Api/Indexer/DeadLetters.antt =====
-- apps/api/src/indexer/indexer-dead-letter.service.ts: jobs that failed too often. The payload is
-- kept as JSON text; what JSON.parse makes of it is a parameter. `up` says whether the database
-- answers. Rows stand in the order of their creation.
pub mod Laws
mod Tests
use swyft.Prelude.{
  ℕ, zero, suc, ◌+◌, ◌-◌, Bool, true, false, not, ◌&&◌, String, Option, none, some, List, [], ◌∷◌,
  ◌++◌, take, keep, map, leb, length, is_none, if◌then◌else◌, Result, err, ok,
}
use swyft.Prelude.Equality.{◌===◌, string_eq}
use swyft.Prelude.Table.{Table, find, upsert, update}

pub record DeadLetterEntry {ℓ} (P : Type ℓ) : Type ℓ where
  pub job_id : String
  pub queue_name : String
  pub event_id : String
  pub payload : P
  pub error : String
  pub attempts_made : ℕ

-- A row of the table; its key is the id of the job.
pub record Row : Type 0 where
  pub queue_name : String
  pub event_id : String
  pub payload : String
  pub error : String
  pub attempts_made : ℕ
  pub recovered_at : Option ℕ

abbrev pub Rows : Type 0
Rows = Table String Row

pub data ReadError : Type 0 where
  store_unavailable : ReadError

-- `defaultRetries` of the worker.
abbrev pub default_retries : ℕ
default_retries = 3

abbrev pub first_recorded : DeadLetterEntry String → Row
first_recorded e = record {
  queue_name = e.queue_name;
  event_id = e.event_id;
  payload = e.payload;
  error = e.error;
  attempts_made = e.attempts_made;
  recovered_at = none;
}

abbrev pub recorded_again : DeadLetterEntry String → Row → Row
recorded_again e row = record row {
  error = e.error;
  attempts_made = e.attempts_made;
  recovered_at = none;
}

unfoldable pub record_dead_letter : Bool → DeadLetterEntry String → Rows → Rows
record_dead_letter true e rows = upsert e.job_id (recorded_again e) (first_recorded e) rows
record_dead_letter false e rows = rows

-- The worker's handler of `failed`: a job is recorded after its last attempt.
unfoldable pub on_failed : Bool → DeadLetterEntry String → Rows → Rows
on_failed up e rows =
    if leb default_retries e.attempts_made then record_dead_letter up e rows else rows

unfoldable pub clear_dead_letter : Bool → ℕ → String → Rows → Rows
clear_dead_letter true now job_id rows =
    update job_id (λ row. record row { recovered_at = some now }) rows
clear_dead_letter false now job_id rows = rows

abbrev pub reverse {ℓ} : {A : Type ℓ} → List A → List A
reverse [] = []
reverse (x ∷ xs) = reverse xs ++ x ∷ []

abbrev pub open_row : String × Row → Bool
open_row (j, row) = is_none row.recovered_at

unfoldable pub get_dead_letter_count : Bool → Rows → ℕ
get_dead_letter_count up rows = if up then length (keep open_row rows) else 0

abbrev pub of_queue : Option String → String × Row → Bool
of_queue none p = true
of_queue (some name) (j, row) = if name === "" then true else row.queue_name === name

abbrev pub selected : Option String → Bool → String × Row → Bool
selected queue_name unrecovered_only p =
    of_queue queue_name p && (if unrecovered_only then open_row p else true)

module _ {ℓ} {P : Type ℓ} (parse : String → Option P) (empty_payload : P) where
  abbrev pub parsed : Option P → P
  parsed none = empty_payload
  parsed (some payload) = payload

  abbrev pub to_entry : String × Row → DeadLetterEntry P
  to_entry (job_id, row) = record {
    job_id = job_id;
    queue_name = row.queue_name;
    event_id = row.event_id;
    payload = parsed (parse row.payload);
    error = row.error;
    attempts_made = row.attempts_made;
  }

  -- A read that fails is thrown with `fail_closed`, and empty without.
  unfoldable pub get_dead_letter :
      Bool → Bool → String → Rows → Result ReadError (Option (DeadLetterEntry P))
  get_dead_letter up fail_closed job_id rows =
      if up
      then ok (elim (find job_id rows) [ none ↦ none | some row ↦ some (to_entry (job_id, row)) ])
      else if fail_closed
      then err store_unavailable
      else ok none

  unfoldable pub get_dead_letters :
      Bool → Bool → Option String → ℕ → Bool → Rows → Result ReadError (List (DeadLetterEntry P))
  get_dead_letters up fail_closed queue_name limit unrecovered_only rows =
      if up
      then ok
          (map to_entry (take limit (keep (selected queue_name unrecovered_only) (reverse rows))))
      else if fail_closed
      then err store_unavailable
      else ok []

pub data ReplayErrorCode : Type 0 where
  dlq_not_found dlq_already_recovered dlq_dependency_unavailable : ReplayErrorCode

-- What one replay did: the job was given to the dispatcher or not, and the answer.
pub record Replayed : Type 0 where
  pub rows : Rows
  pub dispatched : Bool
  pub answer : Result ReplayErrorCode (Unit {0})

abbrev pub refuse : ReplayErrorCode → Bool → Rows → Replayed
refuse code sent rows = record { rows = rows; dispatched = sent; answer = err code }

abbrev pub replay_open : Bool → Bool → ℕ → String → Rows → Replayed
replay_open false marks now job_id rows = refuse dlq_dependency_unavailable false rows
replay_open true false now job_id rows = refuse dlq_dependency_unavailable true rows
replay_open true true now job_id rows = record {
  rows = clear_dead_letter true now job_id rows;
  dispatched = true;
  answer = ok tt;
}

abbrev pub replay_row : Bool → Bool → ℕ → String → Rows → Option Row → Replayed
replay_row dispatches marks now job_id rows none = refuse dlq_not_found false rows
replay_row dispatches marks now job_id rows (some row) =
    if is_none row.recovered_at
    then replay_open dispatches marks now job_id rows
    else refuse dlq_already_recovered false rows

-- `executeReplay`: whether the lookup, the dispatch and the last write succeed is given.
unfoldable pub execute_replay : Bool → Bool → Bool → ℕ → String → Rows → Replayed
execute_replay true dispatches marks now job_id rows =
    replay_row dispatches marks now job_id rows (find job_id rows)
execute_replay false dispatches marks now job_id rows = refuse dlq_dependency_unavailable false rows
