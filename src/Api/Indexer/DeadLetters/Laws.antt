-- ===== src/Api/Indexer/DeadLetters/Laws.antt =====
-- The life of a dead letter: recorded, read, replayed, recorded again.
use swyft.Prelude.{
  ℕ, ◌≤◌, ◌≡◌, refl, Bool, true, false, String, Option, none, some, ◌&&◌, inl, inr, is_none,
  if◌then◌else◌, Result, err, ok, arith, Bool-cases, subst, sym,
}
use swyft.Prelude.Equality.{◌===◌, string_eq}
use swyft.Prelude.Table.{find, find-upsert, find-update, changed, map?}
use swyft.Api.Indexer.DeadLetters.{
  DeadLetterEntry, Row, Rows, record_dead_letter, on_failed, clear_dead_letter, first_recorded,
  recorded_again, execute_replay, dlq_already_recovered, default_retries, Replayed, refuse,
  replay_open, replay_row,
}

-- Whether a job has a row that is not recovered.
abbrev pub is_open : Option Row → Bool
is_open none = false
is_open (some row) = is_none row.recovered_at

-- A job that failed for the last time, with the database answering, has an open row, which carries
-- the last error; the rows of the other jobs stay.
pub on_failed-rows :
    (e : DeadLetterEntry String) (rows : Rows) (j : String)
    → default_retries ≤ e.attempts_made
    → find j (on_failed true e rows) ≡ (
        if e.job_id === j
        then some (changed (recorded_again e) (first_recorded e) (find e.job_id rows))
        else find j rows)
unfolding on_failed record_dead_letter
on_failed-rows e rows j last =
    ground (arith, find-upsert e.job_id j (recorded_again e) (first_recorded e) rows)

pub recovered-row :
    (now : ℕ) (job_id j : String) (rows : Rows)
    → find j (clear_dead_letter true now job_id rows) ≡ (
        if job_id === j
        then map? (λ row. record row { recovered_at = some now }) (find job_id rows)
        else find j rows)
unfolding clear_dead_letter
recovered-row now job_id j rows =
    find-update job_id j (λ row. record row { recovered_at = some now }) rows

abbrev pub succeeded {ε ℓ} : {E : Type ε} {A : Type ℓ} → Result E A → Bool
succeeded (err _) = false
succeeded (ok _) = true

abbrev pub recovered : ℕ → Row → Row
recovered now row = record row { recovered_at = some now }

-- What a replay is to do, given the row it finds.
abbrev Expected : Bool → Bool → ℕ → String → Rows → Option Row → Replayed → Type 0
Expected dispatches marks now job_id rows o done =
    (done.dispatched ≡ (is_open o && dispatches))
    × (succeeded done.answer ≡ (is_open o && dispatches && marks))
    × ((j : String)
        → find j done.rows ≡ (
            if job_id === j && is_open o && dispatches && marks
            then map? (recovered now) o
            else find j rows))

replay_open-Expected :
    (dispatches marks : Bool) (now : ℕ) (job_id : String) (rows : Rows) (row : Row)
    → find job_id rows ≡ some row
    → is_none row.recovered_at ≡ true
    → Expected dispatches marks now job_id rows
        (some row)
        (replay_open dispatches marks now job_id rows)
replay_open-Expected false marks now job_id rows row h pending =
    (ground arith, ground arith, λ j. ground arith)
replay_open-Expected true false now job_id rows row h pending =
    (ground arith, ground arith, λ j. ground arith)
replay_open-Expected true true now job_id rows row h pending = (
  ground arith,
  ground arith,
  λ j. rw (recovered-row now job_id j rows, h, pending) (ground arith),
)

replay_row-Expected :
    (dispatches marks : Bool) (now : ℕ) (job_id : String) (rows : Rows) (o : Option Row)
    → find job_id rows ≡ o
    → Expected dispatches marks now job_id rows o (replay_row dispatches marks now job_id rows o)
replay_row-Expected dispatches marks now job_id rows none h = (refl, refl, λ j. ground arith)
replay_row-Expected dispatches marks now job_id rows (some row) h =
    elim (Bool-cases (is_none row.recovered_at)) [
      | inl pending ↦
          subst
            (λ b. Expected dispatches marks now job_id rows (some row) (
              if b
              then replay_open dispatches marks now job_id rows
              else refuse dlq_already_recovered false rows))
            (sym pending) (replay_open-Expected dispatches marks now job_id rows row h pending)
      | inr settled ↦ rw (settled) (refl, refl, λ j. ground arith)
    ]

-- A replay dispatches a job exactly if its row is found open and the dispatcher takes it, and
-- succeeds exactly if the last write succeeds too; then the row is marked as recovered now, and in
-- every other case all rows stay.
pub execute_replay-rows :
    (dispatches marks : Bool) (now : ℕ) (job_id : String) (rows : Rows)
    → ((execute_replay true dispatches marks now job_id rows).dispatched
        ≡ (is_open (find job_id rows) && dispatches))
      × (succeeded (execute_replay true dispatches marks now job_id rows).answer
          ≡ (is_open (find job_id rows) && dispatches && marks))
      × ((j : String)
          → find j (execute_replay true dispatches marks now job_id rows).rows ≡ (
              if job_id === j && is_open (find job_id rows) && dispatches && marks
              then map? (recovered now) (find job_id rows)
              else find j rows))
unfolding execute_replay
execute_replay-rows dispatches marks now job_id rows =
    replay_row-Expected dispatches marks now job_id rows (find job_id rows) refl
