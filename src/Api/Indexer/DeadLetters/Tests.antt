-- ===== src/Api/Indexer/DeadLetters/Tests.antt =====
-- Runs of indexer-dead-letter.service.ts and instances of its theorems.
use swyft.Prelude.{◌≡◌, refl, true, false, ◌&&◌, String, some, none, [], ◌∷◌, if◌then◌else◌, err}
use swyft.Prelude.Equality.{◌===◌, string_eq}
use swyft.Prelude.Table.{find, upsert, map?}
use swyft.Api.Indexer.DeadLetters.{
  DeadLetterEntry, Rows, on_failed, record_dead_letter, get_dead_letter_count, get_dead_letters,
  store_unavailable, execute_replay, first_recorded,
}
use swyft.Api.Indexer.DeadLetters.Laws.{execute_replay-rows, recovered, is_open, succeeded}

abbrev lost_job : DeadLetterEntry String
lost_job = record {
  job_id = "7";
  queue_name = "pool.created";
  event_id = "e7";
  payload = "{}";
  error = "timeout";
  attempts_made = 3;
}

abbrev lost_rows : Rows
lost_rows = ("7", first_recorded lost_job) ∷ []

abbrev no_rows : Rows
no_rows = []

count_run : get_dead_letter_count true (on_failed true lost_job []) ≡ 1
unfolding get_dead_letter_count on_failed record_dead_letter upsert
count_run = refl

-- With the database down, a read that is to fail closed throws.
closed_run : get_dead_letters some "" false true none 9 true lost_rows ≡ err store_unavailable
unfolding get_dead_letters
closed_run = refl

execute_replay-rows_example :
    ((execute_replay true true true 5 "7" lost_rows).dispatched
      ≡ (is_open (find "7" lost_rows) && true))
    × (succeeded (execute_replay true true true 5 "7" lost_rows).answer
        ≡ (is_open (find "7" lost_rows) && true && true))
    × ((j : String)
        → find j (execute_replay true true true 5 "7" lost_rows).rows ≡ (
            if "7" === j && is_open (find "7" lost_rows) && true && true
            then map? (recovered 5) (find "7" lost_rows)
            else find j lost_rows))
execute_replay-rows_example = execute_replay-rows true true 5 "7" lost_rows
