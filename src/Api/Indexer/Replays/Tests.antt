-- ===== src/Api/Indexer/Replays/Tests.antt =====
-- Runs of indexer-replay.service.ts and instances of its theorems.
use swyft.Prelude.{
  ◌≡◌, refl, true, false, Bool, String, Option, some, none, List, [], ◌∷◌, if◌then◌else◌, arith,
  err, ok,
}
use swyft.Prelude.Equality.{string_eq, pair_eq}
use swyft.Prelude.Table.{find, map?}
use swyft.Api.Indexer.DeadLetters.{DeadLetterEntry, Rows, get_dead_letters}
use swyft.Api.Indexer.DeadLetters.Laws.{is_open, recovered}
use swyft.Api.Indexer.Replays.{
  AddAnswer, added, DeadLetterReplaySummary, dependency_unavailable, nothing_done, replay_each,
  replay_dead_letters, load, enqueue_dead_letter, ReplayService, decide, finish_replay, answered,
}
use swyft.Api.Indexer.Replays.Drain.{replay_dead_letters-drains}
use swyft.Api.Indexer.Replays.Partition.{marks, replay_each-rows}
use swyft.Api.Indexer.Replays.Once.{Ended, run_finishes, decide-answered}

abbrev letter : String → String → DeadLetterEntry String
letter job_id queue_name = record {
  job_id = job_id;
  queue_name = queue_name;
  event_id = "e";
  payload = "{}";
  error = "timeout";
  attempts_made = 3;
}

abbrev letters : List (DeadLetterEntry String)
letters = letter "1" "pool.created" ∷ letter "2" "unknown" ∷ []

-- No event id in the payload; every queue takes every job; every write succeeds.
abbrev no_event : String → Option String
no_event payload = none

abbrev accepting : String → String → AddAnswer
accepting queue_name job_id = added

abbrev always : String → Bool
always job_id = true

abbrev letter_rows : Rows
letter_rows =
    (
      "1",
      record {
        queue_name = "pool.created";
        event_id = "e";
        payload = "{}";
        error = "timeout";
        attempts_made = 3;
        recovered_at = none;
      },
    )
    ∷ []

replay_run : (replay_each no_event accepting always 5 letters letter_rows).replayed ≡ "1" ∷ []
unfolding replay_each enqueue_dead_letter
replay_run = refl

-- With the database down, nothing is sent.
down_run :
    replay_dead_letters some "" no_event accepting false always 5 none letter_rows
    ≡ (nothing_done letter_rows, err dependency_unavailable)
unfolding replay_dead_letters load get_dead_letters
down_run = refl

replay_each-rows_example :
    find "1" (replay_each no_event accepting always 5 letters letter_rows).rows ≡ (
      if marks no_event accepting always letters "1"
      then map? (recovered 5) (find "1" letter_rows)
      else find "1" letter_rows)
replay_each-rows_example = replay_each-rows no_event accepting always 5 letters letter_rows "1"

abbrev one_replayed : DeadLetterReplaySummary
one_replayed = record { replayed = "1" ∷ []; skipped = []; total = 1 }

abbrev idle : ReplayService
idle = record { in_flight = []; completed = [] }

-- Another replay in between.
abbrev other_end : List Ended
other_end = (("2", "k"), (9, ok one_replayed)) ∷ []

decide-answered_example :
    decide
      ("1", "k")
      400000
      (run_finishes other_end (finish_replay ("1", "k") 5 (ok one_replayed) idle))
    ≡ answered one_replayed
unfolding find
decide-answered_example =
    decide-answered ("1", "k") 5 400000 one_replayed other_end idle (omega arith) refl refl
      ((refl, omega arith), tt) (omega arith)

replay_dead_letters-drains_example :
    is_open (
      find "1"
        (replay_dead_letters some "" no_event accepting true always 5 none letter_rows).0.rows)
    ≡ false
unfolding enqueue_dead_letter
replay_dead_letters-drains_example =
    replay_dead_letters-drains some "" no_event accepting always 5 letter_rows "1" (omega arith)
      refl
