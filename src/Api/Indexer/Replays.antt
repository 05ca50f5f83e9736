-- ===== src/Api/Indexer/Replays.antt =====
-- apps/api/src/indexer/indexer-replay.service.ts: replay of the dead letters onto their queues, and
-- the part that answers one request only once. BullMQ is a parameter: `answer queue id` is what
-- `add` does for this job. Requests run until their next wait on the event loop.
mod Drain
mod Partition
mod Once
mod Tests
use swyft.Prelude.{
  ℕ, zero, suc, ◌+◌, ◌-◌, Bool, true, false, not, ◌&&◌, ◌||◌, String, Option, none, some, List, [],
  ◌∷◌, ◌++◌, keep, leb, ltb, length, any, if◌then◌else◌, Result, err, ok, map, ◌>>=◌, and_then,
}
use swyft.Prelude.Equality.{◌===◌, string_eq, pair_eq}
use swyft.Prelude.Table.{Table, find, upsert, remove}
use swyft.Api.Indexer.DeadLetters.{
  DeadLetterEntry, Rows, get_dead_letter, get_dead_letters, clear_dead_letter, ReadError,
  store_unavailable,
}

abbrev pub queue_names : List String
queue_names =
    "pool.created" ∷ "swap.processed" ∷ "position.minted" ∷ "position.burned" ∷ "fees.collected"
    ∷ []

-- What BullMQ answers to `add`: the job is added; an error that says that it exists; another error.
pub data AddAnswer : Type 0 where
  added already_exists add_failed : AddAnswer

-- A job given to a queue: the queue, the name, the id and the payload.
pub record Enqueued {ℓ} (P : Type ℓ) : Type ℓ where
  pub queue_name : String
  pub name : String
  pub job_id : String
  pub payload : P

pub record DeadLetterReplaySummary : Type 0 where
  pub replayed : List String
  pub skipped : List String
  pub total : ℕ

-- The rows, the jobs given to queues, and the two lists of a replay.
pub record Pass {ℓ} (P : Type ℓ) : Type ℓ where
  pub rows : Rows
  pub sent : List (Enqueued P)
  pub replayed : List String
  pub skipped : List String

abbrev pub nothing_done {ℓ} : {P : Type ℓ} → Rows → Pass P
nothing_done rows = record { rows = rows; sent = []; replayed = []; skipped = [] }

pub data ReplayError : Type 0 where
  not_found dependency_unavailable : ReplayError

abbrev pub nonempty_or : String → Option String → String
nonempty_or other none = other
nonempty_or other (some text) = if text === "" then other else text

abbrev pub joined : String → String → String
joined String.[] t = t
joined (String.◌∷◌ c s) t = String.◌∷◌ c (joined s t)

-- The id of the job that replays a dead letter.
abbrev pub replay_job_id : String → String
replay_job_id job_id = joined "dlq-replay:" job_id

module _ {ℓ} {P : Type ℓ} (event_id_of : P → Option String)
    (answer : String → String → AddAnswer) where
  abbrev pub event_id_for : DeadLetterEntry P → String
  event_id_for e = nonempty_or e.event_id (event_id_of e.payload)

  -- The jobs that are given to a queue, and whether the entry counts as replayed.
  abbrev pub after_add : DeadLetterEntry P → AddAnswer → List (Enqueued P) × Bool
  after_add e added = (
    record {
      queue_name = e.queue_name;
      name = event_id_for e;
      job_id = replay_job_id e.job_id;
      payload = e.payload;
    }
        ∷ [],
    true,
  )
  after_add e already_exists = ([], true)
  after_add e add_failed = ([], false)

  unfoldable pub enqueue_dead_letter : DeadLetterEntry P → List (Enqueued P) × Bool
  enqueue_dead_letter e =
      if event_id_for e === ""
      then ([], false)
      else if any (λ q. q === e.queue_name) queue_names
      then after_add e (answer e.queue_name (replay_job_id e.job_id))
      else ([], false)

  abbrev pub cleared : (String → Bool) → ℕ → DeadLetterEntry P → Bool → Rows → Rows
  cleared clears now e false rows = rows
  cleared clears now e true rows = clear_dead_letter (clears e.job_id) now e.job_id rows

  abbrev pub noted : DeadLetterEntry P → List (Enqueued P) × Bool → Pass P → Pass P
  noted e (sent, true) rest = record rest {
    sent = sent ++ rest.sent;
    replayed = e.job_id ∷ rest.replayed;
  }
  noted e (sent, false) rest = record rest {
    sent = sent ++ rest.sent;
    skipped = e.job_id ∷ rest.skipped;
  }

  -- The loop of `replayDeadLetters`. `clears` says for which job the write of `clearDeadLetter`
  -- succeeds; its failure is not noticed.
  unfoldable pub replay_each : (String → Bool) → ℕ → List (DeadLetterEntry P) → Rows → Pass P
  replay_each clears now [] rows = nothing_done rows
  replay_each clears now (e ∷ es) rows =
      noted e (enqueue_dead_letter e)
        (replay_each clears now es (cleared clears now e (enqueue_dead_letter e).1 rows))

abbrev pub dlq_limit : ℕ
dlq_limit = 500

abbrev pub summary_of {ℓ} : {P : Type ℓ} → Pass P → DeadLetterReplaySummary
summary_of p = record { replayed = p.replayed; skipped = p.skipped; total = length p.replayed }

abbrev pub load_single {ℓ} :
    {P : Type ℓ}
    → Result ReadError (Option (DeadLetterEntry P))
    → Result ReplayError (List (DeadLetterEntry P))
load_single (err store_unavailable) = err dependency_unavailable
load_single (ok none) = err not_found
load_single (ok (some e)) = ok (e ∷ [])

abbrev pub load_all {ℓ} :
    {P : Type ℓ}
    → Result ReadError (List (DeadLetterEntry P))
    → Result ReplayError (List (DeadLetterEntry P))
load_all (err store_unavailable) = err dependency_unavailable
load_all (ok es) = ok es

module _ {ℓ} {P : Type ℓ} (parse : String → Option P) (empty_payload : P)
    (event_id_of : P → Option String) (answer : String → String → AddAnswer) where
  -- The entries of a replay; `up` says whether the read succeeds.
  unfoldable pub load : Bool → Option String → Rows → Result ReplayError (List (DeadLetterEntry P))
  load up none rows =
      load_all (get_dead_letters parse empty_payload up true none dlq_limit true rows)
  load up (some job_id) rows =
      if job_id === ""
      then load_all (get_dead_letters parse empty_payload up true none dlq_limit true rows)
      else load_single (get_dead_letter parse empty_payload up true job_id rows)

  abbrev pub run_loaded :
      (String → Bool)
      → ℕ
      → Rows
      → Result ReplayError (List (DeadLetterEntry P))
      → Pass P × Result ReplayError DeadLetterReplaySummary
  run_loaded clears now rows (err e) = (nothing_done rows, err e)
  run_loaded clears now rows (ok es) =
      let p = replay_each event_id_of answer clears now es rows in (p, ok (summary_of p))

  unfoldable pub replay_dead_letters :
      Bool
      → (String → Bool)
      → ℕ
      → Option String
      → Rows
      → Pass P × Result ReplayError DeadLetterReplaySummary
  replay_dead_letters up clears now job_id rows = run_loaded clears now rows (load up job_id rows)

-- `dlqReplayOutcomes` is a metric and left out; the key of a request is its target and its
-- idempotency key.
abbrev pub result_ttl_ms : ℕ
result_ttl_ms = 600000

abbrev pub result_max : ℕ
result_max = 1000

-- A finished replay that is remembered: when it was asked for, and its summary.
abbrev pub Completed : Type 0
Completed = Table (String × String) (ℕ × DeadLetterReplaySummary)

abbrev pub fresh : ℕ → ℕ → Bool
fresh now at = ltb (now - at) result_ttl_ms

abbrev pub drop_oldest : Completed → Completed
drop_oldest [] = []
drop_oldest (oldest ∷ others) = others

abbrev pub with_room : Completed → Completed
with_room kept = if leb result_max (length kept) then drop_oldest kept else kept

-- `rememberDlqReplay`: the expired results go, then the oldest one if there is no room.
unfoldable pub remember_dlq_replay :
    String × String → DeadLetterReplaySummary → ℕ → Completed → Completed
remember_dlq_replay key summary now completed =
    upsert key (λ _. (now, summary)) (now, summary)
      (with_room (keep (λ c. fresh now c.1.0) completed))

-- The state of the service between two waits: running replays with the time they were asked for.
pub record ReplayService : Type 0 where
  pub in_flight : Table (String × String) ℕ
  pub completed : Completed

-- What a request is told at once: an old summary, to wait for a running replay, or to run.
pub data Decision : Type 0 where
  answered : DeadLetterReplaySummary → Decision
  waits : Decision
  runs : Decision

abbrev pub running : Option ℕ → Decision
running none = runs
running (some _) = waits

abbrev pub remembered : ℕ → Option (ℕ × DeadLetterReplaySummary) → Decision → Decision
remembered now none other = other
remembered now (some (at, summary)) other = if fresh now at then answered summary else other

-- A request for the target of the key; the second text of the key is empty where the request has no
-- idempotency key.
unfoldable pub decide : String × String → ℕ → ReplayService → Decision
decide key now service =
    if key.1 === ""
    then running (find key service.in_flight)
    else remembered now (find key service.completed) (running (find key service.in_flight))

-- A replay begins, and the map of running ones knows it.
unfoldable pub begin_replay : String × String → ℕ → ReplayService → ReplayService
begin_replay key now service = record service {
  in_flight = upsert key (λ _. now) now service.in_flight;
}

abbrev pub memorised :
    String × String → ℕ → Result ReplayError DeadLetterReplaySummary → Completed → Completed
memorised key asked (err e) completed = completed
memorised key asked (ok summary) completed =
    if key.1 === "" then completed else remember_dlq_replay key summary asked completed

-- A replay that was asked for at `asked` ends.
unfoldable pub finish_replay :
    String × String → ℕ → Result ReplayError DeadLetterReplaySummary → ReplayService → ReplayService
finish_replay key asked result service = record {
  in_flight = remove key service.in_flight;
  completed = memorised key asked result service.completed;
}
