-- ===== src/Api/Indexer/Replays/Partition.antt =====
-- What a replay does with each of its entries.
use swyft.Prelude.{
  ℕ, ◌≡◌, refl, Bool, true, false, not, ◌&&◌, ◌||◌, String, Option, none, some, List, [], ◌∷◌, ◌++◌,
  keep, any, map, if◌then◌else◌, Bool-cases, inl, inr, ap, ◌∙◌,
}
use swyft.Prelude.Equality.{◌===◌, string_eq}
use swyft.Prelude.Table.{find, map?}
use swyft.Api.Indexer.DeadLetters.{DeadLetterEntry, Row, Rows, clear_dead_letter}
use swyft.Api.Indexer.DeadLetters.Laws.{recovered, recovered-row}
use swyft.Api.Indexer.Replays.{
  AddAnswer, Enqueued, Pass, enqueue_dead_letter, replay_each, noted, cleared,
}

at_key :
    (now : ℕ) (job_id j : String) (rows : Rows)
    → (if job_id === j then map? (recovered now) (find job_id rows) else find j rows)
      ≡ (if job_id === j then map? (recovered now) (find j rows) else find j rows)
at_key now job_id j rows = elim (Bool-cases (job_id === j)) [
  | inl same ↦
      rw (same)
        (ap (λ k. map? (recovered now) (find k rows)) ((string_eq.same_iff job_id j).0 same))
  | inr other ↦ rw (other)
]

cleared-row :
    (up : Bool) (now : ℕ) (job_id j : String) (rows : Rows)
    → find j (clear_dead_letter up now job_id rows)
      ≡ (if up && job_id === j then map? (recovered now) (find j rows) else find j rows)
unfolding clear_dead_letter
cleared-row false now job_id j rows = refl
cleared-row true now job_id j rows = recovered-row now job_id j rows ∙ at_key now job_id j rows

module _ {ℓ} {P : Type ℓ} (event_id_of : P → Option String)
    (answer : String → String → AddAnswer) where
  abbrev pub takes : DeadLetterEntry P → Bool
  takes e = (enqueue_dead_letter event_id_of answer e).1

  abbrev pub sent_for : List (DeadLetterEntry P) → List (Enqueued P)
  sent_for [] = []
  sent_for (e ∷ es) = (enqueue_dead_letter event_id_of answer e).0 ++ sent_for es

  abbrev pub ids : List (DeadLetterEntry P) → List String
  ids es = map (λ e. e.job_id) es

  noted-lists :
      (e : DeadLetterEntry P) (es : List (DeadLetterEntry P)) (rest : Pass P)
      → rest.replayed ≡ ids (keep takes es)
      → rest.skipped ≡ ids (keep (λ x. not (takes x)) es)
      → rest.sent ≡ sent_for es
      → ((noted event_id_of answer e (enqueue_dead_letter event_id_of answer e) rest).replayed
          ≡ ids (keep takes (e ∷ es)))
        × ((noted event_id_of answer e (enqueue_dead_letter event_id_of answer e) rest).skipped
            ≡ ids (keep (λ x. not (takes x)) (e ∷ es)))
        × ((noted event_id_of answer e (enqueue_dead_letter event_id_of answer e) rest).sent
            ≡ sent_for (e ∷ es))
  noted-lists e es rest h k l = elim (Bool-cases (takes e)) [
    | inl taken ↦ (rw (taken, h), rw (taken, k), rw (taken, l))
    | inr left ↦ (rw (left, h), rw (left, k), rw (left, l))
  ]

  -- The three lists of a replay: the entries that their queue takes, in order; the others, in order;
  -- and what the queues get, entry by entry. No entry is in both lists or in none.
  pub replay_each-lists :
      (clears : String → Bool) (now : ℕ) (es : List (DeadLetterEntry P)) (rows : Rows)
      → ((replay_each event_id_of answer clears now es rows).replayed ≡ ids (keep takes es))
        × ((replay_each event_id_of answer clears now es rows).skipped
            ≡ ids (keep (λ e. not (takes e)) es))
        × ((replay_each event_id_of answer clears now es rows).sent ≡ sent_for es)
  unfolding replay_each
  replay_each-lists clears now [] rows = (refl, refl, refl)
  replay_each-lists clears now (e ∷ es) rows =
      let next = cleared event_id_of answer clears now e (takes e) rows in
      let (h, k, l) = replay_each-lists clears now es next in
      noted-lists e es (replay_each event_id_of answer clears now es next) h k l

  -- Whether a replay marks the row of a job as recovered.
  abbrev pub marks : (String → Bool) → List (DeadLetterEntry P) → String → Bool
  marks clears es j = any (λ e. takes e && clears e.job_id && e.job_id === j) es

  noted-rows :
      (e : DeadLetterEntry P) (taken : List (Enqueued P) × Bool) (rest : Pass P)
      → (noted event_id_of answer e taken rest).rows ≡ rest.rows
  noted-rows e (sent, true) rest = refl
  noted-rows e (sent, false) rest = refl

  cleared-rows :
      (clears : String → Bool) (now : ℕ) (e : DeadLetterEntry P) (taken : Bool) (rows : Rows)
      (j : String)
      → find j (cleared event_id_of answer clears now e taken rows) ≡ (
          if taken && clears e.job_id && e.job_id === j
          then map? (recovered now) (find j rows)
          else find j rows)
  cleared-rows clears now e false rows j = refl
  cleared-rows clears now e true rows j = cleared-row (clears e.job_id) now e.job_id j rows

  recovered_twice :
      (now : ℕ) (o : Option Row)
      → map? (recovered now) (map? (recovered now) o) ≡ map? (recovered now) o
  recovered_twice now none = refl
  recovered_twice now (some row) = refl

  merged :
      (here later : Bool) (f : Option Row → Option Row) (o : Option Row)
      → f (f o) ≡ f o
      → (if later then f (if here then f o else o) else if here then f o else o)
        ≡ (if here || later then f o else o)
  merged true true f o twice = twice
  merged true false f o twice = refl
  merged false later f o twice = refl

  -- After a replay, exactly the rows of the entries that their queue takes, and whose write
  -- succeeds, are marked as recovered now; every other row is as before.
  pub replay_each-rows :
      (clears : String → Bool) (now : ℕ) (es : List (DeadLetterEntry P)) (rows : Rows) (j : String)
      → find j (replay_each event_id_of answer clears now es rows).rows
        ≡ (if marks clears es j then map? (recovered now) (find j rows) else find j rows)
  unfolding replay_each
  replay_each-rows clears now [] rows j = refl
  replay_each-rows clears now (e ∷ es) rows j =
      let next = cleared event_id_of answer clears now e (takes e) rows in
      let here = takes e && clears e.job_id && e.job_id === j in
      rw
        (
          noted-rows e (enqueue_dead_letter event_id_of answer e)
              (replay_each event_id_of answer clears now es next),
          replay_each-rows clears now es next j,
          cleared-rows clears now e (takes e) rows j,
        )
        (merged here (marks clears es j) (map? (recovered now)) (find j rows)
          (recovered_twice now (find j rows)))
