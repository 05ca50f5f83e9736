-- ===== src/Api/Indexer/Checkpoint.antt =====
-- apps/api/src/indexer/indexer.worker.ts: a job from its queue to the checkpoint. Every handler ends
-- with `advanceLedger`, unless it returned early or threw; before the indexer is ready, a job is
-- passed over.
use swyft.Prelude.{
  ℕ, zero, suc, ◌≡◌, ◌⊎◌, inl, inr, refl, subst, Bool, true, false, String, Option, is_none,
  if◌then◌else◌, Bool-cases,
}
use swyft.Prelude.BigInt.{ℤ}
use swyft.Prelude.Number.{Number}
use swyft.Prelude.Equality.{string_eq, ===_refl}
use swyft.Prelude.Table.{find, find-upsert}
use swyft.Api.Indexer.Jobs.{SwapProcessedJobData, guard_empty_data, swap_processed_texts}
use swyft.Api.Indexer.Database.{Db, perform}
use swyft.Api.Indexer.Worker.{
  Handled, skipped, failed, done, handle_swap_processed, project_swap_processed, swap_writes,
}
use swyft.Api.Indexer.Worker.Replay.{perform-Keeps, swap_writes-Keeps, upsert_swap-Keeps, some_same}
use swyft.Api.Indexer.Cursor.{CursorStore, SetMaxNumber, advance_job}

abbrev pub after_handled : SetMaxNumber → Bool → Option Number → Handled → CursorStore → CursorStore
after_handled set_max up ledger (done webhooks) cursor = advance_job set_max up ledger cursor
after_handled set_max up ledger skipped cursor = cursor
after_handled set_max up ledger failed cursor = cursor

-- A job with its ledger and its handler. `up` says whether the cursor's table answers.
unfoldable pub process :
    SetMaxNumber
    → Bool
    → Bool
    → Option Number
    → (Db → Db × Handled)
    → Db × CursorStore
    → (Db × CursorStore) × Handled
process set_max up ready ledger handler (db, cursor) =
    if ready
    then (((handler db).0, after_handled set_max up ledger (handler db).1 cursor), (handler db).1)
    else ((db, cursor), skipped)

swap_writes-raw :
    (n now : ℕ) (fee : String) (d : SwapProcessedJobData) (valid : Option Bool) (db : Db)
    → (perform n (swap_writes now fee d valid) db).0.swap_processed ≡ db.swap_processed
swap_writes-raw n now fee d valid db =
    let P : Db → Type 0 = λ s. s.swap_processed ≡ db.swap_processed in
    perform-Keeps P n (swap_writes now fee d valid) db
      (swap_writes-Keeps P now fee d valid (λ s next h e. subst P (some_same e) h)
        (upsert_swap-Keeps P now fee d (λ s h. h)))
      refl

handled-empty :
    (derived_fee : String → ℤ → String) (now n : ℕ) (d : SwapProcessedJobData) (db : Db)
    → guard_empty_data (swap_processed_texts d) ≡ false
    → handle_swap_processed derived_fee now n d db ≡ (db, skipped)
unfolding handle_swap_processed
handled-empty derived_fee now n d db empty = rw (empty)

handled-down :
    (derived_fee : String → ℤ → String) (now : ℕ) (d : SwapProcessedJobData) (db : Db)
    → guard_empty_data (swap_processed_texts d) ≡ true
    → handle_swap_processed derived_fee now zero d db ≡ (db, failed)
unfolding handle_swap_processed perform
handled-down derived_fee now d db full = rw (full)

-- What a handled job has stored.
handled-stored :
    (derived_fee : String → ℤ → String) (now n : ℕ) (d : SwapProcessedJobData) (db : Db)
    → guard_empty_data (swap_processed_texts d) ≡ true
    → is_none
        (find d.event_id (handle_swap_processed derived_fee now (suc n) d db).0.swap_processed)
      ≡ false
unfolding handle_swap_processed perform project_swap_processed
handled-stored derived_fee now n d db full =
    rw (full, swap_writes-raw n now, find-upsert d.event_id d.event_id, ===_refl d.event_id)

-- The checkpoint moves only for a job whose raw event is stored: after a swap job, in every case of
-- guards and failures, the cursor is as before or the raw event of this job is in its table.
pub process-checkpoint :
    (set_max : SetMaxNumber) (up ready : Bool) (derived_fee : String → ℤ → String) (now n : ℕ)
    (d : SwapProcessedJobData) (db : Db) (cursor : CursorStore)
    → ((process set_max up ready d.ledger
          (handle_swap_processed derived_fee now n d)
          (db, cursor)).0.1
        ≡ cursor)
      ⊎ (is_none (
            find d.event_id
              (process set_max up ready d.ledger
                (handle_swap_processed derived_fee now n d)
                (db, cursor)).0.0.swap_processed)
          ≡ false)
unfolding process
process-checkpoint set_max up false derived_fee now n d db cursor = inl refl
process-checkpoint set_max up true derived_fee now zero d db cursor =
    elim (Bool-cases (guard_empty_data (swap_processed_texts d))) [
      | inl full ↦ inl (rw (handled-down derived_fee now d db full))
      | inr empty ↦ inl (rw (handled-empty derived_fee now 0 d db empty))
    ]
process-checkpoint set_max up true derived_fee now (suc n) d db cursor =
    elim (Bool-cases (guard_empty_data (swap_processed_texts d))) [
      | inl full ↦ inr (handled-stored derived_fee now n d db full)
      | inr empty ↦ inl (rw (handled-empty derived_fee now (suc n) d db empty))
    ]
