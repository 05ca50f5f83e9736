-- ===== src/Api/Indexer/Worker/Tests.antt =====
-- Runs of indexer.worker.ts, of its cursor and of the enrichment, and instances of their theorems.
use swyft.Prelude.{
  ◌⊎◌, is_none, ◌≡◌, refl, true, false, none, some, [], ◌∷◌, String, Bool, Option, ℕ, List,
}
use swyft.Prelude.BigInt.{ℤ, pos}
use swyft.Prelude.Number.{Number, int, big_int, digits, digits?, signed}
use swyft.Prelude.Equality.{string_eq, pair_eq, number_eq}
use swyft.Prelude.Table.{find}
use swyft.Api.Tokens.{TokenSources}
use swyft.Api.Indexer.Jobs.{
  SwapProcessedJobData, PoolCreatedJobData, PositionJobData, guard_empty_data,
}
use swyft.Api.Indexer.Database.{Token, Pool, perform, clock, Db, parse_int, leading, slice}
use swyft.Api.Indexer.Worker.{
  Handled, skipped, failed, handle_swap_processed, handle_pool_created, handle_position_minted,
  handle_position_burned, is_valid_sqrt_price,
}
use swyft.Api.Indexer.Worker.Replay.{handle_swap_processed_again, run_swaps, IsRepeated}
use swyft.Api.Indexer.Worker.Backfill.{backfilled}
use swyft.Api.Indexer.Worker.Positions.{closed_at, liquidity_of, minted_after_burned}
use swyft.Api.Indexer.Checkpoint.{process, process-checkpoint}
use swyft.Prelude.Counted.{drop_key}
use swyft.Api.Indexer.Cursor.{CursorStore, tested, upserted, run_advances, on_advance_event}
use swyft.Api.Indexer.Cursor.Overlap.{IsSettled, run_advances-IsSettled}

abbrev no_rows : Db
no_rows = record {
  pool_created = [];
  swap_processed = [];
  position_minted = [];
  position_burned = [];
  fees_collected = [];
  tokens = [];
  pools = [];
  swaps = [];
  positions = [];
}

abbrev swap_job : SwapProcessedJobData
swap_job = record {
  event_id = "e1";
  ledger = some (int (pos 7));
  pool_id = "P";
  sender = "S";
  recipient = "R";
  amount0 = "10";
  amount1 = "-9";
  sqrt_price_x96 = "99";
  liquidity = "1000";
  tick = pos 3;
  transaction_hash = none;
  fee_amount = none;
  timestamp = none;
}

abbrev created_job : PoolCreatedJobData
created_job = record {
  event_id = "e0";
  ledger = some (int (pos 6));
  pool_id = "P";
  token_a = "TOKENA";
  token_b = "TOKENB";
  fee = "3000";
  sqrt_price_x96 = "100";
  timestamp = none;
}

abbrev position_job : String → PositionJobData
position_job liquidity = record {
  event_id = "e2";
  ledger = none;
  pool_id = "P";
  token_id = "1";
  owner = "O";
  tick_lower = pos 0;
  tick_upper = pos 9;
  liquidity = liquidity;
  amount0 = "1";
  amount1 = "1";
}

-- No floating-point fee, no metadata.
abbrev no_fee : String → ℤ → String
no_fee amount tier = "0"

abbrev silent : TokenSources
silent = record {
  on_chain = λ _. record { symbol = none; name = none; decimals = none };
  listed = λ _. record { symbol = none; name = none; decimals = none; logo_uri = none };
}

guard_run : (handle_swap_processed no_fee 0 9 (record swap_job { sender = "" }) no_rows).1 ≡ skipped
unfolding handle_swap_processed guard_empty_data
guard_run = refl

slice_run : slice 4 "TOKENA" ≡ "TOKE"
unfolding slice
slice_run = refl

-- A swap of the same pool in between.
abbrev later_jobs : List (ℕ × (ℕ × SwapProcessedJobData))
later_jobs = (6, (3, record swap_job { event_id = "e9"; sqrt_price_x96 = "120" })) ∷ []

abbrev in_between : Db
in_between = run_swaps no_fee later_jobs (handle_swap_processed no_fee 5 3 swap_job no_rows).0

handle_swap_processed_again_example :
    IsRepeated 8 swap_job in_between (handle_swap_processed no_fee 8 2 swap_job in_between).0
unfolding guard_empty_data is_valid_sqrt_price big_int signed digits? digits
handle_swap_processed_again_example =
    handle_swap_processed_again no_fee 5 0 2 8 swap_job later_jobs no_rows refl refl

backfilled_example :
    find "P"
      (handle_pool_created silent 5 6 created_job
        (handle_swap_processed no_fee 5 3 swap_job no_rows).0).0.pools
    ≡ some (record {
      token0_address = "TOKENA";
      token1_address = "TOKENB";
      fee_tier = pos 3000;
      current_sqrt_price = "100";
      current_tick = pos 3;
      liquidity = "1000";
      created_at = none;
      updated_at = clock 5;
    })
unfolding guard_empty_data is_valid_sqrt_price big_int signed digits? digits parse_int leading find
backfilled_example =
    backfilled silent no_fee 5 0 swap_job created_job (pos 3000) no_rows refl refl refl refl refl
      refl

abbrev stored_pool : Pool
stored_pool = record {
  token0_address = "TOKENA";
  token1_address = "TOKENB";
  fee_tier = pos 3000;
  current_sqrt_price = "100";
  current_tick = pos 3;
  liquidity = "1000";
  created_at = none;
  updated_at = clock 1;
}

abbrev one_pool : Db
one_pool = record no_rows { pools = ("P", stored_pool) ∷ [] }

-- No position without its pool: the job fails.
orphan_run : (handle_position_minted 2 (position_job "5") no_rows).1 ≡ failed
unfolding handle_position_minted guard_empty_data perform find
orphan_run = refl

abbrev reminted : Db
reminted =
    (handle_position_minted 2 (position_job "5")
      (handle_position_burned 4 2 (position_job "0") one_pool).0).0

minted_after_burned_example :
    (liquidity_of (find ("P", "1") reminted.positions) ≡ some "5")
    × (closed_at (find ("P", "1") reminted.positions) ≡ some (clock 4))
unfolding guard_empty_data find
minted_after_burned_example =
    minted_after_burned 4 (position_job "0") (position_job "5") one_pool stored_pool refl refl refl
      refl refl

abbrev stored_token : Token
stored_token = record { symbol = "XLM"; name = "Lumen"; decimals = 7; logo_uri = none }

-- A `setMaxNumber` that always writes.
abbrev writing : ℤ → Option Number → Option Number × Bool
writing n old = (some (int n), true)

abbrev at_start : CursorStore
at_start = record { cached = none; cursor = none }

-- The write of 4 was decided at 2, before 9 was written: it puts the cursor back.
put_back_run :
    (run_advances
      (some writing)
      (tested true (int (pos 4))
        ∷ tested true (int (pos 9))
        ∷ upserted true 9
        ∷ upserted true 4
        ∷ [])
      (record {
        store = record at_start { cursor = some (int (pos 2)) };
        pending = [];
      })).store.cursor
    ≡ some (int (pos 4))
unfolding run_advances on_advance_event drop_key
put_back_run = refl

-- From 7 on, 12 and 9 overlap.
abbrev at_seven : CursorStore
at_seven = record at_start { cursor = some (int (pos 7)) }

run_advances-IsSettled_example : IsSettled 7 (
    run_advances
      (some writing)
      (tested true (int (pos 9))
        ∷ tested true (int (pos 12))
        ∷ upserted true 12
        ∷ upserted true 9
        ∷ [])
      (record { store = at_seven; pending = [] }))
run_advances-IsSettled_example =
    run_advances-IsSettled (some writing) 7
      (tested true (int (pos 9))
        ∷ tested true (int (pos 12))
        ∷ upserted true 12
        ∷ upserted true 9
        ∷ [])
      (record { store = at_seven; pending = [] }) refl tt

abbrev processed : (Db × CursorStore) × Handled
processed =
    process (some writing) true true swap_job.ledger (handle_swap_processed no_fee 5 3 swap_job)
      (no_rows, at_start)

process-checkpoint_example :
    (processed.0.1 ≡ at_start) ⊎ (is_none (find "e1" processed.0.0.swap_processed) ≡ false)
process-checkpoint_example =
    process-checkpoint (some writing) true true no_fee 5 3 swap_job no_rows at_start
