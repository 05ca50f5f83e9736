-- ===== src/Api/Indexer/Worker.antt =====
-- apps/api/src/indexer/indexer.worker.ts: the handlers of the five queues. A handler is given the
-- number `n` of calls that the database answers before the connection is lost. Calls that the code
-- starts together run one after the other; reads are not counted. The ticks of a job fit their
-- columns, which have 32 bits.
pub mod Replay
mod Backfill
mod Positions
mod Tests
use swyft.Prelude.{
  ℕ, zero, suc, ◌<◌, Bool, true, false, ◌||◌, String, Option, none, some, is_none, List, [], ◌∷◌,
  leb, ltb, if◌then◌else◌,
}
use swyft.Prelude.BigInt.{ℤ, pos, negsuc, ltb_ℤ}
use swyft.Prelude.Number.{big_int}
use swyft.Prelude.Equality.{◌===◌, string_eq, pair_eq}
use swyft.Prelude.Table.{Table, find, upsert}
use swyft.Api.Indexer.Jobs.{
  PoolCreatedJobData, SwapProcessedJobData, PositionJobData, FeesCollectedJobData, guard_empty_data,
  pool_created_texts, swap_processed_texts, position_texts, fees_collected_texts,
}
use swyft.Api.Tokens.{TokenSources, or_else, upsert_token}
use swyft.Api.Indexer.Database.{
  Date, parsed, clock, Token, Pool, Swap, Position, Db, Write, perform, ensure, parse_int, slice,
}

-- How a job ends: nothing done, an error for the queue to retry, or the events for the webhooks.
pub data Handled : Type 0 where
  skipped failed : Handled
  done : List (String × String) → Handled

abbrev pub unknown_token_address : String
unknown_token_address = "unknown"

abbrev pub date_of : ℕ → Option String → Date
date_of now none = clock now
date_of now (some text) = if text === "" then clock now else parsed text

-- The row that `projectPoolCreated` makes for a token it does not know.
abbrev pub new_token : String → Token
new_token address = record {
  symbol = slice 4 address;
  name = address;
  decimals = 7;
  logo_uri = none;
}

abbrev pub ensure_token : String → Write
ensure_token address db = some (record db { tokens = ensure address (new_token address) db.tokens })

-- The database refuses NaN and what does not fit 32 bits for an integer column.
abbrev pub int4 : Option ℤ → Option ℤ
int4 none = none
int4 (some (pos n)) = if leb n 2147483647 then some (pos n) else none
int4 (some (negsuc n)) = if leb n 2147483647 then some (negsuc n) else none

abbrev pub pool_write : ℕ → PoolCreatedJobData → Option ℤ → Write
pool_write now d none db = none
pool_write now d (some fee) db = some (record db {
  pools =
      upsert d.pool_id
        (λ pool. record pool {
          token0_address = d.token_a;
          token1_address = d.token_b;
          fee_tier = fee;
          current_sqrt_price = d.sqrt_price_x96;
          updated_at = clock now;
        })
        (record {
          token0_address = d.token_a;
          token1_address = d.token_b;
          fee_tier = fee;
          current_sqrt_price = d.sqrt_price_x96;
          current_tick = pos 0;
          liquidity = "0";
          created_at = some (date_of now d.timestamp);
          updated_at = clock now;
        })
        db.pools;
})

abbrev pub upsert_pool : ℕ → PoolCreatedJobData → Write
upsert_pool now d = pool_write now d (int4 (parse_int d.fee))

unfoldable pub project_pool_created : TokenSources → ℕ → PoolCreatedJobData → List Write
project_pool_created sources now d =
    ensure_token d.token_a
    ∷ ensure_token d.token_b
    ∷ upsert_pool now d
    ∷ upsert_token sources d.token_a
    ∷ upsert_token sources d.token_b
    ∷ []

abbrev pub raw_pool_created : PoolCreatedJobData → Write
raw_pool_created d db = some (record db { pool_created = ensure d.event_id d db.pool_created })

-- Errors of a projection are logged, not thrown.
abbrev pub projected : List (String × String) → Db × Bool → Db × Handled
projected webhooks (db, _) = (db, done webhooks)

-- A raw write whose error is thrown, then the rest.
abbrev pub after_raw : Db × Bool → (Db → Db × Handled) → Db × Handled
after_raw (db, false) rest = (db, failed)
after_raw (db, true) rest = rest db

abbrev pub pred : ℕ → ℕ
pred zero = zero
pred (suc n) = n

-- Whether the database answers the next call.
abbrev pub answers : ℕ → Bool
answers zero = false
answers (suc n) = true

unfoldable pub handle_pool_created : TokenSources → ℕ → ℕ → PoolCreatedJobData → Db → Db × Handled
handle_pool_created sources now n d db =
    if guard_empty_data (pool_created_texts d)
    then after_raw (perform n (raw_pool_created d ∷ []) db) (λ raw.
      projected (("pool.created", d.event_id) ∷ [])
        (perform (pred n) (project_pool_created sources now d) raw))
    else (db, skipped)

-- `isValidSqrtPrice` of pools.repository.ts on a text without white space around it; `none` is the
-- SyntaxError of BigInt.
unfoldable pub is_valid_sqrt_price : String → Option Bool
is_valid_sqrt_price value =
    if value === ""
    then some false
    else elim (big_int value) [ none ↦ none | some n ↦ some (ltb_ℤ (pos 0) n) ]

-- `derived_fee amount0 tier` is `String(Math.abs(Number(amount0)) * (tier / 1_000_000))`, "0" if not
-- finite: the floating-point arithmetic of JavaScript. `up` says whether the read succeeds.
unfoldable pub resolve_fee_amount :
    (String → ℤ → String) → Bool → SwapProcessedJobData → Db → String
resolve_fee_amount derived_fee up d db =
    let stored =
      if up
      then elim (find d.pool_id db.pools) [
        | none ↦ "0"
        | some pool ↦ derived_fee d.amount0 pool.fee_tier
      ]
      else "0" in
    elim d.fee_amount [ none ↦ stored | some given ↦ if given === "" then stored else given ]

-- A new row that refers to a pool is refused where there is no such pool.
abbrev pub refused : Bool → Option Pool → Bool
refused is_new none = is_new
refused is_new (some pool) = false

abbrev pub upsert_swap : ℕ → String → SwapProcessedJobData → Write
upsert_swap now fee_amount d db =
    if refused (is_none (find d.event_id db.swaps)) (find d.pool_id db.pools)
    then none
    else some (record db {
      swaps =
          ensure d.event_id
            (record {
              pool_id = d.pool_id;
              sender_address = d.sender;
              recipient_address = d.recipient;
              amount0 = d.amount0;
              amount1 = d.amount1;
              sqrt_price_after = d.sqrt_price_x96;
              tick_after = d.tick;
              transaction_hash = or_else d.transaction_hash d.event_id;
              fee_amount = fee_amount;
              timestamp = date_of now d.timestamp;
            })
            db.swaps;
    })

-- The pool of a swap; a placeholder where `pool.created` has not arrived.
abbrev pub upsert_pool_of_swap : ℕ → SwapProcessedJobData → Write
upsert_pool_of_swap now d db = some (record db {
  pools =
      upsert d.pool_id
        (λ pool. record pool {
          current_sqrt_price = d.sqrt_price_x96;
          current_tick = d.tick;
          liquidity = d.liquidity;
          updated_at = clock now;
        })
        (record {
          token0_address = unknown_token_address;
          token1_address = unknown_token_address;
          fee_tier = pos 0;
          current_sqrt_price = d.sqrt_price_x96;
          current_tick = d.tick;
          liquidity = d.liquidity;
          created_at = none;
          updated_at = clock now;
        })
        db.pools;
})

-- The calls for each answer of `isValidSqrtPrice`; where it throws, there are none.
abbrev pub swap_writes : ℕ → String → SwapProcessedJobData → Option Bool → List Write
swap_writes now fee_amount d none = []
swap_writes now fee_amount d (some false) = upsert_swap now fee_amount d ∷ []
swap_writes now fee_amount d (some true) =
    upsert_pool_of_swap now d ∷ upsert_swap now fee_amount d ∷ []

unfoldable pub project_swap_processed : ℕ → String → SwapProcessedJobData → List Write
project_swap_processed now fee_amount d =
    swap_writes now fee_amount d (is_valid_sqrt_price d.sqrt_price_x96)

abbrev pub raw_swap_processed : SwapProcessedJobData → Write
raw_swap_processed d db =
    some (record db { swap_processed = ensure d.event_id d db.swap_processed })

unfoldable pub handle_swap_processed :
    (String → ℤ → String) → ℕ → ℕ → SwapProcessedJobData → Db → Db × Handled
handle_swap_processed derived_fee now n d db =
    if guard_empty_data (swap_processed_texts d)
    then after_raw (perform n (raw_swap_processed d ∷ []) db) (λ raw.
      projected (("swap.large", d.event_id) ∷ []) (
        perform (pred n)
          (project_swap_processed now (resolve_fee_amount derived_fee (answers (pred n)) d raw) d)
          raw))
    else (db, skipped)

-- The row that a mint or a burn makes for a position it does not know.
abbrev pub new_position : Option Date → PositionJobData → Position
new_position closed d = record {
  owner_address = d.owner;
  lower_tick = d.tick_lower;
  upper_tick = d.tick_upper;
  liquidity = d.liquidity;
  closed_at = closed;
}

abbrev pub upsert_minted : PositionJobData → Write
upsert_minted d db =
    if refused (is_none (find (d.pool_id, d.token_id) db.positions)) (find d.pool_id db.pools)
    then none
    else some (record db {
      positions =
          upsert (d.pool_id, d.token_id) (λ p. record p { liquidity = d.liquidity })
            (new_position none d) db.positions;
    })

-- `...(isClosed ? { closedAt: new Date() } : {})`
abbrev pub closing : ℕ → PositionJobData → Option Date → Option Date
closing now d before = if d.liquidity === "0" then some (clock now) else before

abbrev pub upsert_burned : ℕ → PositionJobData → Write
upsert_burned now d db =
    if refused (is_none (find (d.pool_id, d.token_id) db.positions)) (find d.pool_id db.pools)
    then none
    else some (record db {
      positions =
          upsert (d.pool_id, d.token_id)
            (λ p. record p { liquidity = d.liquidity; closed_at = closing now d p.closed_at })
            (new_position (closing now d none) d) db.positions;
    })

abbrev pub when_token : PositionJobData → Write → List Write
when_token d w = if d.token_id === "" then [] else w ∷ []

abbrev pub finish : Db × Bool → Db × Handled
finish p = after_raw p (λ db. (db, done []))

-- Here both calls are in one `try` that throws again.
unfoldable pub handle_position_minted : ℕ → PositionJobData → Db → Db × Handled
handle_position_minted n d db =
    if guard_empty_data (position_texts d)
    then finish (
        perform n
          ((λ s. some (record s { position_minted = ensure d.event_id d s.position_minted }))
            ∷ when_token d (upsert_minted d))
          db)
    else (db, skipped)

unfoldable pub handle_position_burned : ℕ → ℕ → PositionJobData → Db → Db × Handled
handle_position_burned now n d db =
    if guard_empty_data (position_texts d)
    then finish (
        perform n
          ((λ s. some (record s { position_burned = ensure d.event_id d s.position_burned }))
            ∷ when_token d (upsert_burned now d))
          db)
    else (db, skipped)

unfoldable pub handle_fees_collected : ℕ → FeesCollectedJobData → Db → Db × Handled
handle_fees_collected n d db =
    if guard_empty_data (fees_collected_texts d)
    then finish (
        perform n
          ((λ s. some (record s { fees_collected = ensure d.event_id d s.fees_collected })) ∷ [])
          db)
    else (db, skipped)
