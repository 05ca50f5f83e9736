-- ===== src/Api/Indexer/Worker/Backfill.antt =====
-- A swap and the `pool.created` event of its pool, in both orders.
use swyft.Prelude.{ℕ, suc, ◌≡◌, true, String, Option, none, some, subst}
use swyft.Prelude.BigInt.{ℤ, pos}
use swyft.Prelude.Equality.{string_eq, ===_refl}
use swyft.Prelude.Table.{find, find-upsert, changed}
use swyft.Api.Tokens.{TokenSources, upsert_token}
use swyft.Api.Indexer.Jobs.{
  SwapProcessedJobData, guard_empty_data, swap_processed_texts, PoolCreatedJobData,
  pool_created_texts,
}
use swyft.Api.Indexer.Database.{Pool, Db, clock, perform, parse_int}
use swyft.Api.Indexer.Worker.{
  int4, handle_pool_created, project_pool_created, handle_swap_processed, is_valid_sqrt_price,
  date_of,
}
use swyft.Api.Indexer.Worker.Replay.{swapped, handle_swap_processed-full}

-- The row of a pool after its `pool.created` event.
abbrev pub created : ℕ → PoolCreatedJobData → ℤ → Option Pool → Pool
created now c fee =
    changed
      (λ pool. record pool {
        token0_address = c.token_a;
        token1_address = c.token_b;
        fee_tier = fee;
        current_sqrt_price = c.sqrt_price_x96;
        updated_at = clock now;
      })
      (record {
        token0_address = c.token_a;
        token1_address = c.token_b;
        fee_tier = fee;
        current_sqrt_price = c.sqrt_price_x96;
        current_tick = pos 0;
        liquidity = "0";
        created_at = some (date_of now c.timestamp);
        updated_at = clock now;
      })

module _ (derived_fee : String → ℤ → String) (now m : ℕ) where
  -- After a swap with a valid price whose calls are all answered, the pool of the swap carries the
  -- price, the tick and the liquidity of this swap, and a placeholder is made where there was no
  -- pool; it does not matter which swaps were handled before, or how much newer they are.
  pub handle_swap_processed-pool :
      (d : SwapProcessedJobData) (db : Db)
      → guard_empty_data (swap_processed_texts d) ≡ true
      → is_valid_sqrt_price d.sqrt_price_x96 ≡ some true
      → find d.pool_id (handle_swap_processed derived_fee now (suc (suc (suc m))) d db).0.pools
        ≡ some (swapped now d (find d.pool_id db.pools))
  handle_swap_processed-pool d db full valid = rw (
    handle_swap_processed-full derived_fee now m d db full valid,
    find-upsert d.pool_id d.pool_id,
    ===_refl d.pool_id,
  )

module _ (sources : TokenSources) (derived_fee : String → ℤ → String) (now m : ℕ) where
  -- After a `pool.created` event with a fee that is a number of 32 bits, when every call is answered, the pool
  -- has the tokens, the fee and the price of the event; of a pool that was there, the tick, the
  -- liquidity and the time of creation stay.
  pub handle_pool_created-pool :
      (c : PoolCreatedJobData) (fee : ℤ) (db : Db)
      → guard_empty_data (pool_created_texts c) ≡ true
      → int4 (parse_int c.fee) ≡ some fee
      → find c.pool_id
          (handle_pool_created sources now (suc (suc (suc (suc (suc (suc m)))))) c db).0.pools
        ≡ some (created now c fee (find c.pool_id db.pools))
  unfolding handle_pool_created project_pool_created perform upsert_token
  handle_pool_created-pool c fee db full parsed =
      rw (full, parsed, find-upsert c.pool_id c.pool_id, ===_refl c.pool_id)

  -- A swap of a pool that is not known yet, then the `pool.created` event of this pool, whose fee is a
  -- number of 32 bits, with every call answered: the tokens
  -- and the fee of the placeholder are replaced, the tick and the liquidity are those of the swap,
  -- and the price is the one of the event, although the event is older than the swap.
  pub backfilled :
      (d : SwapProcessedJobData) (c : PoolCreatedJobData) (fee : ℤ) (db : Db)
      → guard_empty_data (swap_processed_texts d) ≡ true
      → is_valid_sqrt_price d.sqrt_price_x96 ≡ some true
      → guard_empty_data (pool_created_texts c) ≡ true
      → int4 (parse_int c.fee) ≡ some fee
      → d.pool_id ≡ c.pool_id
      → find c.pool_id db.pools ≡ none
      → find c.pool_id
          (handle_pool_created sources now
            (suc (suc (suc (suc (suc (suc m))))))
            c
            (handle_swap_processed derived_fee now (suc (suc (suc m))) d db).0).0.pools
        ≡ some (record {
          token0_address = c.token_a;
          token1_address = c.token_b;
          fee_tier = fee;
          current_sqrt_price = c.sqrt_price_x96;
          current_tick = d.tick;
          liquidity = d.liquidity;
          created_at = none;
          updated_at = clock now;
        })
  backfilled d c fee db full valid full' parsed same absent =
      let swap = (handle_swap_processed derived_fee now (suc (suc (suc m))) d db).0 in
      let placeholder : find c.pool_id swap.pools ≡ some (swapped now d (find c.pool_id db.pools)) =
        subst (λ p. find p swap.pools ≡ some (swapped now d (find p db.pools))) same
          (handle_swap_processed-pool derived_fee now m d db full valid) in
      rw (handle_pool_created-pool c fee swap full' parsed, placeholder, absent)
