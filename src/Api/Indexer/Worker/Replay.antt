-- ===== src/Api/Indexer/Worker/Replay.antt =====
-- A swap job that is delivered again, after other swap jobs.
use swyft.Prelude.{
  ℕ, zero, suc, ◌≡◌, ◌⊎◌, refl, ap, subst, ◌∙◌, Bool, true, false, String, Option, none, some,
  is_none, List, [], ◌∷◌, All, inl, inr, Bool-cases, Option-cases, if◌then◌else◌,
}
use swyft.Prelude.BigInt.{ℤ, pos}
use swyft.Prelude.Equality.{◌===◌, string_eq, ===_refl}
use swyft.Prelude.Table.{Table, find, find-upsert, upsert_same, changed}
use swyft.Api.Indexer.Jobs.{SwapProcessedJobData, guard_empty_data, swap_processed_texts}
use swyft.Api.Indexer.Database.{Db, Pool, Swap, Write, clock, perform, ensure}
use swyft.Api.Tokens.{or_else}
use swyft.Api.Indexer.Worker.{
  swap_writes, answers, handle_swap_processed, project_swap_processed, resolve_fee_amount, date_of,
  is_valid_sqrt_price, raw_swap_processed, upsert_swap, upsert_pool_of_swap, refused,
  unknown_token_address,
}

-- The row of a pool after a swap with a valid price.
abbrev pub swapped : ℕ → SwapProcessedJobData → Option Pool → Pool
swapped now d =
    changed
      (λ pool. record pool {
        current_sqrt_price = d.sqrt_price_x96;
        current_tick = d.tick;
        liquidity = d.liquidity;
        updated_at = clock now;
      })
      (record {
        token0_address = unknown_token_address;
        token1_address = unknown_token_address;
        fee_tier = pos 0;
        current_sqrt_price = d.sqrt_price_x96;
        current_tick = d.tick;
        liquidity = d.liquidity;
        created_at = none;
        updated_at = clock now;
      })

-- The row of a swap that is new.
abbrev pub swap_row : ℕ → String → SwapProcessedJobData → Swap
swap_row now fee d = record {
  pool_id = d.pool_id;
  sender_address = d.sender;
  recipient_address = d.recipient;
  amount0 = d.amount0;
  amount1 = d.amount1;
  sqrt_price_after = d.sqrt_price_x96;
  tick_after = d.tick;
  transaction_hash = or_else d.transaction_hash d.event_id;
  fee_amount = fee;
  timestamp = date_of now d.timestamp;
}

-- A call keeps a property of the tables.
abbrev pub Keeps : (Db → Type 0) → Write → Type 0
Keeps P w = (s next : Db) → P s → w s ≡ some next → P next

pub perform-Keeps :
    (P : Db → Type 0) (n : ℕ) (ws : List Write) (s : Db)
    → All (Keeps P) ws
    → P s
    → P (perform n ws s).0
unfolding perform
perform-Keeps P n [] s all h = h
perform-Keeps P zero (w ∷ ws) s all h = h
perform-Keeps P (suc n) (w ∷ ws) s (keep, all) h = elim (Option-cases (w s)) [
  | inl gone ↦ rw (gone) h
  | inr (next, e) ↦ rw (e) (perform-Keeps P n ws next all (keep s next h e))
]

pub swap_writes-Keeps :
    (P : Db → Type 0) (now : ℕ) (fee : String) (d : SwapProcessedJobData) (valid : Option Bool)
    → Keeps P (upsert_pool_of_swap now d)
    → Keeps P (upsert_swap now fee d)
    → All (Keeps P) (swap_writes now fee d valid)
swap_writes-Keeps P now fee d none pool swap = tt
swap_writes-Keeps P now fee d (some false) pool swap = (swap, tt)
swap_writes-Keeps P now fee d (some true) pool swap = (pool, (swap, tt))

-- What each call of a swap job keeps, the job keeps.
handle_swap_processed-Keeps :
    (P : Db → Type 0) (derived_fee : String → ℤ → String) (now n : ℕ) (d : SwapProcessedJobData)
    (s : Db)
    → Keeps P (raw_swap_processed d)
    → Keeps P (upsert_pool_of_swap now d)
    → ((fee : String) → Keeps P (upsert_swap now fee d))
    → P s
    → P (handle_swap_processed derived_fee now n d s).0
unfolding handle_swap_processed project_swap_processed perform
handle_swap_processed-Keeps P derived_fee now zero d s raw pool swap h =
    elim (Bool-cases (guard_empty_data (swap_processed_texts d))) [
      | inr empty ↦ rw (empty) h
      | inl full ↦ rw (full) h
    ]
handle_swap_processed-Keeps P derived_fee now (suc n) d s raw pool swap h =
    elim (Bool-cases (guard_empty_data (swap_processed_texts d))) [
      | inr empty ↦ rw (empty) h
      | inl full ↦ rw (full) (
          let stored = record s { swap_processed = ensure d.event_id d s.swap_processed } in
          let fee = resolve_fee_amount derived_fee (answers n) d stored in
          let valid = is_valid_sqrt_price d.sqrt_price_x96 in
          perform-Keeps P n (swap_writes now fee d valid) stored
            (swap_writes-Keeps P now fee d valid pool (swap fee)) (raw s stored h refl))
    ]

-- A row that is there stays.
find-ensure {ℓ} :
    {V : Type ℓ} (k j : String) (v w : V) (t : Table String V)
    → find j t ≡ some v
    → find j (ensure k w t) ≡ some v
find-ensure k j v w t there = elim (Bool-cases (k === j)) [
  | inl same ↦
      let e : k ≡ j = (string_eq.same_iff k j).0 same in
      find-upsert k j (λ old. old) w t ∙ rw (same, e, there) refl
  | inr other ↦ find-upsert k j (λ old. old) w t ∙ rw (other) there
]

-- What a swap that was stored is kept by: its row and its raw event.
abbrev IsStored : String → Swap → SwapProcessedJobData → Db → Type 0
IsStored event_id row raw s =
    (find event_id s.swaps ≡ some row) × (find event_id s.swap_processed ≡ some raw)

pub some_same : {s t : Db} → ◌≡◌ {A = Option Db} (some s) (some t) → s ≡ t
some_same h = cc

unless_refused : (b : Bool) (s next : Db) → (if b then none else some s) ≡ some next → s ≡ next
unless_refused true s next e = cc
unless_refused false s next e = some_same e

abbrev with_swap : ℕ → String → SwapProcessedJobData → Db → Db
with_swap now fee d s = record s { swaps = ensure d.event_id (swap_row now fee d) s.swaps }

abbrev with_pool : ℕ → SwapProcessedJobData → Db → Db
with_pool now d s = or_else (upsert_pool_of_swap now d s) s

abbrev with_raw : SwapProcessedJobData → Db → Db
with_raw d s = record s { swap_processed = ensure d.event_id d s.swap_processed }

-- A property that the written tables have is kept by the call that may be refused.
pub upsert_swap-Keeps :
    (P : Db → Type 0) (now : ℕ) (fee : String) (d : SwapProcessedJobData)
    → ((s : Db) → P s → P (with_swap now fee d s))
    → Keeps P (upsert_swap now fee d)
upsert_swap-Keeps P now fee d keep s next h e =
    subst P
      (unless_refused (refused (is_none (find d.event_id s.swaps)) (find d.pool_id s.pools))
        (with_swap now fee d s) next e)
      (keep s h)

handle_swap_processed-IsStored :
    (event_id : String) (row : Swap) (raw : SwapProcessedJobData)
    (derived_fee : String → ℤ → String) (now n : ℕ) (d : SwapProcessedJobData) (s : Db)
    → IsStored event_id row raw s
    → IsStored event_id row raw (handle_swap_processed derived_fee now n d s).0
handle_swap_processed-IsStored event_id row raw derived_fee now n d s h =
    let P = IsStored event_id row raw in
    handle_swap_processed-Keeps P derived_fee now n d s
      (λ t next h e.
        subst P (some_same e) (h.0, find-ensure d.event_id event_id raw d t.swap_processed h.1))
      (λ t next h e. subst P (some_same e) h)
      (λ fee.
        upsert_swap-Keeps P now fee d
          (λ t h. (find-ensure d.event_id event_id row (swap_row now fee d) t.swaps h.0, h.1)))
      h

-- Swap jobs one after the other, each with its time and the number of calls that are answered.
abbrev pub run_swaps : (String → ℤ → String) → List (ℕ × (ℕ × SwapProcessedJobData)) → Db → Db
run_swaps derived_fee [] s = s
run_swaps derived_fee ((now, (n, d)) ∷ jobs) s =
    run_swaps derived_fee jobs (handle_swap_processed derived_fee now n d s).0

run_swaps-IsStored :
    (event_id : String) (row : Swap) (raw : SwapProcessedJobData)
    (derived_fee : String → ℤ → String) (jobs : List (ℕ × (ℕ × SwapProcessedJobData))) (s : Db)
    → IsStored event_id row raw s
    → IsStored event_id row raw (run_swaps derived_fee jobs s)
run_swaps-IsStored event_id row raw derived_fee [] s h = h
run_swaps-IsStored event_id row raw derived_fee ((now, (n, d)) ∷ jobs) s h =
    run_swaps-IsStored event_id row raw derived_fee jobs
      (handle_swap_processed derived_fee now n d s).0
      (handle_swap_processed-IsStored event_id row raw derived_fee now n d s h)

-- What a job leaves of the tables `before` where its swap is stored.
abbrev pub IsRepeated : ℕ → SwapProcessedJobData → Db → Db → Type 0
IsRepeated now d before s =
    (s ≡ record before { pools = s.pools })
    × ((pool : String)
        → find pool s.pools ≡ find pool before.pools
          ⊎ ((d.pool_id ≡ pool)
              × (find pool s.pools ≡ some (swapped now d (find pool before.pools)))))

swapped_twice :
    (now : ℕ) (d : SwapProcessedJobData) (o : Option Pool)
    → swapped now d (some (swapped now d o)) ≡ swapped now d o
swapped_twice now d none = refl
swapped_twice now d (some pool) = refl

swapped_again :
    (now : ℕ) (d : SwapProcessedJobData) (o before : Option Pool)
    → (o ≡ before) ⊎ (o ≡ some (swapped now d before))
    → swapped now d o ≡ swapped now d before
swapped_again now d o before (inl same) = ap (swapped now d) same
swapped_again now d o before (inr changed) = ap (swapped now d) changed ∙ swapped_twice now d before

find-with_pool :
    (now : ℕ) (d : SwapProcessedJobData) (pool : String) (s : Db)
    → find pool (with_pool now d s).pools ≡ (
        if d.pool_id === pool
        then some (swapped now d (find d.pool_id s.pools))
        else find pool s.pools)
find-with_pool now d pool s = find-upsert d.pool_id pool _ _ s.pools

forgotten : {A B C : Type 0} → A ⊎ (B × C) → A ⊎ C
forgotten (inl a) = inl a
forgotten (inr (b, c)) = inr c

module _ (now : ℕ) (d : SwapProcessedJobData) (before : Db) (row : Swap)
    (raw : SwapProcessedJobData) (stored : IsStored d.event_id row raw before) where
  with_raw-IsRepeated :
      (s : Db) → IsRepeated now d before s → IsRepeated now d before (with_raw d s)
  with_raw-IsRepeated s h = (
    ap (with_raw d) h.0
        ∙ ap (λ t. record before { pools = s.pools; swap_processed = t })
            (upsert_same d.event_id (λ old. old) d raw before.swap_processed stored.1 refl),
    h.1,
  )

  with_swap-IsRepeated :
      (fee : String) (s : Db)
      → IsRepeated now d before s
      → IsRepeated now d before (with_swap now fee d s)
  with_swap-IsRepeated fee s h = (
    ap (with_swap now fee d) h.0
        ∙ ap (λ t. record before { pools = s.pools; swaps = t })
            (upsert_same d.event_id (λ old. old) (swap_row now fee d) row before.swaps stored.0
              refl),
    h.1,
  )

  with_pool-IsRepeated :
      (s : Db) → IsRepeated now d before s → IsRepeated now d before (with_pool now d s)
  with_pool-IsRepeated s h = (
    ap {A = Db} (λ t. record t { pools = (with_pool now d s).pools }) h.0,
    λ pool. elim (Bool-cases (d.pool_id === pool)) [
      | inr other ↦ rw (find-with_pool now d pool s, other) (h.1 pool)
      | inl same ↦ inr (
        (string_eq.same_iff d.pool_id pool).0 same,
        find-with_pool now d pool s
            ∙ rw (same) (
                rw (← (string_eq.same_iff d.pool_id pool).0 same) (
                  ap some (
                    swapped_again now d (find d.pool_id s.pools) (find d.pool_id before.pools)
                      (forgotten (h.1 d.pool_id))))),
      )
    ],
  )

  handle_swap_processed-IsRepeated :
      (derived_fee : String → ℤ → String) (n : ℕ)
      → IsRepeated now d before (handle_swap_processed derived_fee now n d before).0
  handle_swap_processed-IsRepeated derived_fee n =
      let P = IsRepeated now d before in
      handle_swap_processed-Keeps P derived_fee now n d before
        (λ t next h e. subst P (some_same e) (with_raw-IsRepeated t h))
        (λ t next h e. subst P (some_same e) (with_pool-IsRepeated t h))
        (λ fee. upsert_swap-Keeps P now fee d (with_swap-IsRepeated fee)) (refl, λ pool. inl refl)

module _ (derived_fee : String → ℤ → String) (now m : ℕ) where
  -- The tables after a job with a valid price whose calls are all answered.
  pub handle_swap_processed-full :
      (d : SwapProcessedJobData) (db : Db)
      → guard_empty_data (swap_processed_texts d) ≡ true
      → is_valid_sqrt_price d.sqrt_price_x96 ≡ some true
      → (handle_swap_processed derived_fee now (suc (suc (suc m))) d db).0
        ≡ with_swap now
            (resolve_fee_amount derived_fee true d (with_raw d db))
            d
            (with_pool now d (with_raw d db))
  unfolding handle_swap_processed project_swap_processed perform
  handle_swap_processed-full d db guarded valid =
      rw (guarded, valid, find-with_pool now d d.pool_id (with_raw d db), ===_refl d.pool_id) refl

  full-IsStored :
      (d : SwapProcessedJobData) (db : Db)
      → guard_empty_data (swap_processed_texts d) ≡ true
      → is_valid_sqrt_price d.sqrt_price_x96 ≡ some true
      → (row : Swap) × (raw : SwapProcessedJobData) × IsStored d.event_id row raw
          (handle_swap_processed derived_fee now (suc (suc (suc m))) d db).0
  full-IsStored d db guarded valid =
      let fee = resolve_fee_amount derived_fee true d (with_raw d db) in
      (
        changed (λ old. old) (swap_row now fee d) (find d.event_id db.swaps),
        changed (λ old. old) d (find d.event_id db.swap_processed),
        rw (handle_swap_processed-full d db guarded valid) (
            rw
              (
                find-upsert d.event_id d.event_id,
                find-upsert d.event_id d.event_id,
                ===_refl d.event_id,
              )
              (refl, refl)),
      )

  -- A swap with a valid price whose job was handled with every call answered, then any swap jobs: if
  -- the job is delivered again, at any later time and with any number of calls answered, no table
  -- changes but that of the pools, and there at most the pool of this swap, which gets the price,
  -- the tick and the liquidity of this swap again and the time of the repetition.
  pub handle_swap_processed_again :
      (n later : ℕ) (d : SwapProcessedJobData) (jobs : List (ℕ × (ℕ × SwapProcessedJobData)))
      (db : Db)
      → guard_empty_data (swap_processed_texts d) ≡ true
      → is_valid_sqrt_price d.sqrt_price_x96 ≡ some true
      → IsRepeated later d
          (run_swaps derived_fee jobs
            (handle_swap_processed derived_fee now (suc (suc (suc m))) d db).0)
          (handle_swap_processed derived_fee later n d (
            run_swaps derived_fee jobs
              (handle_swap_processed derived_fee now (suc (suc (suc m))) d db).0)).0
  handle_swap_processed_again n later d jobs db guarded valid =
      let first = (handle_swap_processed derived_fee now (suc (suc (suc m))) d db).0 in
      let (row, raw, stored) = full-IsStored d db guarded valid in
      handle_swap_processed-IsRepeated later d (run_swaps derived_fee jobs first) row raw
        (run_swaps-IsStored d.event_id row raw derived_fee jobs first stored) derived_fee n
