-- ===== src/Api/Indexer/Worker/Positions.antt =====
-- The position of a mint or a burn.
use swyft.Prelude.{
  sym, ap, ◌∙◌, ℕ, ◌≡◌, true, false, String, Option, none, some, arith, if◌then◌else◌,
}
use swyft.Prelude.Equality.{◌===◌, string_eq, pair_eq, ===_refl}
use swyft.Prelude.Table.{find, find-upsert, changed}
use swyft.Api.Indexer.Jobs.{PositionJobData, guard_empty_data, position_texts}
use swyft.Api.Indexer.Database.{Position, Pool, Date, clock, Db, perform}
use swyft.Api.Indexer.Worker.{handle_position_minted, handle_position_burned, new_position, closing}

abbrev pub key : PositionJobData → String × String
key d = (d.pool_id, d.token_id)

-- The row of a position after a mint, and after a burn at the time `now`.
abbrev pub row_minted : PositionJobData → Option Position → Position
row_minted d = changed (λ p. record p { liquidity = d.liquidity }) (new_position none d)

abbrev pub row_burned : ℕ → PositionJobData → Option Position → Position
row_burned now d =
    changed (λ p. record p { liquidity = d.liquidity; closed_at = closing now d p.closed_at })
      (new_position (closing now d none) d)

full_named :
    (d : PositionJobData) → guard_empty_data (position_texts d) ≡ true → (d.token_id === "") ≡ false
unfolding guard_empty_data
full_named d full = ground arith

-- A mint into a pool that is there, with its two calls answered, sets the liquidity of its position to the event's, or makes
-- the position; every other position stays.
pub handle_position_minted-positions :
    (d : PositionJobData) (db : Db) (k : String × String) (pool : Pool)
    → guard_empty_data (position_texts d) ≡ true
    → find d.pool_id db.pools ≡ some pool
    → find k (handle_position_minted 2 d db).0.positions ≡ (
        if key d === k
        then some (row_minted d (find (key d) db.positions))
        else find k db.positions)
unfolding handle_position_minted perform
handle_position_minted-positions d db k pool full there =
    rw (full, full_named d full, there, find-upsert (key d) k)

-- A burn in a pool that is there, with its two calls answered, sets the liquidity of its position to the event's and closes
-- the position exactly if this is "0", or makes the position; every other position stays.
pub handle_position_burned-positions :
    (now : ℕ) (d : PositionJobData) (db : Db) (k : String × String) (pool : Pool)
    → guard_empty_data (position_texts d) ≡ true
    → find d.pool_id db.pools ≡ some pool
    → find k (handle_position_burned now 2 d db).0.positions ≡ (
        if key d === k
        then some (row_burned now d (find (key d) db.positions))
        else find k db.positions)
unfolding handle_position_burned perform
handle_position_burned-positions now d db k pool full there =
    rw (full, full_named d full, there, find-upsert (key d) k)

handle_position_burned-pools :
    (now : ℕ) (d : PositionJobData) (db : Db) (pool : Pool)
    → guard_empty_data (position_texts d) ≡ true
    → find d.pool_id db.pools ≡ some pool
    → (handle_position_burned now 2 d db).0.pools ≡ db.pools
unfolding handle_position_burned perform
handle_position_burned-pools now d db pool full there = rw (full, full_named d full, there)

abbrev pub closed_at : Option Position → Option Date
closed_at none = none
closed_at (some p) = p.closed_at

abbrev pub liquidity_of : Option Position → Option String
liquidity_of none = none
liquidity_of (some p) = some p.liquidity

row_burned-closed :
    (now : ℕ) (b : PositionJobData) (o : Option Position)
    → b.liquidity ≡ "0"
    → (row_burned now b o).closed_at ≡ some (clock now)
row_burned-closed now b none zeroed = rw (zeroed)
row_burned-closed now b (some p) zeroed = rw (zeroed)

-- A position of a pool that is there, burned to "0" and then minted again with every call answered:
-- it has the liquidity of the mint and is still marked as closed at the time of the burn.
pub minted_after_burned :
    (now : ℕ) (b d : PositionJobData) (db : Db) (pool : Pool)
    → guard_empty_data (position_texts b) ≡ true
    → guard_empty_data (position_texts d) ≡ true
    → key b ≡ key d
    → b.liquidity ≡ "0"
    → find b.pool_id db.pools ≡ some pool
    → (liquidity_of (
          find
            (key d)
            (handle_position_minted 2 d (handle_position_burned now 2 b db).0).0.positions)
        ≡ some d.liquidity)
      × (closed_at (
            find
              (key d)
              (handle_position_minted 2 d (handle_position_burned now 2 b db).0).0.positions)
          ≡ some (clock now))
minted_after_burned now b d db pool full full' same zeroed there =
    let s = (handle_position_burned now 2 b db).0 in
    let row : find (key d) s.positions ≡ some (row_burned now b (find (key b) db.positions)) = rw (
      handle_position_burned-positions now b db (key d) pool full there,
      (pair_eq.same_iff (key b) (key d)).1 same,
    ) in
    let still : find d.pool_id s.pools ≡ some pool =
      rw (handle_position_burned-pools now b db pool full there)
        (ap (λ (k : String × String). find k.0 db.pools) (sym same) ∙ there) in
    let next : find (key d) (handle_position_minted 2 d s).0.positions
        ≡ some (row_minted d (some (row_burned now b (find (key b) db.positions)))) =
      rw (handle_position_minted-positions d s (key d) pool full' still, ===_refl (key d), row) in
    (rw (next), rw (next, row_burned-closed now b (find (key b) db.positions) zeroed))
