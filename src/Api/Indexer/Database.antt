-- ===== src/Api/Indexer/Database.antt =====
-- The tables of the database that apps/api/src/indexer/indexer.worker.ts writes, and its upserts.
-- Left out: the fields tvl, volume24h and feeApr, which the indexer sets to "0".
use swyft.Prelude.{
  ℕ, zero, suc, ◌-◌, ◌*◌, ◌+◌, Bool, true, false, ◌&&◌, String, Option, none, some, List, [], ◌∷◌,
  leb, ◌==◌, if◌then◌else◌,
}
use swyft.Prelude.BigInt.{ℤ, pos, neg}
use swyft.Prelude.Number.{codes}
use swyft.Prelude.Equality.{string_eq, pair_eq}
use swyft.Prelude.Table.{Table, upsert}
use swyft.Api.Indexer.Jobs.{
  PoolCreatedJobData, SwapProcessedJobData, PositionJobData, FeesCollectedJobData,
}

-- `new Date(text)`, or the clock's value.
pub data Date : Type 0 where
  parsed : String → Date
  clock : ℕ → Date

pub record Token : Type 0 where
  pub symbol : String
  pub name : String
  pub decimals : ℕ
  pub logo_uri : Option String

-- `created_at` is `none` where the column keeps its default, the time of the insertion.
pub record Pool : Type 0 where
  pub token0_address : String
  pub token1_address : String
  pub fee_tier : ℤ
  pub current_sqrt_price : String
  pub current_tick : ℤ
  pub liquidity : String
  pub created_at : Option Date
  pub updated_at : Date

pub record Swap : Type 0 where
  pub pool_id : String
  pub sender_address : String
  pub recipient_address : String
  pub amount0 : String
  pub amount1 : String
  pub sqrt_price_after : String
  pub tick_after : ℤ
  pub transaction_hash : String
  pub fee_amount : String
  pub timestamp : Date

pub record Position : Type 0 where
  pub owner_address : String
  pub lower_tick : ℤ
  pub upper_tick : ℤ
  pub liquidity : String
  pub closed_at : Option Date

-- The raw events keep the fields of the job; their key is the event's id.
pub record Db : Type 0 where
  pub pool_created : Table String PoolCreatedJobData
  pub swap_processed : Table String SwapProcessedJobData
  pub position_minted : Table String PositionJobData
  pub position_burned : Table String PositionJobData
  pub fees_collected : Table String FeesCollectedJobData
  pub tokens : Table String Token
  pub pools : Table String Pool
  pub swaps : Table String Swap
  pub positions : Table (String × String) Position

-- One call that writes; `none` where the database refuses it.
abbrev pub Write : Type 0
Write = Db → Option Db

abbrev pub committed : Db → (Db → Db × Bool) → Option Db → Db × Bool
committed db rest none = (db, false)
committed db rest (some next) = rest next

-- The calls in their order, while the connection holds (for `n` of them); up to the first that fails.
unfoldable pub perform : ℕ → List Write → Db → Db × Bool
perform n [] db = (db, true)
perform zero (w ∷ ws) db = (db, false)
perform (suc n) (w ∷ ws) db = committed db (λ next. perform n ws next) (w db)

-- prisma's `upsert` with `update: {}`.
abbrev pub ensure {ℓ} : {V : Type ℓ} → String → V → Table String V → Table String V
ensure k v t = upsert k (λ old. old) v t

-- `parseInt(text, 10)`: a sign and the digits that follow; `none` is NaN. White space before the
-- number is left out.
unfoldable pub leading : ℕ → List ℕ → ℕ
leading acc [] = acc
leading acc (c ∷ cs) =
    let rest = leading (acc * 10 + (c - b'0')) cs in if leb b'0' c && leb c b'9' then rest else acc

abbrev pub unsigned : (ℕ → ℤ) → List ℕ → Option ℤ
unsigned sign [] = none
unsigned sign (c ∷ cs) =
    if leb b'0' c && leb c b'9' then some (sign (leading (c - b'0') cs)) else none

unfoldable pub parse_int : String → Option ℤ
parse_int text = elim (codes text) [
  | [] ↦ none
  | c ∷ cs ↦
      if c == b'-'
      then unsigned neg cs
      else if c == b'+'
      then unsigned pos cs
      else unsigned pos (c ∷ cs)
]

-- `text.slice(0, n)` on a text of the Basic Multilingual Plane.
unfoldable pub slice : ℕ → String → String
slice zero text = ""
slice (suc n) String.[] = ""
slice (suc n) (String.◌∷◌ c s) = String.◌∷◌ c (slice n s)
