-- ===== src/Api/Indexer/Jobs.antt =====
-- apps/api/src/indexer/queues.ts: what a queue carries; the guard of indexer.worker.ts on it.
-- A field of type Option may be missing. A producer's fields are not null.
use swyft.Prelude.{Bool, not, String, Option, none, some, List, [], ◌∷◌, all, ◌++◌}
use swyft.Prelude.BigInt.{ℤ}
use swyft.Prelude.Number.{Number}
use swyft.Prelude.Equality.{◌===◌, string_eq}

pub record PoolCreatedJobData : Type 0 where
  pub event_id : String
  pub ledger : Option Number
  pub pool_id : String
  pub token_a : String
  pub token_b : String
  pub fee : String
  pub sqrt_price_x96 : String
  pub timestamp : Option String

pub record SwapProcessedJobData : Type 0 where
  pub event_id : String
  pub ledger : Option Number
  pub pool_id : String
  pub sender : String
  pub recipient : String
  pub amount0 : String
  pub amount1 : String
  pub sqrt_price_x96 : String
  pub liquidity : String
  pub tick : ℤ
  pub transaction_hash : Option String
  pub fee_amount : Option String
  pub timestamp : Option String

-- Also FeesCollectedJobData, of which the handler reads fewer fields.
pub record PositionJobData : Type 0 where
  pub event_id : String
  pub ledger : Option Number
  pub pool_id : String
  pub token_id : String
  pub owner : String
  pub tick_lower : ℤ
  pub tick_upper : ℤ
  pub liquidity : String
  pub amount0 : String
  pub amount1 : String

pub record FeesCollectedJobData : Type 0 where
  pub event_id : String
  pub ledger : Option Number
  pub pool_id : String
  pub recipient : String
  pub amount0 : String
  pub amount1 : String

-- `guardEmptyData` on the texts of a job, in the order of its entries.
unfoldable pub guard_empty_data : List String → Bool
guard_empty_data texts = all (λ t. not (t === "")) texts

abbrev pub present : Option String → List String
present none = []
present (some t) = t ∷ []

abbrev pub pool_created_texts : PoolCreatedJobData → List String
pool_created_texts d =
    d.event_id ∷ d.pool_id ∷ d.token_a ∷ d.token_b ∷ d.fee ∷ d.sqrt_price_x96 ∷ present d.timestamp

abbrev pub swap_processed_texts : SwapProcessedJobData → List String
swap_processed_texts d =
    d.event_id
      ∷ d.pool_id
      ∷ d.sender
      ∷ d.recipient
      ∷ d.amount0
      ∷ d.amount1
      ∷ d.sqrt_price_x96
      ∷ d.liquidity
      ∷ present d.transaction_hash
    ++ present d.fee_amount
    ++ present d.timestamp

abbrev pub position_texts : PositionJobData → List String
position_texts d =
    d.event_id ∷ d.pool_id ∷ d.token_id ∷ d.owner ∷ d.liquidity ∷ d.amount0 ∷ d.amount1 ∷ []

abbrev pub fees_collected_texts : FeesCollectedJobData → List String
fees_collected_texts d = d.event_id ∷ d.pool_id ∷ d.recipient ∷ d.amount0 ∷ d.amount1 ∷ []
