-- ===== src/Api/TvlAlerts.antt =====
-- apps/api/src/stats/tvl-alert.service.ts: thresholds on the value locked in a pool. The order of the
-- amounts, floating-point numbers, is a parameter; times are milliseconds. For every threshold that
-- is due the code makes three calls, the last one to `WebhooksService.dispatch`; how many of them
-- succeed before one throws is given.
mod Triggered
mod Quiet
mod Reach
mod Tests
use swyft.Prelude.{
  ℕ, zero, suc, ◌-◌, Bool, true, false, not, ◌&&◌, ◌||◌, String, Option, none, some, List, [], ◌∷◌,
  ltb, any, keep, if◌then◌else◌,
}
use swyft.Prelude.Equality.{◌===◌, string_eq, pair_eq}
use swyft.Prelude.Table.{Table, find, update, upsert}
use swyft.Api.Webhooks.{Hooks, dispatch}

pub data TvlAlertDirection : Type 0 where
  below above : TvlAlertDirection

pub record TvlAlertThreshold (F : Type 0) : Type 0 where
  pub pool_id : String
  pub owner_wallet : String
  pub threshold_usd : F
  pub direction : TvlAlertDirection
  pub enabled : Bool
  pub last_triggered_at : Option ℕ

pub record TvlAlertHistory (F : Type 0) : Type 0 where
  pub threshold_id : String
  pub owner_wallet : String
  pub observed_tvl_usd : F
  pub breached_at : ℕ

-- The thresholds by id, the history, the snapshots by pool and day, and the webhooks.
pub record AlertStore (F : Type 0) : Type 0 where
  pub thresholds : Table String (TvlAlertThreshold F)
  pub history : List (TvlAlertHistory F)
  pub snapshots : Table (String × String) F
  pub hooks : Hooks

-- 24 hours.
abbrev pub alert_pause_ms : ℕ
alert_pause_ms = 86400000

module _ {F : Type 0} where
  -- `findUnique` by pool and wallet.
  unfoldable pub find_threshold :
      String → String → Table String (TvlAlertThreshold F) → Option String
  find_threshold pool owner [] = none
  find_threshold pool owner ((id, t) ∷ rest) =
      if t.pool_id === pool && t.owner_wallet === owner
      then some id
      else find_threshold pool owner rest

  abbrev pub put_threshold :
      String
      → String
      → String
      → F
      → TvlAlertDirection
      → AlertStore F
      → Option String
      → AlertStore F × String
  put_threshold new_id owner pool level direction s (some id) = (
    record s {
      thresholds =
          update id (λ t. record t { threshold_usd = level; direction = direction; enabled = true })
            s.thresholds;
    },
    id,
  )
  put_threshold new_id owner pool level direction s none = (
    record s {
      thresholds =
          (
            new_id,
            record {
              pool_id = pool;
              owner_wallet = owner;
              threshold_usd = level;
              direction = direction;
              enabled = true;
              last_triggered_at = none;
            },
          )
          ∷ s.thresholds;
    },
    new_id,
  )

  -- `new_id` is the database's id of a new row.
  unfoldable pub set_threshold :
      String → String → String → F → TvlAlertDirection → AlertStore F → AlertStore F × String
  set_threshold new_id owner pool level direction s =
      put_threshold new_id owner pool level direction s (find_threshold pool owner s.thresholds)

  unfoldable pub list_thresholds : String → AlertStore F → Table String (TvlAlertThreshold F)
  list_thresholds owner s = keep (λ row. row.1.owner_wallet === owner) s.thresholds

  -- `updateMany`
  unfoldable pub disable_rows :
      String → String → Table String (TvlAlertThreshold F) → Table String (TvlAlertThreshold F)
  disable_rows id owner [] = []
  disable_rows id owner ((j, t) ∷ rest) =
      (j, if j === id && t.owner_wallet === owner then record t { enabled = false } else t)
      ∷ disable_rows id owner rest

  unfoldable pub disable_threshold : String → String → AlertStore F → AlertStore F
  disable_threshold id owner s = record s { thresholds = disable_rows id owner s.thresholds }

  unfoldable pub delete_threshold : String → String → AlertStore F → AlertStore F
  delete_threshold id owner s = record s {
    thresholds = keep (λ row. not (row.0 === id && row.1.owner_wallet === owner)) s.thresholds;
  }

  -- `day` is the date of today at midnight.
  unfoldable pub record_tvl_snapshot : String → String → F → AlertStore F → AlertStore F
  record_tvl_snapshot pool day tvl s = record s {
    snapshots = upsert (pool, day) (λ _. tvl) tvl s.snapshots;
  }

  -- The calls for one threshold that is due.
  unfoldable pub trigger : ℕ → F → ℕ → String × TvlAlertThreshold F → AlertStore F → AlertStore F
  trigger now tvl zero row s = s
  trigger now tvl (suc calls) (id, t) s =
      let recorded : AlertStore F = record s {
        history =
            record {
              threshold_id = id;
              owner_wallet = t.owner_wallet;
              observed_tvl_usd = tvl;
              breached_at = now;
            }
            ∷ s.history;
      } in
      elim calls [
        | zero ↦ recorded
        | suc more ↦
            let marked : AlertStore F = record recorded {
              thresholds = update id (λ r. record r { last_triggered_at = some now }) s.thresholds;
            } in
            elim more [
              | zero ↦ marked
              | suc _ ↦ record marked { hooks = dispatch "pool.tvl.milestone" s.hooks }
            ]
      ]

  unfoldable pub trigger_all :
      ℕ → F → (String → ℕ) → Table String (TvlAlertThreshold F) → AlertStore F → AlertStore F
  trigger_all now tvl calls [] s = s
  trigger_all now tvl calls ((id, t) ∷ rest) s =
      trigger_all now tvl calls rest (trigger now tvl (calls id) (id, t) s)

module _ {F : Type 0} (less : F → F → Bool) where
  abbrev pub crossed : TvlAlertDirection → F → F → Bool
  crossed below level tvl = less tvl level
  crossed above level tvl = less level tvl

  abbrev pub is_rested : ℕ → Option ℕ → Bool
  is_rested now none = true
  is_rested now (some at) = ltb at (now - alert_pause_ms)

  -- The `where` of the thresholds that are due.
  unfoldable pub is_due : ℕ → String → F → TvlAlertThreshold F → Bool
  is_due now pool tvl t =
      t.pool_id === pool
      && t.enabled
      && crossed t.direction t.threshold_usd tvl
      && is_rested now t.last_triggered_at

  -- `calls` says how many calls succeed for a threshold.
  unfoldable pub check_and_trigger_alerts :
      ℕ → String → F → (String → ℕ) → AlertStore F → AlertStore F
  check_and_trigger_alerts now pool tvl calls s =
      trigger_all now tvl calls (keep (λ row. is_due now pool tvl row.1) s.thresholds) s
