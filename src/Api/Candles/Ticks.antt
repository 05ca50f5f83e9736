-- ===== src/Api/Candles/Ticks.antt =====
-- The read path of candles.service.ts: `getTicks` and its cursor. The database's `findMany` and the
-- text of a cursor (ISO date, base64url) are parameters; a cursor's text decodes to a time or throws.
use swyft.Prelude.{
  ℕ, ◌+◌, String, Option, none, some, List, [], ◌∷◌, Result, err, ok, ◌>>=◌, ◌>>◌, ltb, leb, ◌&&◌,
  if◌then◌else◌, length, take,
}
use swyft.Prelude.BigInt.{pos}
use swyft.Prelude.Number.{Number, int}
use swyft.Prelude.Equality.{◌===◌, string_eq}
use swyft.Api.Candles.{Ohlcv, assert_interval, has_role}
use swyft.Api.Candles.Keys.{CandleInterval}

pub data TickErrorCode : Type 0 where
  invalid_limit invalid_cursor unauthorized dependency_unavailable : TickErrorCode
  invalid_interval : TickErrorCode

abbrev pub ticks_default_limit : ℕ
ticks_default_limit = 100

abbrev pub ticks_max_limit : ℕ
ticks_max_limit = 1000

abbrev pub ticks_read_roles : List String
ticks_read_roles = "admin" ∷ "candles:read" ∷ "ticks:read" ∷ []

pub record TickDto (F : Type 0) : Type 0 where
  pub pool_id : String
  pub interval : CandleInterval
  pub period_start : ℕ
  pub bar : Ohlcv F

pub record TicksQuery : Type 0 where
  pub pool_id : String
  pub interval : Option String
  pub limit : Option Number
  pub cursor : Option String

pub record TicksPage (F : Type 0) : Type 0 where
  pub rows : List (TickDto F)
  pub next_cursor : Option String

-- Pool, interval, `gt`, `take`; `none` is an outage.
abbrev pub FindMany : Type 0 → Type 0
FindMany F = String → CandleInterval → Option ℕ → ℕ → Option (List (TickDto F))

unfoldable pub resolve_limit : Option Number → Result TickErrorCode ℕ
resolve_limit none = ok ticks_default_limit
resolve_limit (some (int (pos n))) =
    if leb 1 n && leb n ticks_max_limit then ok n else err invalid_limit
resolve_limit (some _) = err invalid_limit

abbrev pub decoded : Option ℕ → Result TickErrorCode (Option ℕ)
decoded none = err invalid_cursor
decoded (some at) = ok (some at)

unfoldable pub decode_cursor : (String → Option ℕ) → Option String → Result TickErrorCode (Option ℕ)
decode_cursor decode none = ok none
decode_cursor decode (some text) = if text === "" then ok none else decoded (decode text)

unfoldable pub authorize_ticks : Option (List String) → Result TickErrorCode (Unit {0})
authorize_ticks none = err unauthorized
authorize_ticks (some roles) = if has_role ticks_read_roles roles then ok tt else err unauthorized

abbrev pub interval_or_default : Option String → String
interval_or_default none = "1m"
interval_or_default (some text) = text

abbrev pub tick_interval : Option String → Result TickErrorCode CandleInterval
tick_interval text = elim (assert_interval (interval_or_default text)) [
  | err _ ↦ err invalid_interval
  | ok interval ↦ ok interval
]

abbrev pub encoded : (ℕ → String) → Option ℕ → Option String
encoded encode none = none
encoded encode (some at) = some (encode at)

module _ {F : Type 0} where
  -- The start of the last row of a page.
  abbrev pub last_start : List (TickDto F) → Option ℕ
  last_start [] = none
  last_start (r ∷ []) = some r.period_start
  last_start (r ∷ s ∷ rest) = last_start (s ∷ rest)

  -- The page of the rows that were read, one more than the limit at most.
  abbrev pub page_of :
      (ℕ → String) → ℕ → Option (List (TickDto F)) → Result TickErrorCode (TicksPage F)
  page_of encode limit none = err dependency_unavailable
  page_of encode limit (some rows) =
      if ltb limit (length rows)
      then ok (record {
        rows = take limit rows;
        next_cursor = encoded encode (last_start (take limit rows));
      })
      else ok (record { rows = rows; next_cursor = none })

module _ {F : Type 0} (encode : ℕ → String) (decode : String → Option ℕ)
    (find_many : FindMany F) where
  unfoldable pub get_ticks : TicksQuery → Option (List String) → Result TickErrorCode (TicksPage F)
  get_ticks query actor = do
    authorize_ticks actor
    interval ← tick_interval query.interval
    limit ← resolve_limit query.limit
    after ← decode_cursor decode query.cursor
    page_of encode limit (find_many query.pool_id interval after (limit + 1))
