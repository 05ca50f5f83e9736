-- ===== src/Api/Candles/Collected.antt =====
-- All pages of `getTicks` in candles.service.ts together.
use swyft.Prelude.{
  ℕ, zero, suc, ◌+◌, ◌-◌, ◌≤◌, ◌<◌, ◌≡◌, refl, ap, ◌∙◌, true, String, Option, none, some, List, [],
  ◌∷◌, ◌++◌, arith, ok, ltb, lt→ltb, le→ltb, length, length-take, take,
}
use mathlib.Core.Option
use native.Mathlib.Decide.{dec_lt}
use swyft.Prelude.Number.{Number}
use swyft.Prelude.Equality.{string_eq}
use swyft.Api.Candles.Keys.{CandleInterval}
use swyft.Api.Candles.Ticks.{
  TickDto, TicksQuery, FindMany, get_ticks, resolve_limit, decode_cursor, authorize_ticks, page_of,
  last_start, encoded, tick_interval,
}
use swyft.Api.Candles.Paging.{
  Ascending, later, drop, take_all, take-take, take-drop, later_page, collect, followed, got,
  IsCodec, Answers,
}

module _ {F : Type 0} where
  last_some :
      (n : ℕ) (rows : List (TickDto F))
      → suc n < length rows
      → (l : ℕ) × (last_start (take (suc n) rows) ≡ some l)
  last_some n [] h = absurd (omega arith)
  last_some zero (r ∷ rest) h = (r.period_start, refl)
  last_some (suc n) (r ∷ []) h = absurd (omega arith)
  last_some (suc n) (r ∷ s ∷ rest) h = last_some n (s ∷ rest) (omega arith)

  length-drop : (n : ℕ) (rows : List (TickDto F)) → length (drop n rows) ≡ length rows - n
  length-drop zero rows = omega arith
  length-drop (suc n) [] = omega arith
  length-drop (suc n) (r ∷ rows) = omega (arith, length-drop n rows)

  page_of-more :
      (encode : ℕ → String) (n : ℕ) (rows : List (TickDto F))
      → n < length rows
      → page_of encode n (some (take (suc n) rows))
        ≡ ok
            (record { rows = take n rows; next_cursor = encoded encode (last_start (take n rows)) })
  page_of-more encode n rows h =
      let more : ltb n (length (take (suc n) rows)) ≡ true =
        lt→ltb n (length (take (suc n) rows)) (omega (arith, length-take (suc n) rows)) in
      rw (more, take-take n rows) refl

  page_of-last :
      (encode : ℕ → String) (n : ℕ) (rows : List (TickDto F))
      → length rows ≤ n
      → page_of encode n (some (take (suc n) rows))
        ≡ ok (record { rows = rows; next_cursor = none })
  page_of-last encode n rows h =
      rw (take_all (suc n) rows (omega arith), le→ltb n (length rows) h) refl

decode_cursor-encode :
    (encode : ℕ → String) (decode : String → Option ℕ)
    → IsCodec encode decode
    → (l : ℕ) → decode_cursor decode (some (encode l)) ≡ ok (some l)
unfolding decode_cursor
decode_cursor-encode encode decode codec l = rw (codec.not_empty l, codec.decode-encode l) refl

module _ {F : Type 0} (encode : ℕ → String) (decode : String → Option ℕ)
    (find_many : FindMany F) where
  get_ticks-page_of :
      (query : TicksQuery) (actor : Option (List String)) (interval : CandleInterval) (n : ℕ)
      (at : Option ℕ) (rows : List (TickDto F))
      → authorize_ticks actor ≡ ok tt
      → tick_interval query.interval ≡ ok interval
      → resolve_limit query.limit ≡ ok n
      → decode_cursor decode query.cursor ≡ ok at
      → find_many query.pool_id interval at (suc n) ≡ some rows
      → get_ticks encode decode find_many query actor ≡ page_of encode n (some rows)
  unfolding get_ticks
  get_ticks-page_of query actor interval n at rows allowed i limit cursor found =
      let next : n + 1 ≡ suc n = omega arith in rw (allowed, i, limit, cursor, next, found) refl

  module _ (codec : IsCodec encode decode) (pool : String) (text : Option String)
      (interval : CandleInterval) (limit : Option Number) (n : ℕ) (actor : Option (List String))
      (series : List (TickDto F)) (allowed : authorize_ticks actor ≡ ok tt)
      (known : tick_interval text ≡ ok interval) (limited : resolve_limit limit ≡ ok (suc n))
      (ascending : Ascending series) (answers : Answers find_many pool interval series) where
    abbrev query_at : Option String → TicksQuery
    query_at cursor = record { pool_id = pool; interval = text; limit = limit; cursor = cursor }

    collect_from :
        (fuel : ℕ) (cursor : Option String) (at : Option ℕ)
        → decode_cursor decode cursor ≡ ok at
        → length (later at series) < fuel
        → collect encode decode find_many fuel (query_at cursor) actor ≡ some (later at series)
    unfolding collect
    collect_from zero cursor at c h = absurd (omega arith)
    collect_from (suc fuel) cursor at c h =
        let rows = later at series in
        let rest : String → Option (List (TickDto F)) =
          λ text. collect encode decode find_many fuel (query_at (some text)) actor in
        let page =
          get_ticks-page_of (query_at cursor) actor interval (suc n) at (take (suc (suc n)) rows)
            allowed known limited c (answers at (suc (suc n))) in
        elim (dec_lt (suc n) (length rows)) [
          | yes more ↦
              let l = last_some n rows more in
              let past : later (some l.0) series ≡ drop (suc n) rows =
                later_page n at series ascending more l.0 l.1 in
              let fewer : length (later (some l.0) series) < fuel =
                rw past (omega (arith, length-drop (suc n) rows)) in
              let remaining =
                collect_from fuel (some (encode l.0)) (some l.0)
                  (decode_cursor-encode encode decode codec l.0) fewer in
              ap (got rest) (page ∙ page_of-more encode (suc n) rows more)
              ∙ ap
                  (λ (o : Option ℕ).
                    followed rest
                      (record {
                        rows = take (suc n) rows;
                        next_cursor = encoded encode (last_start (take (suc n) rows));
                      })
                      (encoded encode o))
                  l.1
              ∙ ap (Option.map (λ (others : List (TickDto F)). take (suc n) rows ++ others))
                  remaining
              ∙ ap (λ (others : List (TickDto F)). some (take (suc n) rows ++ others)) past
              ∙ ap some (take-drop (suc n) rows)
          | no last ↦ ap (got rest) (page ∙ page_of-last encode (suc n) rows (omega arith))
        ]

    -- Where the database answers from a series with one row for each period, in ascending order, and
    -- the cursors decode: an authorized client with a valid limit that asks for page after page, one
    -- page more than there are rows at most, gets exactly the whole series, in order, nothing twice.
    pub collect_all :
        collect encode decode find_many (suc (length series)) (query_at none) actor ≡ some series
    unfolding decode_cursor
    collect_all = collect_from (suc (length series)) none none refl (omega arith)
