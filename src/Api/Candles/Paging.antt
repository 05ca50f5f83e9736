-- ===== src/Api/Candles/Paging.antt =====
-- A client that follows the cursors of `getTicks` in candles.service.ts.
use swyft.Prelude.{
  ℕ, zero, suc, ◌≤◌, ◌<◌, ◌≡◌, refl, sym, ap, ◌∙◌, Bool, false, String, Option, none, some, List,
  [], ◌∷◌, ◌++◌, arith, Result, err, ok, ltb, lt→ltb, ltb→lt, le→ltb, if◌then◌else◌, length, take,
  keep, All, inl, inr, Bool-cases,
}
use mathlib.Core.Option
use swyft.Prelude.Equality.{◌===◌, string_eq}
use swyft.Api.Candles.Keys.{CandleInterval}
use swyft.Api.Candles.Ticks.{
  TickDto, TicksQuery, TicksPage, TickErrorCode, FindMany, get_ticks, last_start,
}

abbrev pub drop {ℓ} : {A : Type ℓ} → ℕ → List A → List A
drop zero xs = xs
drop (suc n) [] = []
drop (suc n) (x ∷ xs) = drop n xs

module _ {F : Type 0} where
  -- One row for a period, in their order: the unique key with `orderBy: { periodStart: 'asc' }`.
  abbrev pub Ascending : List (TickDto F) → Type 0
  Ascending [] = Unit
  Ascending (r ∷ rest) = All (λ s. r.period_start < s.period_start) rest × Ascending rest

  -- `where: { periodStart: { gt } }`
  abbrev pub later : Option ℕ → List (TickDto F) → List (TickDto F)
  later none rows = rows
  later (some at) rows = keep (λ r. ltb at r.period_start) rows

  keep_whole :
      (at : ℕ) (rows : List (TickDto F))
      → All (λ s. at < s.period_start) rows
      → keep (λ r. ltb at r.period_start) rows ≡ rows
  keep_whole at [] h = refl
  keep_whole at (r ∷ rest) (h, hs) =
      rw (lt→ltb at r.period_start h) (ap (◌∷◌ r) (keep_whole at rest hs))

  All-last_start :
      (at : ℕ) (r : TickDto F) (rest : List (TickDto F)) (n : ℕ)
      → at < r.period_start
      → All (λ s. at < s.period_start) rest
      → (l : ℕ) × (last_start (take (suc n) (r ∷ rest)) ≡ some l) × (at < l)
  All-last_start at r rest zero h hs = (r.period_start, refl, h)
  All-last_start at r [] (suc n) h hs = (r.period_start, refl, h)
  All-last_start at r (s ∷ rest) (suc n) h (hs, hr) = All-last_start at s rest n hs hr

  later_past :
      (o : Option ℕ) (l : ℕ) (r : TickDto F) (rows : List (TickDto F))
      → o ≡ some l
      → r.period_start < l
      → later o (r ∷ rows) ≡ later o rows
  later_past o l r rows e h = rw (e, le→ltb l r.period_start (omega arith)) refl

  -- The rows after a page are those that start later than its last row.
  after_page :
      (n : ℕ) (rows : List (TickDto F))
      → Ascending rows
      → suc n < length rows
      → later (last_start (take (suc n) rows)) rows ≡ drop (suc n) rows
  after_page n [] a h = absurd (omega arith)
  after_page zero (r ∷ rest) (first, a) h =
      rw (le→ltb r.period_start r.period_start (omega arith)) (keep_whole r.period_start rest first)
  after_page (suc n) (r ∷ []) a h = absurd (omega arith)
  after_page (suc n) (r ∷ s ∷ rest) ((first, more), a) h =
      let found = All-last_start r.period_start s rest n first more in
      let end_at = last_start (take (suc n) (s ∷ rest)) in
      later_past end_at found.0 r (s ∷ rest) found.1 found.2
      ∙ after_page n (s ∷ rest) a (omega arith)

  -- A page that ends with the last row.
  pub take_all : (n : ℕ) (rows : List (TickDto F)) → length rows ≤ n → take n rows ≡ rows
  take_all zero [] h = refl
  take_all zero (r ∷ rows) h = absurd (omega arith)
  take_all (suc n) [] h = refl
  take_all (suc n) (r ∷ rows) h = ap (◌∷◌ r) (take_all n rows (omega arith))

  pub take-take : (n : ℕ) (rows : List (TickDto F)) → take n (take (suc n) rows) ≡ take n rows
  take-take zero rows = refl
  take-take (suc n) [] = refl
  take-take (suc n) (r ∷ rows) = ap (◌∷◌ r) (take-take n rows)

  pub take-drop : (n : ℕ) (rows : List (TickDto F)) → take n rows ++ drop n rows ≡ rows
  take-drop zero rows = refl
  take-drop (suc n) [] = refl
  take-drop (suc n) (r ∷ rows) = ap (◌∷◌ r) (take-drop n rows)

  All-keep :
      (P : TickDto F → Type 0) (p : TickDto F → Bool) (rows : List (TickDto F))
      → All P rows
      → All P (keep p rows)
  All-keep P p [] h = tt
  All-keep P p (r ∷ rows) (h, hs) = elim (Bool-cases (p r)) [
    | inl kept ↦ rw kept (h, All-keep P p rows hs)
    | inr left ↦ rw left (All-keep P p rows hs)
  ]

  later-Ascending :
      (at : Option ℕ) (rows : List (TickDto F)) → Ascending rows → Ascending (later at rows)
  later-Ascending none rows a = a
  later-Ascending (some at) [] a = a
  later-Ascending (some at) (r ∷ rows) (first, a) = elim (Bool-cases (ltb at r.period_start)) [
    | inl kept ↦ rw kept (
      All-keep (λ s. r.period_start < s.period_start) (λ s. ltb at s.period_start) rows first,
      later-Ascending (some at) rows a,
    )
    | inr left ↦ rw left (later-Ascending (some at) rows a)
  ]

  -- A later cursor sees through an earlier one.
  keep-keep :
      (l c : ℕ) (rows : List (TickDto F))
      → c < l
      → keep (λ r. ltb l r.period_start) (keep (λ r. ltb c r.period_start) rows)
        ≡ keep (λ r. ltb l r.period_start) rows
  keep-keep l c [] h = refl
  keep-keep l c (r ∷ rows) h = elim (Bool-cases (ltb c r.period_start)) [
    | inl kept ↦
        rw (kept) (ap (λ xs. if ltb l r.period_start then r ∷ xs else xs) (keep-keep l c rows h))
    | inr left ↦
        let below : ltb l r.period_start ≡ false = ground arith in
        rw (left, below) (keep-keep l c rows h)
  ]

  past_cursor :
      (c : ℕ) (rows : List (TickDto F)) → All (λ s. c < s.period_start) (later (some c) rows)
  past_cursor c [] = tt
  past_cursor c (r ∷ rows) = elim (Bool-cases (ltb c r.period_start)) [
    | inl kept ↦ rw kept (ltb→lt c r.period_start kept, past_cursor c rows)
    | inr left ↦ rw left (past_cursor c rows)
  ]

  past_last :
      (c n : ℕ) (rows : List (TickDto F)) (l : ℕ)
      → All (λ s. c < s.period_start) rows
      → last_start (take (suc n) rows) ≡ some l
      → c < l
  past_last c n [] l h e = cc
  past_last c n (r ∷ rest) l (h, hs) e =
      let found = All-last_start c r rest n h hs in
      let same : some found.0 ≡ some l = sym found.1 ∙ e in ground (arith, found.2)

  -- What is past the last row of a page, among the rows past its cursor.
  pub later_page :
      (n : ℕ) (at : Option ℕ) (rows : List (TickDto F))
      → Ascending rows
      → suc n < length (later at rows)
      → (l : ℕ) → last_start (take (suc n) (later at rows)) ≡ some l
      → later (some l) rows ≡ drop (suc n) (later at rows)
  later_page n none rows a h l e =
      ap (λ (o : Option ℕ). later o rows) (sym e) ∙ after_page n rows a h
  later_page n (some c) rows a h l e =
      let page = later (some c) rows in
      sym (keep-keep l c rows (past_last c n page l (past_cursor c rows) e))
      ∙ ap (λ (o : Option ℕ). later o page) (sym e)
      ∙ after_page n page (later-Ascending (some c) rows a) h

module _ {F : Type 0} where
  abbrev pub followed :
      (String → Option (List (TickDto F))) → TicksPage F → Option String → Option (List (TickDto F))
  followed rest page none = some page.rows
  followed rest page (some cursor) = Option.map (λ rows. page.rows ++ rows) (rest cursor)

  abbrev pub got :
      (String → Option (List (TickDto F)))
      → Result TickErrorCode (TicksPage F)
      → Option (List (TickDto F))
  got rest (err _) = none
  got rest (ok page) = followed rest page page.next_cursor

module _ {F : Type 0} (encode : ℕ → String) (decode : String → Option ℕ)
    (find_many : FindMany F) where
  -- A client that asks for page after page until there is no next cursor, `fuel` pages at most.
  unfoldable pub collect : ℕ → TicksQuery → Option (List String) → Option (List (TickDto F))
  collect zero query actor = none
  collect (suc fuel) query actor =
      got (λ cursor. collect fuel (record query { cursor = some cursor }) actor)
        (get_ticks encode decode find_many query actor)

-- A cursor's text decodes to the time that it encodes, and is not empty.
pub record IsCodec (encode : ℕ → String) (decode : String → Option ℕ) : Type 0 where
  pub decode-encode : (t : ℕ) → decode (encode t) ≡ some t
  pub not_empty : (t : ℕ) → (encode t === "") ≡ false

-- The database answers with the first rows of the series past the cursor.
abbrev pub Answers : {F : Type 0} → FindMany F → String → CandleInterval → List (TickDto F) → Type 0
Answers find_many pool interval series =
    (at : Option ℕ) (n : ℕ) → find_many pool interval at n ≡ some (take n (later at series))
