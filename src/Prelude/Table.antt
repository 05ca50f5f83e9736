-- ===== src/Prelude/Table.antt =====
-- A database table with a unique key, or a JavaScript `Map`: rows in the order of insertion.
use mathlib.Core.Path.{◌≡◌, refl}
use mathlib.Core.Option.{Option, none, some}
use mathlib.Core.List.{List, [], ◌∷◌}
use native.Mathlib.Omega.{arith}
use swyft.Prelude.Tests.{if◌then◌else◌, Bool-cases}
use swyft.Prelude.Equality.{Eq, ◌===◌, ===_refl}
use mathlib.Core.Logic.{inl, inr}

abbrev pub Table {ℓ κ} : Type ℓ → Type κ → Type (ℓ ⊔ κ)
Table K V = List (K × V)

module _ {ℓ κ} {K : Type ℓ} ⦃eq : Eq K⦄ {V : Type κ} where
  unfoldable pub find : K → Table K V → Option V
  find k [] = none
  find k ((j, v) ∷ t) = if j === k then some v else find k t

  -- prisma's `upsert`: change the row of the key, or add one.
  unfoldable pub upsert : K → (V → V) → V → Table K V → Table K V
  upsert k change create [] = (k, create) ∷ []
  upsert k change create ((j, v) ∷ t) =
      if j === k then (j, change v) ∷ t else (j, v) ∷ upsert k change create t

  -- prisma's `update`: nothing happens (here) where the key is missing.
  unfoldable pub update : K → (V → V) → Table K V → Table K V
  update k change [] = []
  update k change ((j, v) ∷ t) = if j === k then (j, change v) ∷ t else (j, v) ∷ update k change t

  unfoldable pub remove : K → Table K V → Table K V
  remove k [] = []
  remove k ((j, v) ∷ t) = let rest = remove k t in if j === k then rest else (j, v) ∷ rest

-- What a write leaves at a key.
abbrev pub changed {ℓ} : {V : Type ℓ} → (V → V) → V → Option V → V
changed f create none = create
changed f create (some v) = f v

pub changed_const {ℓ} : {V : Type ℓ} (v : V) (o : Option V) → changed (λ _. v) v o ≡ v
changed_const v none = refl
changed_const v (some w) = refl

abbrev pub map? {ℓ} : {V : Type ℓ} → (V → V) → Option V → Option V
map? f none = none
map? f (some v) = some (f v)

module _ {ℓ κ} {K : Type ℓ} ⦃eq : Eq K⦄ {V : Type κ} where
  pub find-upsert :
      (k j : K) (f : V → V) (c : V) (t : Table K V)
      → find j (upsert k f c t) ≡ (if k === j then some (changed f c (find k t)) else find j t)
  unfolding find upsert
  find-upsert k j f c [] = refl
  find-upsert k j f c ((i, w) ∷ t) =
      ground (arith, eq.same_iff i k, eq.same_iff i j, eq.same_iff k j, find-upsert k j f c t)

  pub find-update :
      (k j : K) (f : V → V) (t : Table K V)
      → find j (update k f t) ≡ (if k === j then map? f (find k t) else find j t)
  unfolding find update
  find-update k j f [] = ground arith
  find-update k j f ((i, w) ∷ t) =
      ground (arith, eq.same_iff i k, eq.same_iff i j, eq.same_iff k j, find-update k j f t)

  pub find-remove :
      (k j : K) (t : Table K V) → find j (remove k t) ≡ (if k === j then none else find j t)
  unfolding find remove
  find-remove k j [] = ground arith
  find-remove k j ((i, w) ∷ t) =
      ground (arith, eq.same_iff i k, eq.same_iff i j, eq.same_iff k j, find-remove k j t)

  -- A second write of the same row changes nothing, if the change keeps what it wrote.
  pub upsert_twice :
      (k : K) (f g : V → V) (c d : V) (t : Table K V)
      → ((v : V) → g (f v) ≡ f v)
      → g c ≡ c
      → upsert k g d (upsert k f c t) ≡ upsert k f c t
  unfolding upsert
  upsert_twice k f g c d [] h hc = rw (===_refl k, hc)
  upsert_twice k f g c d ((i, w) ∷ t) h hc = elim (Bool-cases (i === k)) [
    | inl same ↦ rw (same, same, h w)
    | inr other ↦ rw (other, other, upsert_twice k f g c d t h hc)
  ]

  -- A change that keeps the row keeps the table.
  pub upsert_same :
      (k : K) (f : V → V) (c v : V) (t : Table K V)
      → find k t ≡ some v
      → f v ≡ v
      → upsert k f c t ≡ t
  unfolding find upsert
  upsert_same k f c v [] h same = ground arith
  upsert_same k f c v ((i, w) ∷ t) h same =
      let rest : find k t ≡ some v → upsert k f c t ≡ t =
        λ later. upsert_same k f c v t later same in
      ground (arith, rest)
