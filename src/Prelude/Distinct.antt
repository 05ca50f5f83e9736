-- ===== src/Prelude/Distinct.antt =====
-- Tables without a key twice.
use Prim.Native.Nat.{ℕ, suc}
use mathlib.Core.Path.{◌≡◌, refl, sym, ap, ◌∙◌}
use mathlib.Core.Logic.{inl, inr}
use mathlib.Core.Bool.{Bool}
use mathlib.Core.Option.{Option, none, some}
use mathlib.Core.List.{[], ◌∷◌}
use native.Mathlib.Omega.{arith}
use swyft.Prelude.Tests.{if◌then◌else◌, Bool-cases}
use swyft.Prelude.Lists.{keep}
use swyft.Prelude.Equality.{Eq, ◌===◌}
use swyft.Prelude.Table.{Table, find, upsert, update, find-upsert, find-update}

abbrev pub one_if {ℓ} : {V : Type ℓ} → (V → Bool) → Option V → ℕ
one_if p none = 0
one_if p (some v) = if p v then 1 else 0

module _ {ℓ κ} {K : Type ℓ} ⦃eq : Eq K⦄ {V : Type κ} where
  abbrev pub DistinctKeys : Table K V → Type κ
  DistinctKeys [] = Unit
  DistinctKeys ((j, v) ∷ t) = (find j t ≡ none) × DistinctKeys t

  pub upsert-DistinctKeys :
      (k : K) (f : V → V) (c : V) (t : Table K V) → DistinctKeys t → DistinctKeys (upsert k f c t)
  unfolding upsert find
  upsert-DistinctKeys k f c [] d = (refl, tt)
  upsert-DistinctKeys k f c ((j, v) ∷ t) (fresh, d) = elim (Bool-cases (j === k)) [
    | inl same ↦ rw same (fresh, d)
    | inr other ↦ rw other (
      find-upsert k j f c t ∙ ground (arith, eq.same_iff j k, eq.same_iff k j),
      upsert-DistinctKeys k f c t d,
    )
  ]

  find-update-none :
      (k j : K) (f : V → V) (t : Table K V) → find j t ≡ none → find j (update k f t) ≡ none
  find-update-none k j f t fresh = find-update k j f t ∙ elim (Bool-cases (k === j)) [
    | inl same ↦ rw same (rw ((eq.same_iff k j).0 same, fresh) refl)
    | inr other ↦ rw other fresh
  ]

  pub update-DistinctKeys :
      (k : K) (f : V → V) (t : Table K V) → DistinctKeys t → DistinctKeys (update k f t)
  unfolding update
  update-DistinctKeys k f [] d = tt
  update-DistinctKeys k f ((j, v) ∷ t) (fresh, d) = elim (Bool-cases (j === k)) [
    | inl same ↦ rw same (fresh, d)
    | inr other ↦ rw other (find-update-none k j f t fresh, update-DistinctKeys k f t d)
  ]

  -- The rows of a key.
  abbrev pub count_rows : K → Table K V → ℕ
  count_rows k [] = 0
  count_rows k ((j, v) ∷ t) = let rest = count_rows k t in if j === k then suc rest else rest

  pub count_rows-keep :
      (k : K) (p : V → Bool) (t : Table K V)
      → DistinctKeys t
      → count_rows k (keep (λ row. p row.1) t) ≡ one_if p (find k t)
  unfolding find
  count_rows-keep k p [] d = refl
  count_rows-keep k p ((j, v) ∷ t) (fresh, d) = elim (Bool-cases (j === k)) [
    | inl same ↦
        let gone : find k t ≡ none =
          ap (λ (i : K). find i t) (sym ((eq.same_iff j k).0 same)) ∙ fresh in
        let rest : count_rows k (keep (λ row. p row.1) t) ≡ 0 =
          count_rows-keep k p t d ∙ rw gone refl in
        elim (Bool-cases (p v)) [
          | inl kept ↦ rw (kept, same, rest) (rw kept refl)
          | inr left ↦ rw (left, same) (rw left rest)
        ]
    | inr other ↦ elim (Bool-cases (p v)) [
      | inl kept ↦ rw (kept, other) (count_rows-keep k p t d)
      | inr left ↦ rw (left, other) (count_rows-keep k p t d)
    ]
  ]
