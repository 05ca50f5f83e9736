-- ===== src/Prelude/Flights.antt =====
-- Work that one caller at a time does for a key: a set of the keys in flight, next to the keys of the
-- work that runs.
use Prim.Native.Nat.{ℕ, suc}
use mathlib.Core.Path.{◌≡◌, refl, sym, ap, ◌∙◌}
use mathlib.Core.Logic.{inl, inr}
use mathlib.Core.Bool.{Bool, true, false}
use mathlib.Core.List.{List, ◌∷◌}
use native.Mathlib.Omega.{arith}
use swyft.Prelude.Tests.{if◌then◌else◌, Bool-cases}
use swyft.Prelude.Equality.{Eq, ◌===◌}
use swyft.Prelude.Counted.{
  has_key, delete_key, count_key, drop_key, count_key-drop_key, has_key-delete_key,
}

pub record Flights {ℓ} (K : Type ℓ) : Type ℓ where
  pub in_flight : List K
  pub running : List K

one_less : (c d : ℕ) (b : Bool) → c ≡ suc d → c ≡ (if b then 1 else 0) → d ≡ 0
one_less c d true e h = omega arith
one_less c d false e h = absurd (omega arith)

module _ {ℓ} {K : Type ℓ} ⦃eq : Eq K⦄ where
  abbrev pub taken_off : K → Flights K → Flights K
  taken_off key f =
      if has_key key f.running
      then record { in_flight = delete_key key f.in_flight; running = drop_key key f.running }
      else f

  abbrev pub put_on : K → Flights K → Flights K
  put_on key f =
      if has_key key f.in_flight
      then f
      else record { in_flight = key ∷ f.in_flight; running = key ∷ f.running }

  -- A key runs once if it is in flight, and not at all otherwise.
  abbrev pub Single : Flights K → Type ℓ
  Single f = (key : K) → count_key key f.running ≡ (if has_key key f.in_flight then 1 else 0)

  pub put_on-Single : (f : Flights K) (k : K) → Single f → Single (put_on k f)
  unfolding count_key
  put_on-Single f k h key = elim (Bool-cases (has_key k f.in_flight)) [
    | inl busy ↦ rw busy (h key)
    | inr free ↦ rw free (elim (Bool-cases (k === key)) [
      | inl same ↦
          let gone : has_key key f.in_flight ≡ false =
            ap (λ (j : K). has_key j f.in_flight) (sym ((eq.same_iff k key).0 same)) ∙ free in
          rw same (ap suc (h key ∙ rw gone refl))
      | inr other ↦ rw other (h key)
    ])
  ]

  pub taken_off-Single : (f : Flights K) (k : K) → Single f → Single (taken_off k f)
  taken_off-Single f k h key = elim (Bool-cases (has_key k f.running)) [
    | inr idle ↦ rw idle (h key)
    | inl runs ↦
        let rest = drop_key k f.running in
        let counted = count_key-drop_key key k f.running runs in
        rw (runs, has_key-delete_key key k f.in_flight)
          (elim (Bool-cases (k === key)) [
            | inl same ↦ rw same (
                one_less (count_key key f.running) (count_key key rest) (has_key key f.in_flight)
                  (counted ∙ rw same refl) (h key))
            | inr other ↦ rw other (sym (counted ∙ rw other refl) ∙ h key)
          ])
  ]
