-- ===== src/Prelude/Counted.antt =====
-- Lists of keys as sets (JavaScript's `Set`) and as bags.
use Prim.Native.Nat.{ℕ, suc}
use mathlib.Core.Path.{◌≡◌}
use mathlib.Core.Bool.{Bool, true, false, not}
use mathlib.Core.List.{List, [], ◌∷◌}
use native.Mathlib.Omega.{arith}
use swyft.Prelude.Tests.{if◌then◌else◌}
use swyft.Prelude.Lists.{any, keep}
use swyft.Prelude.Equality.{Eq, ◌===◌}

module _ {ℓ} {K : Type ℓ} ⦃eq : Eq K⦄ where
  abbrev pub has_key : K → List K → Bool
  has_key key keys = any (λ k. k === key) keys

  abbrev pub delete_key : K → List K → List K
  delete_key key keys = keep (λ k. not (k === key)) keys

  unfoldable pub count_key : K → List K → ℕ
  count_key key [] = 0
  count_key key (k ∷ keys) = let rest = count_key key keys in if k === key then suc rest else rest

  -- One of the keys that are equal goes.
  unfoldable pub drop_key : K → List K → List K
  drop_key key [] = []
  drop_key key (k ∷ keys) = if k === key then keys else k ∷ drop_key key keys

  pub count_key-drop_key :
      (key k : K) (keys : List K)
      → has_key k keys ≡ true
      → count_key key keys ≡ (
          if k === key
          then suc (count_key key (drop_key k keys))
          else count_key key (drop_key k keys))
  unfolding count_key drop_key
  count_key-drop_key key k [] h = cc
  count_key-drop_key key k (j ∷ keys) h =
      let ih = count_key-drop_key key k keys in
      ground (arith, eq.same_iff j k, eq.same_iff j key, eq.same_iff k key, ih)

  pub has_key-delete_key :
      (key k : K) (keys : List K)
      → has_key key (delete_key k keys) ≡ (if k === key then false else has_key key keys)
  has_key-delete_key key k [] = ground arith
  has_key-delete_key key k (j ∷ keys) =
      let ih = has_key-delete_key key k keys in
      ground (arith, eq.same_iff j k, eq.same_iff j key, eq.same_iff k key, ih)
