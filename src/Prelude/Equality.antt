-- ===== src/Prelude/Equality.antt =====
-- Boolean equality with its law, as an instance.
use Prim.Native.Nat.{ℕ}
use Prim.Native.String.{String}
use mathlib.Core.Path.{◌≡◌, refl}
use mathlib.Core.Logic.{◌↔◌}
use mathlib.Core.Bool.{Bool, true, ◌&&◌}
use text.Mathlib.Text.{◌==◌ as str_eq}
use text.Mathlib.TextEquality.{eq_iff}
use native.Mathlib.Omega.{arith}
use swyft.Prelude.Tests.{◌==◌ as nat_beq, ==_iff}

-- A JavaScript `===` on values without identity, with the law that makes it one.
pub record Eq {ℓ} (K : Type ℓ) : Type ℓ where
  pub same : K → K → Bool
  pub same_iff : (j k : K) → (same j k ≡ true) ↔ (j ≡ k)

infix 50 ◌===◌
abbrev pub ◌===◌ {ℓ} : {K : Type ℓ} ⦃eq : Eq K⦄ → K → K → Bool
◌===◌ ⦃eq⦄ j k = eq.same j k

instance abbrev pub number_eq : Eq ℕ
number_eq = record { same = nat_beq; same_iff = ==_iff }

instance abbrev pub string_eq : Eq String
string_eq = record { same = str_eq; same_iff = eq_iff }

abbrev pair_beq : String × String → String × String → Bool
pair_beq p q = str_eq p.0 q.0 && str_eq p.1 q.1

pub pair_beq_iff : (p q : String × String) → (pair_beq p q ≡ true) ↔ (p ≡ q)
pair_beq_iff (a, b) (c, d) = ground (arith, eq_iff a c, eq_iff b d)

-- A compound key of two texts.
instance abbrev pub pair_eq : Eq (String × String)
pair_eq = record { same = pair_beq; same_iff = pair_beq_iff }

abbrev triple_beq : (String × String) × String → (String × String) × String → Bool
triple_beq p q = pair_beq p.0 q.0 && str_eq p.1 q.1

pub triple_beq_iff : (p q : (String × String) × String) → (triple_beq p q ≡ true) ↔ (p ≡ q)
triple_beq_iff ((a, b), c) ((d, e), f) = ground (arith, eq_iff a d, eq_iff b e, eq_iff c f)

-- A compound key of three texts.
instance abbrev pub triple_eq : Eq ((String × String) × String)
triple_eq = record { same = triple_beq; same_iff = triple_beq_iff }

pub ===_refl {ℓ} : {K : Type ℓ} ⦃eq : Eq K⦄ (k : K) → (k === k) ≡ true
===_refl ⦃eq⦄ k = (eq.same_iff k k).1 refl
