-- ===== src/Prelude/Results.antt =====
-- Code that may throw. `err` carries what was thrown; `ok` what was returned.
use mathlib.Core.Path.{◌≡◌, refl}

pub data Result {ε ℓ} (E : Type ε) (A : Type ℓ) : Type (ε ⊔ ℓ) where
  err : E → Result E A
  ok : A → Result E A

-- What runs after a step: nothing, where the step threw.
abbrev pub and_then {ε ℓ κ} :
    {E : Type ε} {A : Type ℓ} {B : Type κ} → (A → Result E B) → Result E A → Result E B
and_then next (err thrown) = err thrown
and_then next (ok value) = next value

infixl 5 ◌>>=◌ ◌>>◌
abbrev pub ◌>>=◌ {ε ℓ κ} :
    {E : Type ε} {A : Type ℓ} {B : Type κ} → Result E A → (A → Result E B) → Result E B
step >>= next = and_then next step

abbrev pub ◌>>◌ {ε ℓ} : {E : Type ε} {B : Type ℓ} → Result E (Unit {0}) → Result E B → Result E B
step >> rest = and_then (λ _. rest) step

-- What follows from the rest of a chain follows from the chain.
pub >>=-then {ε ℓ κ ρ} :
    {E : Type ε} {A : Type ℓ} {B : Type κ} {Q : Type ρ} (m : Result E A) {f : A → Result E B}
    {b : B}
    → ((a : A) → m ≡ ok a → f a ≡ ok b → Q)
    → (m >>= f) ≡ ok b
    → Q
>>=-then (ok a) k h = k a refl h
>>=-then (err e) k h = cc
