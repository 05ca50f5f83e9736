-- ===== src/Prelude/Division.antt =====
-- Floor division on native numbers, at divisors that vary.
use Prim.Native.Nat.{ℕ, ◌+◌, ◌-◌, ◌*◌, ◌/◌, ◌≤◌, ◌<◌}
use mathlib.Core.Path.{◌≡◌}
use native.Mathlib.Omega.{arith}
use native.Mathlib.Decide.{dec_lt}
use native.Mathlib.Nat.{
  le-div_iff_mul-le, div-mul-le_self, le_trans, div-le_of_le-mul, lt-div-mul-add, mul-le-mul_right,
  mul-lt-mul_of_pos_right,
}

pub div_antitone : (n a b : ℕ) → 0 < a → a ≤ b → n / b ≤ n / a
div_antitone n a b pa h = (le-div_iff_mul-le pa).1 (le_trans (grind arith) (div-mul-le_self n b))

pub div_mono : (k a b : ℕ) → 0 < k → a ≤ b → a / k ≤ b / k
div_mono k a b pk h = (le-div_iff_mul-le pk).1 (le_trans (div-mul-le_self a k) h)

-- Scaling up by q over d, then back, does not gain.
pub scale_le : (a q d : ℕ) → 0 < q → a * q / d * d / q ≤ a
scale_le a q d pq = div-le_of_le-mul q (le_trans (div-mul-le_self (a * q) d) (omega arith))

-- A product of a difference.
mul-sub : (n l u : ℕ) → l ≤ u → n * u ≡ n * l + n * (u - l)
mul-sub n l u h = grind arith

-- The difference of two floors stays within a bound on the exact difference.
pub floor_gap : (n l u a : ℕ) → 0 < l → l ≤ u → n * (u - l) ≤ a * l * u → n / l - n / u ≤ a
floor_gap n l u a pl h k = elim (dec_lt (n / u + a) (n / l)) [
  | no small ↦ omega arith
  | yes large ↦ absurd (
      omega (
        arith,
        mul-sub n l u h,
        mul-lt-mul_of_pos_right {k = l} (lt-div-mul-add {a = n} {b = u} (omega arith)) pl,
        mul-le-mul_right u (div-mul-le_self n l),
        mul-le-mul_right {m = n / u + a + 1} {n = n / l} (l * u) (omega arith),
      ))
]
