-- ===== src/Prelude/Number.antt =====
-- Values of JavaScript's `number`, as far as validation tells them apart, and `BigInt(text)`.
use Prim.Native.Char.{code}
use Prim.Native.String.{String}
use Prim.Native.Nat.{ℕ, ◌+◌, ◌-◌, ◌*◌}
use mathlib.Core.Bool.{◌&&◌}
use mathlib.Core.Option
use mathlib.Core.Option.{Option, none, some}
use mathlib.Core.List.{List, [], ◌∷◌}
use swyft.Prelude.Tests.{leb, ◌==◌, if◌then◌else◌}
use swyft.Prelude.BigInt.{ℤ, pos, neg}

-- `fraction n` lies strictly between n and n + 1; `not_finite` is NaN or an infinity.
pub data Number : Type 0 where
  int : ℤ → Number
  fraction : ℤ → Number
  not_finite : Number

abbrev pub codes : String → List ℕ
codes String.[] = []
codes (String.◌∷◌ c s) = code c ∷ codes s

unfoldable pub digits : ℕ → List ℕ → Option ℕ
digits acc [] = some acc
digits acc (c ∷ cs) =
    let rest = digits (acc * 10 + (c - b'0')) cs in if leb b'0' c && leb c b'9' then rest else none

-- One digit or more.
unfoldable pub digits? : List ℕ → Option ℕ
unfolding digits
digits? [] = none
digits? (c ∷ cs) = digits 0 (c ∷ cs)

unfoldable pub signed : List ℕ → Option ℤ
unfolding digits?
signed [] = some (pos 0)
signed (c ∷ cs) =
    if c == b'-'
    then Option.map neg (digits? cs)
    else if c == b'+'
    then Option.map pos (digits? cs)
    else Option.map pos (digits? (c ∷ cs))

-- BigInt(text), on decimal texts; `none` is its SyntaxError. The forms with white space or with a
-- 0x, 0o or 0b prefix are left out.
unfoldable pub big_int : String → Option ℤ
unfolding signed
big_int text = signed (codes text)
