-- ===== src/Sdk/Quote/Steps.antt =====
-- One step against a tick, and the loop over the ticks: what they conserve and bound.
use swyft.Prelude.{
  ℕ, suc, ◌+◌, ◌-◌, ◌*◌, ◌/◌, ◌<◌, ◌≡◌, refl, Bool, true, false, some, List, [], ◌∷◌, ok, arith,
  ltb, leb, ◌==◌, if◌then◌else◌,
}
use swyft.Prelude.BigInt.{pos}
use swyft.Prelude.Number.{big_int}
use swyft.Sdk.Quote.{
  TickState, SwapStepResult, LoopState, compute_swap_step, take_step, cross_ticks,
}

-- A step result of natural numbers.
abbrev pub step_result : ℕ → ℕ → ℕ → Bool → SwapStepResult
step_result i o next reached = record {
  amount_in = pos i;
  amount_out = pos o;
  next_sqrt_price = pos next;
  reached_target = reached;
}

-- Where a step would take the price: to the target, unless that lies behind.
abbrev pub next_price : Bool → ℕ → ℕ → ℕ
next_price true current target = if ltb target current then target else current
next_price false current target = if ltb current target then target else current

-- What the way to that price takes in and gives out.
abbrev pub full_in : Bool → ℕ → ℕ → ℕ → ℕ
full_in true current next liquidity = liquidity * (current - next) / current
full_in false current next liquidity = liquidity * (next - current) / next

abbrev pub full_out : Bool → ℕ → ℕ → ℕ → ℕ
full_out true current next liquidity = liquidity * (current - next) / next
full_out false current next liquidity = liquidity * (next - current) / current

-- One of two: the whole way, or the part of it that the remaining amount pays for.
abbrev pub step_of_parts : ℕ → ℕ → ℕ → ℕ → ℕ → Bool → SwapStepResult
step_of_parts remaining current next i o reached =
    if ltb remaining i
    then step_result remaining (o * remaining / i) current false
    else step_result i o next reached

abbrev pub nat_step : Bool → ℕ → ℕ → ℕ → ℕ → SwapStepResult
nat_step z current target liquidity remaining =
    let next = next_price z current target in
    step_of_parts remaining current next (full_in z current next liquidity)
      (full_out z current next liquidity) (next == target)

-- From positive prices, with an unsigned liquidity and amount, a step always has a result, and it
-- is one of two. If the remaining amount suffices, it takes the whole way to the next price, with
-- the input and output of that way. If not, it takes all that remains, gives the proportional part
-- of that output, leaves the price where it is and does not reach the target.
pub compute_swap_step-eq :
    (z : Bool) (current target liquidity remaining : ℕ)
    → 0 < current
    → 0 < target
    → compute_swap_step (pos current) (pos target) (pos liquidity) (pos remaining) z
      ≡ ok (nat_step z current target liquidity remaining)
unfolding compute_swap_step
compute_swap_step-eq true current target liquidity remaining p q = ground arith
compute_swap_step-eq false current target liquidity remaining p q = ground arith

-- The loop on natural numbers.
pub record NatLoop : Type 0 where
  pub remaining : ℕ
  pub out : ℕ
  pub price : ℕ
  pub crossed : ℕ

abbrev pub loop_state : NatLoop → LoopState
loop_state s = record {
  remaining_in = pos s.remaining;
  total_out = pos s.out;
  sqrt_price = pos s.price;
  crossed_ticks = s.crossed;
}

-- One round that takes i in, gives o out and leaves the price at p.
abbrev advance : NatLoop → ℕ → ℕ → ℕ → ℕ → NatLoop
advance s i o p crossed = record {
  remaining = s.remaining - i;
  out = s.out + o;
  price = p;
  crossed = crossed;
}

unfoldable pub nat_loop : Bool → ℕ → List ℕ → NatLoop → NatLoop
nat_loop z liquidity [] s = s
nat_loop z liquidity (q ∷ qs) s =
    let next = next_price z s.price q in
    let i = full_in z s.price next liquidity in
    let o = full_out z s.price next liquidity in
    let rest = nat_loop z liquidity qs (advance s i o next (suc s.crossed)) in
    if leb s.remaining 0
    then s
    else if ltb s.remaining i
    then advance s s.remaining (o * s.remaining / i) s.price s.crossed
    else if next == q
    then rest
    else advance s i o next s.crossed

-- The ticks carry these prices, none of them 0.
abbrev pub Priced : List TickState → List ℕ → Type 0
Priced [] [] = Unit
Priced [] (q ∷ qs) = ⊥
Priced (t ∷ ts) [] = ⊥
Priced (t ∷ ts) (q ∷ qs) = (big_int t.sqrt_price_x96 ≡ some (pos q)) × (0 < q) × Priced ts qs

next_price-pos : (z : Bool) (p q : ℕ) → 0 < p → 0 < q → 0 < next_price z p q
next_price-pos true p q h k = ground arith
next_price-pos false p q h k = ground arith

-- On positive prices the loop never throws, and computes what the loop on natural numbers does.
pub cross_ticks-eq :
    (z : Bool) (liquidity : ℕ) (ts : List TickState) (qs : List ℕ) (s : NatLoop)
    → Priced ts qs
    → 0 < s.price
    → cross_ticks (pos liquidity) z ts (loop_state s) ≡ ok (loop_state (nat_loop z liquidity qs s))
unfolding cross_ticks take_step nat_loop
cross_ticks-eq z liquidity [] [] s h p = refl
cross_ticks-eq z liquidity [] (q ∷ qs) s h p = absurd h
cross_ticks-eq z liquidity (t ∷ ts) [] s h p = absurd h
cross_ticks-eq z liquidity (t ∷ ts) (q ∷ qs) s h p =
    let next = next_price z s.price q in
    let i = full_in z s.price next liquidity in
    let o = full_out z s.price next liquidity in
    ground (
      arith,
      h.0,
      compute_swap_step-eq z s.price q liquidity s.remaining p h.1,
      cross_ticks-eq z liquidity ts qs (advance s i o next (suc s.crossed)) h.2
          (next_price-pos z s.price q p h.1),
    )
