-- ===== src/Sdk/Quote/Ladder.antt =====
-- The whole walk over the tick ladder: bounds, and a ladder whose first tick lies behind the price.
use swyft.Prelude.{
  ℕ, suc, ◌+◌, ◌-◌, ◌≤◌, ◌<◌, ◌≡◌, Bool, true, false, some, List, [], ◌∷◌, ok, err, arith, length,
}
use swyft.Prelude.BigInt.{pos}
use swyft.Prelude.Number.{big_int}
use swyft.Prelude.Number.{Number}
use swyft.Sdk.Quote.{
  exceeds_liquidity, TickState, LocalSwapQuoteParams, Inputs, or_empty, sort, prepare, simulate,
  settle, cross_ticks, take_step, start, get_swap_quote,
}
use swyft.Sdk.Quote.Steps.{
  NatLoop, nat_loop, loop_state, Priced, cross_ticks-eq, next_price, full_in, full_out,
  compute_swap_step-eq,
}

-- The price has moved the way of the swap, or not at all.
abbrev pub Toward : Bool → ℕ → ℕ → Type 0
Toward true from to = to ≤ from
Toward false from to = from ≤ to

-- The loop only uses up input, only adds output, and moves the price one way.
pub record Progress (z : Bool) (n : ℕ) (s t : NatLoop) : Type 0 where
  pub remaining : t.remaining ≤ s.remaining
  pub out : s.out ≤ t.out
  pub toward : Toward z s.price t.price
  pub crossed : t.crossed ≤ s.crossed + n

nat_loop-Progress :
    (z : Bool) (liquidity : ℕ) (qs : List ℕ) (s : NatLoop)
    → Progress z (length qs) s (nat_loop z liquidity qs s)
unfolding nat_loop
nat_loop-Progress true liquidity [] s = ground arith
nat_loop-Progress false liquidity [] s = ground arith
nat_loop-Progress true liquidity (q ∷ qs) s =
    let next = next_price true s.price q in
    let i = full_in true s.price next liquidity in
    let o = full_out true s.price next liquidity in
    ground (
      arith,
      nat_loop-Progress true liquidity qs (record {
        remaining = s.remaining - i;
        out = s.out + o;
        price = next;
        crossed = suc s.crossed;
      }),
    )
nat_loop-Progress false liquidity (q ∷ qs) s =
    let next = next_price false s.price q in
    let i = full_in false s.price next liquidity in
    let o = full_out false s.price next liquidity in
    ground (
      arith,
      nat_loop-Progress false liquidity qs (record {
        remaining = s.remaining - i;
        out = s.out + o;
        price = next;
        crossed = suc s.crossed;
      }),
    )

abbrev pub begin : ℕ → ℕ → NatLoop
begin remaining price = record { remaining = remaining; out = 0; price = price; crossed = 0 }

abbrev pub inputs_of : Bool → ℕ → ℕ → ℕ → ℕ → Inputs
inputs_of z price liquidity amount fee = record {
  zero_for_one = z;
  sqrt_price = pos price;
  liquidity = pos liquidity;
  amount_in = pos amount;
  fee_amount = pos fee;
}

-- From a positive price, over ticks that carry positive prices, and with a fee below the amount,
-- the walk never throws. It takes in no more than the amount after the fee, it moves the price only
-- in the direction of the swap, and it crosses each tick at most once.
pub simulate-Progress :
    (z : Bool) (price liquidity amount fee : ℕ) (ticks : List TickState) (qs : List ℕ)
    → 0 < price
    → fee ≤ amount
    → Priced (sort z ticks) qs
    → (t : NatLoop) × (simulate ticks (inputs_of z price liquidity amount fee) ≡ ok (loop_state t))
      × Progress z (length qs) (begin (amount - fee) price) t
unfolding simulate
simulate-Progress z price liquidity amount fee ticks qs p f h = (
  nat_loop z liquidity qs (begin (amount - fee) price),
  ground (arith, cross_ticks-eq z liquidity (sort z ticks) qs (begin (amount - fee) price) h p),
  nat_loop-Progress z liquidity qs (begin (amount - fee) price),
)

-- The tick lies behind the price, against the direction of the swap.
abbrev pub Behind : Bool → ℕ → ℕ → Type 0
Behind true price q = price < q
Behind false price q = q < price

stuck :
    (z : Bool) (price liquidity amount fee q : ℕ) (t : TickState) (ts : List TickState)
    → 0 < price
    → 0 < q
    → fee < amount
    → Behind z price q
    → big_int t.sqrt_price_x96 ≡ some (pos q)
    → cross_ticks (pos liquidity) z (t ∷ ts) (start (pos (amount - fee)) (pos price))
      ≡ ok (start (pos (amount - fee)) (pos price))
unfolding cross_ticks take_step
stuck true price liquidity amount fee q t ts p pq f b e =
    ground (arith, e, compute_swap_step-eq true price q liquidity (amount - fee) p pq)
stuck false price liquidity amount fee q t ts p pq f b e =
    ground (arith, e, compute_swap_step-eq false price q liquidity (amount - fee) p pq)

-- The walk stops at the first tick that lies behind the price. So where the sorted ladder begins
-- with such a tick, every amount above its fee is refused, whatever the liquidity and however the
-- ladder goes on.
pub get_swap_quote_stuck :
    (difference : Number → Number) (params : LocalSwapQuoteParams) (z : Bool)
    (price liquidity amount fee q : ℕ) (t : TickState) (ts : List TickState)
    → prepare params ≡ ok (inputs_of z price liquidity amount fee)
    → 0 < price
    → 0 < q
    → fee < amount
    → sort z (or_empty params.pool_state.ticks) ≡ t ∷ ts
    → big_int t.sqrt_price_x96 ≡ some (pos q)
    → Behind z price q
    → get_swap_quote difference params ≡ err exceeds_liquidity
unfolding get_swap_quote simulate settle
get_swap_quote_stuck difference params z price liquidity amount fee q t ts prep p pq f sorted e b =
    ground (arith, prep, sorted, stuck z price liquidity amount fee q t ts p pq f b e)
