-- ===== src/Sdk/Quote/Results.antt =====
-- What `getSwapQuote` returns.
use swyft.Prelude.{
  Bool, false, suc, ◌<◌, ◌⊎◌, inl, inr, refl, ap, ◌∙◌, ℕ, ◌-◌, ◌*◌, ◌/◌, ◌≤◌, ◌≡◌, true, ok,
  >>=-then, arith,
}
use swyft.Prelude.BigInt.{ℤ, pos, negsuc, ltb_ℤ}
use swyft.Prelude.Number.{Number, int, fraction, not_finite}
use swyft.Sdk.Quote.{
  LocalSwapQuoteParams, LocalSwapQuote, validate_slippage, or_empty, kept_share, settle, LoopState,
  Inputs, prepare, simulate, get_swap_quote,
}

-- What IEEE 754 says of `10_000 - slippage`: exact on whole numbers; a difference with a fraction
-- between n and n + 1, if it is rounded to a whole number, is one of those that enclose it.
pub record IsDifference (difference : Number → Number) : Type 0 where
  pub exact : (n : ℕ) → n ≤ 10000 → difference (int (pos n)) ≡ int (pos (10000 - n))
  pub enclosed :
      (n : ℕ) (k : ℤ)
      → n < 10000
      → difference (fraction (pos n)) ≡ int k
      → (share : ℕ) × (k ≡ pos share) × (share ≤ 10000 - n) × (10000 - n ≤ suc share)

abbrev pub magnitude : ℤ → ℕ
magnitude (pos n) = n
magnitude (negsuc n) = 0

-- The ten thousandths that are left of an output at a slippage.
abbrev pub IsShare : Number → ℕ → Type 0
IsShare slippage share =
    (n : ℕ) × (((slippage ≡ int (pos n)) × (n ≤ 10000) × (share ≡ 10000 - n))
      ⊎ ((slippage ≡ fraction (pos n))
          × (n < 10000)
          × (share ≤ 10000 - n)
          × (10000 - n ≤ suc share)))

-- The output and the minimum at a share.
abbrev pub Settled : LocalSwapQuote → ℕ → Type 0
Settled quote share =
    (ltb_ℤ (pos 0) quote.amount_out ≡ true)
    × (quote.minimum_received ≡ pos (magnitude quote.amount_out * share / 10000))

abbrev is_integer : Number → Bool
is_integer (int k) = true
is_integer (fraction k) = false
is_integer not_finite = false

integer_of : (v : Number) → is_integer v ≡ true → (k : ℤ) × (v ≡ int k)
integer_of (int k) h = (k, refl)
integer_of (fraction k) h = cc
integer_of not_finite h = cc

module _ (difference : Number → Number) (slippage : Number) (fee : ℤ) (s : LoopState)
    (quote : LocalSwapQuote) (h : settle difference slippage fee s ≡ ok quote) where
  settle-Settled : (share : ℕ) → difference slippage ≡ int (pos share) → Settled quote share
  unfolding settle kept_share
  settle-Settled share e = ground (arith, e)

  settled_integer : (v : Number) → difference slippage ≡ v → is_integer v ≡ true
  unfolding settle kept_share
  settled_integer (int k) e = refl
  settled_integer (fraction k) e = ground (arith, e)
  settled_integer not_finite e = ground (arith, e)

  settled_whole : (k : ℤ) × (difference slippage ≡ int k)
  settled_whole = integer_of (difference slippage) (settled_integer (difference slippage) refl)

settle_sound :
    (difference : Number → Number) (slippage : Number) (fee : ℤ) (s : LoopState)
    (quote : LocalSwapQuote)
    → IsDifference difference
    → validate_slippage slippage ≡ ok tt
    → settle difference slippage fee s ≡ ok quote
    → (share : ℕ) × IsShare slippage share × Settled quote share
unfolding validate_slippage
settle_sound difference (int (pos n)) fee s quote laws v h =
    let small : n ≤ 10000 = ground arith in
    (
      10000 - n,
      (n, inl (refl, small, refl)),
      settle-Settled difference (int (pos n)) fee s quote h (10000 - n) (laws.exact n small),
    )
settle_sound difference (int (negsuc n)) fee s quote laws v h = cc
settle_sound difference (fraction (pos n)) fee s quote laws v h =
    let small : n < 10000 = ground arith in
    let (k, e) = settled_whole difference (fraction (pos n)) fee s quote h in
    let (share, same, low, high) = laws.enclosed n k small e in
    (
      share,
      (n, inr (refl, small, low, high)),
      settle-Settled difference (fraction (pos n)) fee s quote h share (e ∙ ap int same),
    )
settle_sound difference (fraction (negsuc n)) fee s quote laws v h = cc
settle_sound difference not_finite fee s quote laws v h = cc

prepare-slippage :
    (params : LocalSwapQuoteParams) (inputs : Inputs)
    → prepare params ≡ ok inputs
    → validate_slippage params.slippage ≡ ok tt
unfolding prepare
prepare-slippage params inputs h = ground arith

-- With a subtraction of doubles as IEEE 754 has it, a quote is only given for an output above 0, and
-- its minimum received is a share of this output, rounded down to a whole amount. At a slippage that
-- is a whole number of basis points, 10000 at most, the share is what is left of 10000; a slippage
-- that is a fraction is between 0 and 10000, and the share is one of the two whole numbers that
-- enclose what is left.
pub get_swap_quote_sound :
    (difference : Number → Number) (params : LocalSwapQuoteParams) (quote : LocalSwapQuote)
    → IsDifference difference
    → get_swap_quote difference params ≡ ok quote
    → (share : ℕ) × IsShare params.slippage share × Settled quote share
unfolding get_swap_quote
get_swap_quote_sound difference params quote laws h =
    >>=-then (prepare params)
      (λ inputs p. >>=-then (simulate (or_empty params.pool_state.ticks) inputs) λ s _ r.
        settle_sound difference params.slippage inputs.fee_amount s quote laws
          (prepare-slippage params inputs p) r)
      h
