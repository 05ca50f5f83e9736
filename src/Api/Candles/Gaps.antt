-- ===== src/Api/Candles/Gaps.antt =====
-- CANDLE_GAP_POLICY in candles.service.ts: which windows `assertNoGap` lets through, and whose
-- buckets it looks at.
use swyft.Prelude.{
  ℕ, zero, suc, ◌+◌, ◌-◌, ◌*◌, ◌/◌, ◌≤◌, ◌<◌, ◌≡◌, ◌↔◌, refl, Bool, true, ◌==◌, List, arith, any,
  ok,
}
use native.Mathlib.Nat.{le-div_iff_mul-le}
use swyft.Api.Candles.{strict, no_gap_from, assert_no_gap}

-- The start of a bucket is among those present.
abbrev pub has_start : List ℕ → ℕ → Bool
has_start present t = any (λ start. start == t) present

-- Every step of the window has its bucket.
abbrev pub NoGap : List ℕ → ℕ → ℕ → ℕ → Type 0
NoGap present start end_at step_ms =
    (k : ℕ) → start + k * step_ms < end_at → has_start present (start + k * step_ms) ≡ true

-- One round of the loop.
round_head :
    (fuel : ℕ) (present : List ℕ) (t end_at step_ms : ℕ)
    → no_gap_from (suc fuel) present t end_at step_ms ≡ true
    → t < end_at
    → (has_start present t ≡ true) × (no_gap_from fuel present (t + step_ms) end_at step_ms ≡ true)
unfolding no_gap_from
round_head fuel present t end_at step_ms h inside = ground arith

no_gap_from_sound :
    (fuel : ℕ) (present : List ℕ) (t end_at step_ms : ℕ)
    → no_gap_from fuel present t end_at step_ms ≡ true
    → (k : ℕ) → k < fuel
    → t + k * step_ms < end_at
    → has_start present (t + k * step_ms) ≡ true
no_gap_from_sound zero present t end_at step_ms h k lt inside = absurd (omega arith)
no_gap_from_sound (suc fuel) present t end_at step_ms h zero lt inside =
    let same : t + 0 * step_ms ≡ t = omega arith in
    rw same (round_head fuel present t end_at step_ms h (omega arith)).0
no_gap_from_sound (suc fuel) present t end_at step_ms h (suc k) lt inside =
    let same : t + suc k * step_ms ≡ t + step_ms + k * step_ms = grind arith in
    let rest = (round_head fuel present t end_at step_ms h (grind arith)).1 in
    rw same (
      no_gap_from_sound fuel present (t + step_ms) end_at step_ms rest k (omega arith)
        (omega arith))

no_gap_from_complete :
    (fuel : ℕ) (present : List ℕ) (t end_at step_ms : ℕ)
    → NoGap present t end_at step_ms
    → no_gap_from fuel present t end_at step_ms ≡ true
unfolding no_gap_from
no_gap_from_complete zero present t end_at step_ms h = refl
no_gap_from_complete (suc fuel) present t end_at step_ms h =
    let first : t < end_at → has_start present t ≡ true =
      λ inside. let same : t + 0 * step_ms ≡ t = omega arith in rw (← same) (h 0 (omega arith)) in
    let rest = no_gap_from_complete fuel present (t + step_ms) end_at step_ms (λ k inside.
      let same : t + step_ms + k * step_ms ≡ t + suc k * step_ms = grind arith in
      rw same (h (suc k) (omega arith))) in
    ground arith

-- Under the strict policy a window passes exactly when each step of it has a bucket; the loop ends
-- within its fuel.
pub assert_no_gap-NoGap :
    (present : List ℕ) (start end_at step_ms : ℕ)
    → 0 < step_ms
    → (assert_no_gap present start end_at step_ms strict ≡ ok tt)
      ↔ NoGap present start end_at step_ms
unfolding assert_no_gap
assert_no_gap-NoGap present start end_at step_ms pos =
    let rounds = (end_at - start) / step_ms + 1 in
    let loop = no_gap_from rounds present start end_at step_ms in
    (
      λ passed k inside.
          let fits : k * step_ms ≤ end_at - start = omega arith in
          let within : k ≤ (end_at - start) / step_ms = (le-div_iff_mul-le pos).1 fits in
          let all : loop ≡ true = ground arith in
          no_gap_from_sound rounds present start end_at step_ms all k (omega arith) inside,
      λ none. rw (no_gap_from_complete rounds present start end_at step_ms none) refl,
    )
