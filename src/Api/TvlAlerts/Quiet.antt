-- ===== src/Api/TvlAlerts/Quiet.antt =====
-- How often tvl-alert.service.ts raises the alert of one threshold.
use swyft.Prelude.{
  ℕ, ◌+◌, ◌-◌, ◌≤◌, ◌≡◌, refl, ◌∙◌, Bool, false, String, some, List, [], ◌∷◌, arith, All, keep, ltb,
  le→ltb, inl, inr, Bool-cases, Option-cases,
}
use swyft.Prelude.Equality.{string_eq}
use swyft.Prelude.Distinct.{DistinctKeys, one_if}
use swyft.Prelude.Table.{find}
use swyft.Api.TvlAlerts.{
  AlertStore, TvlAlertThreshold, alert_pause_ms, is_due, check_and_trigger_alerts,
}
use swyft.Api.TvlAlerts.Triggered.{
  Check, run_checks, count_alerts, marked, check_not_due, check_due, trigger_all-DistinctKeys,
}

module _ {F : Type 0} (less : F → F → Bool) (id : String) (start : ℕ) where
  -- A check within 24 hours from `start`, in which the alert is recorded and marked.
  abbrev pub IsWithin : Check F → Type 0
  IsWithin c = (start ≤ c.now) × (c.now ≤ start + alert_pause_ms) × (2 ≤ c.calls id)

  after-DistinctKeys :
      (c : Check F) (s : AlertStore F)
      → DistinctKeys s.thresholds
      → DistinctKeys (check_and_trigger_alerts less c.now c.pool c.tvl c.calls s).thresholds
  unfolding check_and_trigger_alerts
  after-DistinctKeys c s d =
      trigger_all-DistinctKeys c.now c.tvl c.calls
        (keep (λ row. is_due less c.now c.pool c.tvl row.1) s.thresholds) s d

  -- A threshold that was triggered since `start` is not due.
  recent_not_due :
      (c : Check F) (t : TvlAlertThreshold F) (n : ℕ)
      → IsWithin c
      → t.last_triggered_at ≡ some n
      → start ≤ n
      → is_due less c.now c.pool c.tvl t ≡ false
  unfolding is_due
  recent_not_due c t n within last late =
      let rested : ltb n (c.now - alert_pause_ms) ≡ false =
        le→ltb n (c.now - alert_pause_ms) (omega arith) in
      rw (last, rested) (ground arith)

  quiet :
      (checks : List (Check F)) (s : AlertStore F) (t : TvlAlertThreshold F) (n : ℕ)
      → All IsWithin checks
      → DistinctKeys s.thresholds
      → find id s.thresholds ≡ some t
      → t.last_triggered_at ≡ some n
      → start ≤ n
      → count_alerts id (run_checks less checks s).history ≡ count_alerts id s.history
  unfolding run_checks
  quiet [] s t n within d there last late = refl
  quiet (c ∷ checks) s t n (now, within) d there last late =
      let s' = check_and_trigger_alerts less c.now c.pool c.tvl c.calls s in
      let off : one_if (is_due less c.now c.pool c.tvl) (find id s.thresholds) ≡ 0 =
        rw (there, recent_not_due c t n now last late) refl in
      let kept = check_not_due less id c s now.2 d off in
      quiet checks s' t n within (after-DistinctKeys c s d) (kept.1 ∙ there) last late ∙ kept.0

  -- Whatever checks are made within 24 hours, of whatever pools and values, if the alert can be
  -- recorded and marked: a threshold raises one alert at most.
  pub count_alerts-run_checks :
      (checks : List (Check F)) (s : AlertStore F)
      → All IsWithin checks
      → DistinctKeys s.thresholds
      → count_alerts id (run_checks less checks s).history ≤ count_alerts id s.history + 1
  unfolding run_checks
  count_alerts-run_checks [] s within d = omega arith
  count_alerts-run_checks (c ∷ checks) s (now, within) d =
      let s' = check_and_trigger_alerts less c.now c.pool c.tvl c.calls s in
      let d' = after-DistinctKeys c s d in
      elim (Option-cases (find id s.thresholds)) [
        | inl missing ↦
            let kept = check_not_due less id c s now.2 d (rw missing refl) in
            omega (arith, count_alerts-run_checks checks s' within d', kept.0)
        | inr there ↦ elim (Bool-cases (is_due less c.now c.pool c.tvl there.0)) [
          | inl due ↦
              let raised = check_due less id c s now.2 d (rw (there.1, due) refl) in
              let found : find id s'.thresholds ≡ some (marked c.now there.0) =
                raised.1 ∙ rw (there.1) refl in
              omega (
                arith,
                quiet checks s' (marked c.now there.0) c.now within d' found refl now.0,
                raised.0,
              )
          | inr off ↦
              let kept = check_not_due less id c s now.2 d (rw (there.1, off) refl) in
              omega (arith, count_alerts-run_checks checks s' within d', kept.0)
        ]
      ]
