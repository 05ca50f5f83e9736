-- ===== src/Api/TvlAlerts/Reach.antt =====
-- Whose webhooks an alert of tvl-alert.service.ts reaches through webhooks.service.ts.
use swyft.Prelude.{
  ℕ, zero, suc, ◌+◌, ◌*◌, ◌≤◌, ◌≡◌, refl, sym, ap, subst, ◌∙◌, Bool, String, [], ◌∷◌, arith, keep,
  length,
}
use swyft.Prelude.Equality.{string_eq}
use swyft.Prelude.Distinct.{DistinctKeys, one_if}
use swyft.Prelude.Table.{Table, find}
use swyft.Api.Webhooks.{Webhook, Hooks, is_subscribed, dispatch}
use swyft.Api.Webhooks.Fanout.{count_jobs, count_jobs-dispatch}
use swyft.Api.TvlAlerts.{
  AlertStore, TvlAlertThreshold, is_due, trigger, trigger_all, check_and_trigger_alerts,
}

module _ {F : Type 0} (id : String) (now : ℕ) (tvl : F) (calls : String → ℕ)
    (all_succeed : (j : String) → 3 ≤ calls j) where
  abbrev reached : Hooks → ℕ
  reached h = one_if (is_subscribed "pool.tvl.milestone") (find id h.webhooks)

  count_jobs-trigger :
      (n : ℕ) (row : String × TvlAlertThreshold F) (s : AlertStore F)
      → 3 ≤ n
      → DistinctKeys s.hooks.webhooks
      → ((trigger now tvl n row s).hooks.webhooks ≡ s.hooks.webhooks)
        × (count_jobs id (trigger now tvl n row s).hooks.queue
            ≡ count_jobs id s.hooks.queue + reached s.hooks)
  unfolding trigger dispatch
  count_jobs-trigger zero (j, t) s le d = absurd (omega arith)
  count_jobs-trigger (suc zero) (j, t) s le d = absurd (omega arith)
  count_jobs-trigger (suc (suc zero)) (j, t) s le d = absurd (omega arith)
  count_jobs-trigger (suc (suc (suc n))) (j, t) s le d =
      (refl, count_jobs-dispatch id "pool.tvl.milestone" s.hooks d)

  count_jobs-trigger_all :
      (rows : Table String (TvlAlertThreshold F)) (s : AlertStore F)
      → DistinctKeys s.hooks.webhooks
      → count_jobs id (trigger_all now tvl calls rows s).hooks.queue
        ≡ count_jobs id s.hooks.queue + length rows * reached s.hooks
  unfolding trigger_all
  count_jobs-trigger_all [] s d = omega arith
  count_jobs-trigger_all ((j, t) ∷ rows) s d =
      let s' = trigger now tvl (calls j) (j, t) s in
      let one = count_jobs-trigger (calls j) (j, t) s (all_succeed j) d in
      let same : reached s'.hooks ≡ reached s.hooks =
        ap (λ (w : Table String Webhook). one_if (is_subscribed "pool.tvl.milestone") (find id w))
          one.0 in
      let ih = count_jobs-trigger_all rows s' (subst DistinctKeys (sym one.0) d) in
      ih ∙ rw (same, one.1) (grind arith)

  -- Where every call succeeds: a check gives every enabled webhook that is subscribed to
  -- pool.tvl.milestone one job for each threshold that is due, whichever wallet set the threshold
  -- and whichever wallet owns the webhook.
  pub count_jobs-check_and_trigger_alerts :
      (less : F → F → Bool) (pool : String) (s : AlertStore F)
      → DistinctKeys s.hooks.webhooks
      → count_jobs id (check_and_trigger_alerts less now pool tvl calls s).hooks.queue
        ≡ count_jobs id s.hooks.queue
          + length (keep (λ row. is_due less now pool tvl row.1) s.thresholds) * reached s.hooks
  unfolding check_and_trigger_alerts
  count_jobs-check_and_trigger_alerts less pool s d =
      count_jobs-trigger_all (keep (λ row. is_due less now pool tvl row.1) s.thresholds) s d
