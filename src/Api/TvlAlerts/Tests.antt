-- ===== src/Api/TvlAlerts/Tests.antt =====
-- Runs of tvl-alert.service.ts and instances of its theorems, with natural numbers for amounts.
use swyft.Prelude.{
  ℕ, ◌+◌, ◌*◌, ◌≤◌, ◌≡◌, refl, arith, true, false, String, none, List, [], ◌∷◌, ltb, keep, length,
}
use swyft.Prelude.Equality.{string_eq}
use swyft.Prelude.Table.{find, update}
use swyft.Prelude.Distinct.{one_if}
use swyft.Api.Webhooks.{Webhook, Hooks, is_subscribed}
use swyft.Api.Webhooks.Fanout.{count_jobs}
use swyft.Api.TvlAlerts.{
  TvlAlertThreshold, AlertStore, below, is_due, trigger, trigger_all, check_and_trigger_alerts,
  set_threshold, find_threshold,
}
use swyft.Api.TvlAlerts.Triggered.{Check, run_checks, count_alerts}
use swyft.Api.TvlAlerts.Quiet.{count_alerts-run_checks}
use swyft.Api.TvlAlerts.Reach.{count_jobs-check_and_trigger_alerts}

abbrev other_hook : Webhook
other_hook = record {
  owner_wallet = "G2";
  url = "https://two";
  event_types = "pool.tvl.milestone" ∷ [];
  secret = none;
  large_swap_usd = 10000;
  consecutive_fails = 0;
  disabled = false;
}

abbrev hooks : Hooks
hooks = record { webhooks = ("w", other_hook) ∷ []; deliveries = []; audit = []; queue = [] }

abbrev empty_store : AlertStore ℕ
empty_store = record { thresholds = []; history = []; snapshots = []; hooks = hooks }

abbrev threshold : TvlAlertThreshold ℕ
threshold = record {
  pool_id = "p";
  owner_wallet = "G1";
  threshold_usd = 100;
  direction = below;
  enabled = true;
  last_triggered_at = none;
}

abbrev one_threshold : AlertStore ℕ
one_threshold = record empty_store { thresholds = ("t", threshold) ∷ [] }

set_run : (set_threshold "t" "G1" "p" 100 below empty_store).0 ≡ one_threshold
unfolding set_threshold find_threshold
set_run = refl

abbrev all_calls : String → ℕ
all_calls id = 3

abbrev check_at : ℕ → Check ℕ
check_at now = record { now = now; pool = "p"; tvl = 90; calls = all_calls }

abbrev checks : List (Check ℕ)
checks = check_at 90000000 ∷ check_at 90300000 ∷ []

one_alert_run : count_alerts "t" (run_checks ltb checks one_threshold).history ≡ 1
unfolding run_checks check_and_trigger_alerts is_due trigger trigger_all update
one_alert_run = refl

count_alerts-run_checks_example :
    count_alerts "t" (run_checks ltb checks one_threshold).history ≤ 0 + 1
unfolding find
count_alerts-run_checks_example =
    count_alerts-run_checks ltb "t" 90000000 checks one_threshold (omega arith) (refl, tt)

count_jobs-check_and_trigger_alerts_example :
    count_jobs "w" (check_and_trigger_alerts ltb 5 "p" 90 all_calls one_threshold).hooks.queue
    ≡ count_jobs "w" hooks.queue
      + length (keep (λ row. is_due ltb 5 "p" 90 row.1) one_threshold.thresholds)
        * one_if (is_subscribed "pool.tvl.milestone") (find "w" hooks.webhooks)
unfolding find
count_jobs-check_and_trigger_alerts_example =
    count_jobs-check_and_trigger_alerts "w" 5 90 all_calls (λ j. omega arith) ltb "p" one_threshold
      (refl, tt)
