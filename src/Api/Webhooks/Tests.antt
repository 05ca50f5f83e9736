-- ===== src/Api/Webhooks/Tests.antt =====
-- Runs of apps/api/src/webhooks and instances of its theorems.
use swyft.Prelude.{ℕ, ◌+◌, ◌≡◌, refl, Bool, true, false, String, Option, none, some, List, [], ◌∷◌}
use swyft.Prelude.Equality.{string_eq}
use swyft.Prelude.Table.{find, update}
use swyft.Prelude.Distinct.{one_if}
use swyft.Api.Webhooks.{
  Webhook, Hooks, Attempt, deliver, settle_delivery, settled_row, is_success, is_subscribed,
  dispatch,
}
use swyft.Api.Webhooks.Streaks.{run_deliveries, has_streak, statuses_of, run_deliveries-has_streak}
use swyft.Api.Webhooks.Owners.{remove, view, run_calls, view-run_calls}
use swyft.Api.Webhooks.Fanout.{count_jobs, count_jobs-dispatch}

abbrev hook : ℕ → Bool → Webhook
hook fails off = record {
  owner_wallet = "G1";
  url = "https://one";
  event_types = "swap" ∷ [];
  secret = none;
  large_swap_usd = 10000;
  consecutive_fails = fails;
  disabled = off;
}

abbrev hooks : Hooks
hooks = record { webhooks = ("w", hook 0 false) ∷ []; deliveries = []; audit = []; queue = [] }

abbrev attempt : String → Option ℕ → Attempt
attempt id status = record {
  webhook_id = id;
  event = "swap";
  attempt = 1;
  max_attempts = 3;
  response_status = status;
}

abbrev attempts : List Attempt
attempts =
    attempt "w" none
    ∷ attempt "w" (some 200)
    ∷ attempt "w" (some 500)
    ∷ attempt "v" none
    ∷ attempt "w" none
    ∷ []

two_in_a_row : find "w" (run_deliveries 2 attempts hooks).webhooks ≡ some (hook 2 true)
unfolding run_deliveries deliver settle_delivery settled_row is_success find update
two_in_a_row = refl

run_deliveries-has_streak_example : true ≡ has_streak 2 (statuses_of "w" attempts)
unfolding find
run_deliveries-has_streak_example =
    run_deliveries-has_streak "w" 1 attempts hooks (hook 0 false) (hook 2 true) refl refl refl
      two_in_a_row

view-run_calls_example : view "G1" (run_calls hooks (("G2", remove "w") ∷ [])) ≡ view "G1" hooks
view-run_calls_example = view-run_calls "G1" (("G2", remove "w") ∷ []) hooks (refl, tt)

count_jobs-dispatch_example :
    count_jobs "w" (dispatch "swap" hooks).queue
    ≡ count_jobs "w" hooks.queue + one_if (is_subscribed "swap") (find "w" hooks.webhooks)
unfolding find
count_jobs-dispatch_example = count_jobs-dispatch "w" "swap" hooks (refl, tt)
