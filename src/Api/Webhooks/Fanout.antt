-- ===== src/Api/Webhooks/Fanout.antt =====
-- Which webhooks an event of webhooks.service.ts reaches.
use swyft.Prelude.{
  ℕ, suc, ◌+◌, ◌≡◌, refl, ap, ◌∙◌, String, List, [], ◌∷◌, arith, keep, inl, inr, Bool-cases,
  if◌then◌else◌,
}
use swyft.Prelude.Equality.{◌===◌, string_eq}
use swyft.Prelude.Counted.{count_key}
use swyft.Prelude.Distinct.{DistinctKeys, one_if, count_rows, count_rows-keep}
use swyft.Prelude.Table.{Table, find}
use swyft.Api.Webhooks.{
  Webhook, Hooks, WebhookJob, is_subscribed, subscribers, enqueue, enqueue_all, dispatch,
}

-- The jobs of a webhook.
unfoldable pub count_jobs : String → List WebhookJob → ℕ
count_jobs id [] = 0
count_jobs id (job ∷ queue) =
    let rest = count_jobs id queue in if job.webhook_id === id then suc rest else rest

count_jobs-enqueue :
    (id j event : String) (queue : List WebhookJob)
    → count_jobs id (enqueue event j queue)
      ≡ (if j === id then suc (count_jobs id queue) else count_jobs id queue)
unfolding count_jobs enqueue
count_jobs-enqueue id j event [] = refl
count_jobs-enqueue id j event (job ∷ queue) = ground (arith, count_jobs-enqueue id j event queue)

count_jobs-enqueue_all :
    (id event : String) (ids : List String) (queue : List WebhookJob)
    → count_jobs id (enqueue_all event ids queue) ≡ count_jobs id queue + count_key id ids
unfolding enqueue_all count_key
count_jobs-enqueue_all id event [] queue = omega arith
count_jobs-enqueue_all id event (j ∷ ids) queue = ground (
  arith,
  count_jobs-enqueue id j event queue,
  count_jobs-enqueue_all id event ids (enqueue event j queue),
)

count_key-subscribers :
    (id event : String) (t : Table String Webhook)
    → count_key id (subscribers event t) ≡ count_rows id (keep (λ row. is_subscribed event row.1) t)
unfolding subscribers count_key
count_key-subscribers id event [] = refl
count_key-subscribers id event ((j, w) ∷ t) = elim (Bool-cases (is_subscribed event w)) [
  | inl kept ↦
      rw kept (ap (λ (n : ℕ). if j === id then suc n else n) (count_key-subscribers id event t))
  | inr left ↦ rw left (count_key-subscribers id event t)
]

-- An event gives each webhook exactly one job more if it is enabled and subscribed to the event, and
-- none otherwise; a webhook that does not exist gets none.
pub count_jobs-dispatch :
    (id event : String) (h : Hooks)
    → DistinctKeys h.webhooks
    → count_jobs id (dispatch event h).queue
      ≡ count_jobs id h.queue + one_if (is_subscribed event) (find id h.webhooks)
unfolding dispatch
count_jobs-dispatch id event h d =
    count_jobs-enqueue_all id event (subscribers event h.webhooks) h.queue
    ∙ ap (λ (n : ℕ). count_jobs id h.queue + n)
        (count_key-subscribers id event h.webhooks
          ∙ count_rows-keep id (is_subscribed event) h.webhooks d)
