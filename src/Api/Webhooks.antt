-- ===== src/Api/Webhooks.antt =====
-- apps/api/src/webhooks: webhooks.service.ts, the registrations of a wallet and the fan-out of an
-- event, and webhook.processor.ts, the delivery of a job. The database makes ids and times; the HTTP
-- call is its status (`none` is a failed or blocked call); the signature of a body is left out. The
-- queue is a list of jobs; a failed one stays until it is retried.
pub mod Streaks
pub mod Owners
pub mod Fanout
mod Tests
use swyft.Prelude.{
  ℕ, suc, ◌+◌, Bool, true, false, not, ◌&&◌, String, Option, none, some, is_none, List, [], ◌∷◌,
  ◌++◌, map, Result, err, ok, ltb, leb, any, keep, length, if◌then◌else◌,
}
use swyft.Prelude.Equality.{◌===◌, string_eq}
use swyft.Prelude.Table.{Table, find, update}

pub record Webhook : Type 0 where
  pub owner_wallet : String
  pub url : String
  pub event_types : List String
  pub secret : Option String
  pub large_swap_usd : ℕ
  pub consecutive_fails : ℕ
  pub disabled : Bool

-- The actions of the audit log, with the data of their `meta`.
pub data AuditAction : Type 0 where
  created : String → List String → AuditAction
  deleted : AuditAction
  delivery_attempt : ℕ → ℕ → Option ℕ → Bool → AuditAction

pub record AuditEntry : Type 0 where
  pub webhook_id : String
  pub action : AuditAction
  pub owner_wallet : String

pub record WebhookDelivery : Type 0 where
  pub webhook_id : String
  pub event_type : String
  pub response_status : Option ℕ

pub record WebhookJob : Type 0 where
  pub webhook_id : String
  pub event : String
  pub has_failed : Bool

-- The three tables and the queue.
pub record Hooks : Type 0 where
  pub webhooks : Table String Webhook
  pub deliveries : List WebhookDelivery
  pub audit : List AuditEntry
  pub queue : List WebhookJob

abbrev pub webhook_events : List String
webhook_events =
    "pool.created" ∷ "swap" ∷ "swap.large" ∷ "pool.tvl.milestone" ∷ "position.minted"
    ∷ "position.burned" ∷ []

abbrev pub has_text : String → List String → Bool
has_text t texts = any (λ other. other === t) texts

abbrev pub logged : AuditEntry → Hooks → Hooks
logged entry h = record h { audit = entry ∷ h.audit }

abbrev pub or_default {ℓ} : {A : Type ℓ} → A → Option A → A
or_default a none = a
or_default a (some b) = b

-- The new row's id is the database's; `threshold` is LARGE_SWAP_THRESHOLD_USD.
unfoldable pub create_webhook :
    ℕ → String → String → String → List String → Option String → Option ℕ → Hooks → Hooks
create_webhook threshold id owner_wallet url event_types secret large_swap_usd h =
    let valid_types = keep (λ e. has_text e webhook_events) event_types in
    let webhook : Webhook = record {
      owner_wallet = owner_wallet;
      url = url;
      event_types = valid_types;
      secret = secret;
      large_swap_usd = or_default threshold large_swap_usd;
      consecutive_fails = 0;
      disabled = false;
    } in
    logged
      (record { webhook_id = id; action = created url valid_types; owner_wallet = owner_wallet })
      (record h { webhooks = (id, webhook) ∷ h.webhooks })

unfoldable pub list_webhooks : String → Hooks → Table String Webhook
list_webhooks owner h = keep (λ row. row.1.owner_wallet === owner) h.webhooks

abbrev pub is_row_of : String → String → String × Webhook → Bool
is_row_of id owner row = row.0 === id && row.1.owner_wallet === owner

-- `deleteMany`, and an audit entry if it deleted.
unfoldable pub remove_webhook : String → String → Hooks → Hooks
remove_webhook id owner h =
    let h' = record h { webhooks = keep (λ row. not (is_row_of id owner row)) h.webhooks } in
    if any (is_row_of id owner) h.webhooks
    then logged (record { webhook_id = id; action = deleted; owner_wallet = owner }) h'
    else h'

-- Newest first.
unfoldable pub audit_log : String → Hooks → List AuditEntry
audit_log owner h = keep (λ e. e.owner_wallet === owner) h.audit

-- `WebhookWorker.dispatch`: one job.
unfoldable pub enqueue : String → String → List WebhookJob → List WebhookJob
enqueue event id queue = queue ++ record { webhook_id = id; event = event; has_failed = false } ∷ []

unfoldable pub enqueue_all : String → List String → List WebhookJob → List WebhookJob
enqueue_all event [] queue = queue
enqueue_all event (id ∷ ids) queue = enqueue_all event ids (enqueue event id queue)

abbrev pub is_subscribed : String → Webhook → Bool
is_subscribed event w = not w.disabled && has_text event w.event_types

unfoldable pub subscribers : String → Table String Webhook → List String
subscribers event [] = []
subscribers event ((id, w) ∷ rest) =
    let ids = subscribers event rest in if is_subscribed event w then id ∷ ids else ids

-- `WebhooksService.dispatch`
unfoldable pub dispatch : String → Hooks → Hooks
dispatch event h = record h { queue = enqueue_all event (subscribers event h.webhooks) h.queue }

-- The answer is `sent`.
unfoldable pub ping : String → String → String → Hooks → Hooks × Bool
ping id owner event h =
    if any (is_row_of id owner) h.webhooks
    then (record h { queue = enqueue event id h.queue }, true)
    else (h, false)

abbrev pub is_failed_of : String → WebhookJob → Bool
is_failed_of id job = job.has_failed && job.webhook_id === id

unfoldable pub retry_failed_deliveries : String → List WebhookJob → List WebhookJob × ℕ
retry_failed_deliveries id queue = (
  map (λ job. if is_failed_of id job then record job { has_failed = false } else job) queue,
  length (keep (is_failed_of id) queue),
)

unfoldable pub retry_deliveries : String → String → Hooks → Hooks × ℕ
retry_deliveries id owner h =
    if any (is_row_of id owner) h.webhooks
    then (
      record h { queue = (retry_failed_deliveries id h.queue).0 },
      (retry_failed_deliveries id h.queue).1,
    )
    else (h, 0)

-- One attempt of a job, with the status that its HTTP call came back with.
pub record Attempt : Type 0 where
  pub webhook_id : String
  pub event : String
  pub attempt : ℕ
  pub max_attempts : ℕ
  pub response_status : Option ℕ

unfoldable pub is_success : Option ℕ → Bool
is_success none = false
is_success (some status) = ltb status 400

pub data DeliveryError : Type 0 where
  delivery_failed row_missing : DeliveryError

-- The update of the row, from what `deliver` read of it before the call.
unfoldable pub settled_row : ℕ → Option ℕ → Webhook → Webhook → Webhook
settled_row max_fails status seen row =
    let fails = suc seen.consecutive_fails in
    if is_success status
    then record row { consecutive_fails = 0 }
    else record row { consecutive_fails = fails; disabled = leb max_fails fails }

abbrev pub settled_outcome : Option ℕ → Option Webhook → Result DeliveryError (Unit {0})
settled_outcome status none = err row_missing
settled_outcome status (some _) = if is_success status then ok tt else err delivery_failed

-- `deliver` after the call: the two records, and the row.
unfoldable pub settle_delivery :
    ℕ → Attempt → Webhook → Hooks → Hooks × Result DeliveryError (Unit {0})
settle_delivery max_fails a seen h = (
  record {
    webhooks = update a.webhook_id (settled_row max_fails a.response_status seen) h.webhooks;
    deliveries =
        record {
          webhook_id = a.webhook_id;
          event_type = a.event;
          response_status = a.response_status;
        }
        ∷ h.deliveries;
    audit =
        record {
          webhook_id = a.webhook_id;
          action =
              delivery_attempt a.attempt a.max_attempts a.response_status
                (is_success a.response_status);
          owner_wallet = seen.owner_wallet;
        }
        ∷ h.audit;
    queue = h.queue;
  },
  settled_outcome a.response_status (find a.webhook_id h.webhooks),
)

abbrev pub deliver_to :
    ℕ → Attempt → Hooks → Option Webhook → Hooks × Result DeliveryError (Unit {0})
deliver_to max_fails a h none = (h, ok tt)
deliver_to max_fails a h (some w) =
    if w.disabled then (h, ok tt) else settle_delivery max_fails a w h

-- A delivery with nothing in between.
unfoldable pub deliver : ℕ → Attempt → Hooks → Hooks × Result DeliveryError (Unit {0})
deliver max_fails a h = deliver_to max_fails a h (find a.webhook_id h.webhooks)
