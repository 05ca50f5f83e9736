-- ===== src/Api/Webhooks/Owners.antt =====
-- What the requests of a wallet to webhooks.service.ts do to another wallet's registrations.
use swyft.Prelude.{
  ℕ, ◌≡◌, refl, ◌∙◌, Bool, true, false, not, String, Option, List, [], ◌∷◌, arith, any, keep, All,
  inl, inr, Bool-cases, if◌then◌else◌,
}
use swyft.Prelude.Equality.{◌===◌, string_eq}
use swyft.Prelude.Table.{Table}
use swyft.Api.Webhooks.{
  Webhook, Hooks, AuditEntry, WebhookJob, enqueue, retry_failed_deliveries, is_row_of,
  create_webhook, list_webhooks, remove_webhook, audit_log, ping, retry_deliveries,
}

-- The requests that change something, with what the database and the environment give.
pub data WalletCall : Type 0 where
  create : ℕ → String → String → List String → Option String → Option ℕ → WalletCall
  remove : String → WalletCall
  ping_call : String → String → WalletCall
  retry : String → WalletCall

unfoldable pub on_call : Hooks → String × WalletCall → Hooks
on_call h (owner, create threshold id url types secret large) =
    create_webhook threshold id owner url types secret large h
on_call h (owner, remove id) = remove_webhook id owner h
on_call h (owner, ping_call id event) = (ping id owner event h).0
on_call h (owner, retry id) = (retry_deliveries id owner h).0

unfoldable pub run_calls : Hooks → List (String × WalletCall) → Hooks
run_calls h [] = h
run_calls h (c ∷ calls) = run_calls (on_call h c) calls

-- What a wallet sees: its webhooks and its audit log.
abbrev pub view : String → Hooks → Table String Webhook × List AuditEntry
view wallet h = (list_webhooks wallet h, audit_log wallet h)

keep-remove :
    (wallet id owner : String) (rows : Table String Webhook)
    → (owner === wallet) ≡ false
    → keep (λ row. row.1.owner_wallet === wallet) (keep (λ row. not (is_row_of id owner row)) rows)
      ≡ keep (λ row. row.1.owner_wallet === wallet) rows
keep-remove wallet id owner [] apart = refl
keep-remove wallet id owner ((j, w) ∷ rows) apart = ground (
  arith,
  string_eq.same_iff w.owner_wallet owner,
  string_eq.same_iff w.owner_wallet wallet,
  string_eq.same_iff owner wallet,
  keep-remove wallet id owner rows apart,
)

view_branch :
    {A : Type 0} (wallet : String) (b : Bool) (h : Hooks) (queue : List WebhookJob) (x y : A)
    → view wallet (if◌then◌else◌ {A = Hooks × A} b (record h { queue = queue }, x) (h, y)).0
      ≡ view wallet h
unfolding list_webhooks audit_log
view_branch wallet true h queue x y = refl
view_branch wallet false h queue x y = refl

view-on_call :
    (wallet owner : String) (call : WalletCall) (h : Hooks)
    → (owner === wallet) ≡ false
    → view wallet (on_call h (owner, call)) ≡ view wallet h
unfolding on_call create_webhook list_webhooks remove_webhook audit_log ping retry_deliveries
view-on_call wallet owner (create threshold id url types secret large) h apart = rw apart refl
view-on_call wallet owner (remove id) h apart =
    elim (Bool-cases (any (is_row_of id owner) h.webhooks)) [
      | inl found ↦ rw (found, apart, keep-remove wallet id owner h.webhooks apart) refl
      | inr missing ↦ rw (missing, keep-remove wallet id owner h.webhooks apart) refl
    ]
view-on_call wallet owner (ping_call id event) h apart =
    view_branch wallet (any (is_row_of id owner) h.webhooks) h (enqueue event id h.queue) true false
view-on_call wallet owner (retry id) h apart =
    let retried = retry_failed_deliveries id h.queue in
    view_branch wallet (any (is_row_of id owner) h.webhooks) h retried.0 retried.1 0

-- Any sequence of requests by other wallets, whatever ids they name, leaves a wallet's webhooks and
-- its audit log as they were.
pub view-run_calls :
    (wallet : String) (calls : List (String × WalletCall)) (h : Hooks)
    → All (λ c. (c.0 === wallet) ≡ false) calls
    → view wallet (run_calls h calls) ≡ view wallet h
unfolding run_calls
view-run_calls wallet [] h others = refl
view-run_calls wallet ((owner, call) ∷ calls) h (apart, others) =
    view-run_calls wallet calls (on_call h (owner, call)) others
    ∙ view-on_call wallet owner call h apart
