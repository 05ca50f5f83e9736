-- ===== src/Api/Webhooks/Streaks.antt =====
-- When webhook.processor.ts disables a webhook.
use swyft.Prelude.{
  ok, ℕ, zero, suc, ◌+◌, ◌≤◌, ◌≡◌, refl, sym, ap, ◌∙◌, Bool, true, false, not, ◌&&◌, ◌||◌, String,
  Option, none, some, List, [], ◌∷◌, arith, leb, le→leb, lt→leb, inl, inr, Bool-cases,
  if◌then◌else◌,
}
use swyft.Prelude.Equality.{◌===◌, string_eq}
use swyft.Prelude.Table.{find, find-update, map?}
use swyft.Api.Webhooks.{
  Webhook, Hooks, Attempt, is_success, settled_row, settle_delivery, deliver_to, deliver,
}

-- Failures at the start of the statuses, `n` at least.
abbrev pub starts_with_failures : ℕ → List (Option ℕ) → Bool
starts_with_failures zero ss = true
starts_with_failures (suc n) [] = false
starts_with_failures (suc n) (s ∷ ss) = not (is_success s) && starts_with_failures n ss

-- A run of `n` failures somewhere.
abbrev pub has_streak : ℕ → List (Option ℕ) → Bool
has_streak n [] = false
has_streak n (s ∷ ss) = starts_with_failures n (s ∷ ss) || has_streak n ss

-- The statuses of one webhook.
abbrev pub statuses_of : String → List Attempt → List (Option ℕ)
statuses_of id [] = []
statuses_of id (a ∷ rest) =
    let ss = statuses_of id rest in if a.webhook_id === id then a.response_status ∷ ss else ss

-- Deliveries one after the other.
unfoldable pub run_deliveries : ℕ → List Attempt → Hooks → Hooks
run_deliveries max_fails [] h = h
run_deliveries max_fails (a ∷ rest) h = run_deliveries max_fails rest (deliver max_fails a h).0

abbrev stepped : ℕ → Option ℕ → Webhook → Bool → Webhook
stepped max_fails s w true = w
stepped max_fails s w false = settled_row max_fails s w w

-- The row of the webhook under its own statuses.
row_after : ℕ → List (Option ℕ) → Webhook → Webhook
row_after max_fails [] w = w
row_after max_fails (s ∷ ss) w = row_after max_fails ss (stepped max_fails s w w.disabled)

starts_with_failures_mono :
    (k n : ℕ) (ss : List (Option ℕ))
    → k ≤ n
    → starts_with_failures n ss ≡ true
    → starts_with_failures k ss ≡ true
starts_with_failures_mono zero n ss h e = refl
starts_with_failures_mono (suc k) zero ss h e = absurd (omega arith)
starts_with_failures_mono (suc k) (suc n) [] h e = cc
starts_with_failures_mono (suc k) (suc n) (s ∷ ss) h e =
    let ih : starts_with_failures n ss ≡ true → starts_with_failures k ss ≡ true =
      starts_with_failures_mono k n ss (omega arith) in
    ground (arith, ih)

row_after_step :
    (max_fails : ℕ) (s : Option ℕ) (ss : List (Option ℕ)) (w : Webhook) (b : Bool)
    → w.disabled ≡ b
    → (row_after max_fails (s ∷ ss) w).disabled
      ≡ (row_after max_fails ss (stepped max_fails s w b)).disabled
unfolding row_after
row_after_step max_fails s ss w b e =
    ap (λ (c : Bool). (row_after max_fails ss (stepped max_fails s w c)).disabled) e

row_after_disabled :
    (max_fails : ℕ) (ss : List (Option ℕ)) (w : Webhook)
    → w.disabled ≡ true
    → (row_after max_fails ss w).disabled ≡ true
unfolding row_after
row_after_disabled max_fails [] w h = h
row_after_disabled max_fails (s ∷ ss) w h =
    row_after_step max_fails s ss w true h ∙ row_after_disabled max_fails ss w h

settled_success :
    (max_fails : ℕ) (s : Option ℕ) (w : Webhook)
    → is_success s ≡ true
    → settled_row max_fails s w w ≡ record w { consecutive_fails = 0 }
unfolding settled_row
settled_success max_fails s w good = rw good refl

settled_failure :
    (max_fails : ℕ) (s : Option ℕ) (w : Webhook)
    → is_success s ≡ false
    → settled_row max_fails s w w ≡ record w {
      consecutive_fails = suc w.consecutive_fails;
      disabled = leb max_fails (suc w.consecutive_fails);
    }
unfolding settled_row
settled_failure max_fails s w bad = rw bad refl

-- A list that is not empty has a streak at its start or later.
has_streak-starts :
    (m : ℕ) (ss : List (Option ℕ))
    → (starts_with_failures (suc m) ss || has_streak (suc m) ss) ≡ has_streak (suc m) ss
has_streak-starts m [] = refl
has_streak-starts m (s ∷ ss) = ground arith

longer_streak :
    (m k : ℕ) (s : Option ℕ) (ss : List (Option ℕ))
    → is_success s ≡ false
    → suc k ≤ m
    → (starts_with_failures (suc k) ss || has_streak (suc m) ss)
      ≡ (starts_with_failures (suc (suc k)) (s ∷ ss) || has_streak (suc m) (s ∷ ss))
longer_streak m k s ss bad le =
    let mono : starts_with_failures m ss ≡ true → starts_with_failures (suc k) ss ≡ true =
      starts_with_failures_mono (suc k) m ss le in
    ground (arith, mono)

map?_same {ℓ} : {V : Type ℓ} (o : Option V) → o ≡ map? (λ v. v) o
map?_same none = refl
map?_same (some v) = refl

map?-map? {ℓ} :
    {V : Type ℓ} (f g : V → V) (o : Option V) → map? g (map? f o) ≡ map? (λ v. g (f v)) o
map?-map? f g none = refl
map?-map? f g (some v) = refl

-- From a row that is `n + 1` failures short of the limit.
row_after-has_streak :
    (m n : ℕ) (ss : List (Option ℕ)) (w : Webhook)
    → w.disabled ≡ false
    → w.consecutive_fails + n ≡ m
    → (row_after (suc m) ss w).disabled ≡ (starts_with_failures (suc n) ss || has_streak (suc m) ss)
unfolding row_after
row_after-has_streak m n [] w off left = off
row_after-has_streak m zero (s ∷ ss) w off left = elim (Bool-cases (is_success s)) [
  | inl good ↦
      row_after_step (suc m) s ss w false off
      ∙ ap (λ (v : Webhook). (row_after (suc m) ss v).disabled) (settled_success (suc m) s w good)
      ∙ row_after-has_streak m m ss (record w { consecutive_fails = 0 }) off (omega arith)
      ∙ has_streak-starts m ss
      ∙ rw good refl
  | inr bad ↦
      let w' : Webhook = record w {
        consecutive_fails = suc w.consecutive_fails;
        disabled = leb (suc m) (suc w.consecutive_fails);
      } in
      row_after_step (suc m) s ss w false off
      ∙ ap (λ (v : Webhook). (row_after (suc m) ss v).disabled) (settled_failure (suc m) s w bad)
      ∙ row_after_disabled (suc m) ss w' (le→leb (suc m) (suc w.consecutive_fails) (omega arith))
      ∙ rw bad refl
]
row_after-has_streak m (suc k) (s ∷ ss) w off left = elim (Bool-cases (is_success s)) [
  | inl good ↦
      row_after_step (suc m) s ss w false off
      ∙ ap (λ (v : Webhook). (row_after (suc m) ss v).disabled) (settled_success (suc m) s w good)
      ∙ row_after-has_streak m m ss (record w { consecutive_fails = 0 }) off (omega arith)
      ∙ has_streak-starts m ss
      ∙ rw good refl
  | inr bad ↦
      let w' : Webhook = record w {
        consecutive_fails = suc w.consecutive_fails;
        disabled = leb (suc m) (suc w.consecutive_fails);
      } in
      row_after_step (suc m) s ss w false off
      ∙ ap (λ (v : Webhook). (row_after (suc m) ss v).disabled) (settled_failure (suc m) s w bad)
      ∙ row_after-has_streak m k ss w' (lt→leb (suc m) (suc w.consecutive_fails) (omega arith))
          (omega arith)
      ∙ longer_streak m k s ss bad (omega arith)
]

-- What a delivery changes of a row: the one of its own webhook steps.
abbrev row_effect : String → ℕ → Attempt → Option Webhook → Option Webhook
row_effect id max_fails a o =
    if a.webhook_id === id
    then map? (λ w. stepped max_fails a.response_status w w.disabled) o
    else o

row_effect-none :
    (id : String) (max_fails : ℕ) (a : Attempt) (h : Hooks)
    → find a.webhook_id h.webhooks ≡ none
    → find id h.webhooks ≡ row_effect id max_fails a (find id h.webhooks)
row_effect-none id max_fails a h e = elim (Bool-cases (a.webhook_id === id)) [
  | inl same ↦
      let e' : find id h.webhooks ≡ none =
        ap (λ (k : String). find k h.webhooks) (sym ((string_eq.same_iff a.webhook_id id).0 same))
        ∙ e in
      rw (same, e') refl
  | inr other ↦ rw other refl
]

row_effect-some :
    (id : String) (max_fails : ℕ) (a : Attempt) (h : Hooks) (w : Webhook) (b : Bool)
    → find a.webhook_id h.webhooks ≡ some w
    → w.disabled ≡ b
    → (if a.webhook_id === id
        then some (stepped max_fails a.response_status w b)
        else find id h.webhooks)
      ≡ row_effect id max_fails a (find id h.webhooks)
row_effect-some id max_fails a h w b e d = elim (Bool-cases (a.webhook_id === id)) [
  | inl same ↦
      let e' : find id h.webhooks ≡ some w =
        ap (λ (k : String). find k h.webhooks) (sym ((string_eq.same_iff a.webhook_id id).0 same))
        ∙ e in
      rw (same, e') (ap (λ (c : Bool). some (stepped max_fails a.response_status w c)) (sym d))
  | inr other ↦ rw other refl
]

find-deliver_some :
    (id : String) (max_fails : ℕ) (a : Attempt) (h : Hooks) (w : Webhook) (b : Bool)
    → find a.webhook_id h.webhooks ≡ some w
    → find id (if b then (h, ok tt) else settle_delivery max_fails a w h).0.webhooks ≡ (
        if a.webhook_id === id
        then some (stepped max_fails a.response_status w b)
        else find id h.webhooks)
unfolding settle_delivery
find-deliver_some id max_fails a h w true e = elim (Bool-cases (a.webhook_id === id)) [
  | inl same ↦ rw same (
      ap (λ (k : String). find k h.webhooks) (sym ((string_eq.same_iff a.webhook_id id).0 same))
      ∙ e)
  | inr other ↦ rw other refl
]
find-deliver_some id max_fails a h w false e =
    find-update a.webhook_id id (settled_row max_fails a.response_status w) h.webhooks ∙ rw e refl

find-deliver_to :
    (id : String) (max_fails : ℕ) (a : Attempt) (h : Hooks) (o : Option Webhook)
    → find a.webhook_id h.webhooks ≡ o
    → find id (deliver_to max_fails a h o).0.webhooks
      ≡ row_effect id max_fails a (find id h.webhooks)
find-deliver_to id max_fails a h none e = row_effect-none id max_fails a h e
find-deliver_to id max_fails a h (some w) e =
    find-deliver_some id max_fails a h w w.disabled e
    ∙ row_effect-some id max_fails a h w w.disabled e refl

find-run_deliveries :
    (id : String) (max_fails : ℕ) (attempts : List Attempt) (h : Hooks)
    → find id (run_deliveries max_fails attempts h).webhooks
      ≡ map? (row_after max_fails (statuses_of id attempts)) (find id h.webhooks)
unfolding run_deliveries row_after deliver
find-run_deliveries id max_fails [] h = map?_same (find id h.webhooks)
find-run_deliveries id max_fails (a ∷ rest) h =
    let one = find-deliver_to id max_fails a h (find a.webhook_id h.webhooks) refl in
    find-run_deliveries id max_fails rest (deliver max_fails a h).0
    ∙ ap (λ (o : Option Webhook). map? (row_after max_fails (statuses_of id rest)) o) one
    ∙ elim (Bool-cases (a.webhook_id === id)) [
      | inl same ↦ rw same (
          map?-map? (λ w. stepped max_fails a.response_status w w.disabled)
            (row_after max_fails (statuses_of id rest)) (find id h.webhooks))
      | inr other ↦ rw other refl
    ]

-- After deliveries to any webhooks, one after the other, a webhook that was new before them is
-- disabled exactly when `max_fails` deliveries to it in a row have failed somewhere among its
-- own, whatever came before and after.
pub run_deliveries-has_streak :
    (id : String) (m : ℕ) (attempts : List Attempt) (h : Hooks) (w w' : Webhook)
    → find id h.webhooks ≡ some w
    → w.disabled ≡ false
    → w.consecutive_fails ≡ 0
    → find id (run_deliveries (suc m) attempts h).webhooks ≡ some w'
    → w'.disabled ≡ has_streak (suc m) (statuses_of id attempts)
run_deliveries-has_streak id m attempts h w w' there off new after =
    let found : some (row_after (suc m) (statuses_of id attempts) w) ≡ some w' =
      sym (find-run_deliveries id (suc m) attempts h ∙ rw there refl) ∙ after in
    let same : row_after (suc m) (statuses_of id attempts) w ≡ w' = cc in
    ap (λ (v : Webhook). v.disabled) (sym same)
    ∙ row_after-has_streak m m (statuses_of id attempts) w off (omega arith)
    ∙ has_streak-starts m (statuses_of id attempts)
