-- ===== src/Api/TvlAlerts/Triggered.antt =====
-- What one check of tvl-alert.service.ts does to one threshold and its alerts.
use swyft.Prelude.{
  ℕ, zero, suc, ◌+◌, ◌≤◌, ◌≡◌, refl, ap, ◌∙◌, Bool, true, false, String, some, List, [], ◌∷◌, arith,
  keep, inl, inr, Bool-cases, if◌then◌else◌,
}
use swyft.Prelude.Equality.{◌===◌, string_eq}
use swyft.Prelude.Distinct.{DistinctKeys, count_rows, one_if, count_rows-keep, update-DistinctKeys}
use swyft.Prelude.Table.{Table, find, update, map?, find-update}
use swyft.Api.TvlAlerts.{
  AlertStore, TvlAlertThreshold, TvlAlertHistory, is_due, trigger, trigger_all,
  check_and_trigger_alerts,
}

module _ {F : Type 0} where
  -- The alerts of a threshold in the history.
  abbrev pub count_alerts : String → List (TvlAlertHistory F) → ℕ
  count_alerts id [] = 0
  count_alerts id (a ∷ rest) =
      let others = count_alerts id rest in if a.threshold_id === id then suc others else others

-- A check: when, of which pool, with which value, and the calls that succeed.
pub record Check (F : Type 0) : Type 0 where
  pub now : ℕ
  pub pool : String
  pub tvl : F
  pub calls : String → ℕ

module _ {F : Type 0} (less : F → F → Bool) where
  unfoldable pub run_checks : List (Check F) → AlertStore F → AlertStore F
  run_checks [] s = s
  run_checks (c ∷ checks) s =
      run_checks checks (check_and_trigger_alerts less c.now c.pool c.tvl c.calls s)

module _ {F : Type 0} where
  abbrev pub marked : ℕ → TvlAlertThreshold F → TvlAlertThreshold F
  marked now t = record t { last_triggered_at = some now }

  trigger_other :
      (id : String) (now : ℕ) (tvl : F) (calls : ℕ) (row : String × TvlAlertThreshold F)
      (s : AlertStore F)
      → (row.0 === id) ≡ false
      → (count_alerts id (trigger now tvl calls row s).history ≡ count_alerts id s.history)
        × (find id (trigger now tvl calls row s).thresholds ≡ find id s.thresholds)
  unfolding trigger
  trigger_other id now tvl zero (j, t) s other = (refl, refl)
  trigger_other id now tvl (suc zero) (j, t) s other = (rw other refl, refl)
  trigger_other id now tvl (suc (suc zero)) (j, t) s other =
      (rw other refl, find-update j id (marked now) s.thresholds ∙ rw other refl)
  trigger_other id now tvl (suc (suc (suc n))) (j, t) s other =
      (rw other refl, find-update j id (marked now) s.thresholds ∙ rw other refl)

  marked_own :
      (id j : String) (now : ℕ) (t : Table String (TvlAlertThreshold F))
      → (j === id) ≡ true
      → find id (update j (marked now) t) ≡ map? (marked now) (find id t)
  marked_own id j now t same =
      find-update j id (marked now) t
      ∙ rw same
          (ap (λ (i : String). map? (marked now) (find i t)) ((string_eq.same_iff j id).0 same))

  trigger_own :
      (id : String) (now : ℕ) (tvl : F) (calls : ℕ) (row : String × TvlAlertThreshold F)
      (s : AlertStore F)
      → 2 ≤ calls
      → (row.0 === id) ≡ true
      → (count_alerts id (trigger now tvl calls row s).history ≡ suc (count_alerts id s.history))
        × (find id (trigger now tvl calls row s).thresholds
            ≡ map? (marked now) (find id s.thresholds))
  unfolding trigger
  trigger_own id now tvl zero (j, t) s le same = absurd (omega arith)
  trigger_own id now tvl (suc zero) (j, t) s le same = absurd (omega arith)
  trigger_own id now tvl (suc (suc zero)) (j, t) s le same =
      (rw same refl, marked_own id j now s.thresholds same)
  trigger_own id now tvl (suc (suc (suc n))) (j, t) s le same =
      (rw same refl, marked_own id j now s.thresholds same)

  module _ (id : String) (now : ℕ) (tvl : F) (calls : String → ℕ) (enough : 2 ≤ calls id) where
    count_alerts-trigger_all :
        (rows : Table String (TvlAlertThreshold F)) (s : AlertStore F)
        → count_alerts id (trigger_all now tvl calls rows s).history
          ≡ count_alerts id s.history + count_rows id rows
    unfolding trigger_all
    count_alerts-trigger_all [] s = omega arith
    count_alerts-trigger_all ((j, t) ∷ rows) s =
        let s' = trigger now tvl (calls j) (j, t) s in
        elim (Bool-cases (j === id)) [
          | inl same ↦
              let own =
                trigger_own id now tvl (calls j) (j, t) s
                  (rw ((string_eq.same_iff j id).0 same) enough) same in
              rw same (omega (arith, count_alerts-trigger_all rows s', own.0))
          | inr other ↦
              let kept = trigger_other id now tvl (calls j) (j, t) s other in
              rw other (omega (arith, count_alerts-trigger_all rows s', kept.0))
        ]

    find-trigger_all_none :
        (rows : Table String (TvlAlertThreshold F)) (s : AlertStore F)
        → count_rows id rows ≡ 0
        → find id (trigger_all now tvl calls rows s).thresholds ≡ find id s.thresholds
    unfolding trigger_all
    find-trigger_all_none [] s none_here = refl
    find-trigger_all_none ((j, t) ∷ rows) s none_here =
        let other : (j === id) ≡ false = ground arith in
        let rest : count_rows id rows ≡ 0 = ground arith in
        find-trigger_all_none rows (trigger now tvl (calls j) (j, t) s) rest
        ∙ (trigger_other id now tvl (calls j) (j, t) s other).1

    find-trigger_all_one :
        (rows : Table String (TvlAlertThreshold F)) (s : AlertStore F)
        → count_rows id rows ≡ 1
        → find id (trigger_all now tvl calls rows s).thresholds
          ≡ map? (marked now) (find id s.thresholds)
    unfolding trigger_all
    find-trigger_all_one [] s one = absurd (omega arith)
    find-trigger_all_one ((j, t) ∷ rows) s one =
        let s' = trigger now tvl (calls j) (j, t) s in
        elim (Bool-cases (j === id)) [
          | inl same ↦
              let rest : count_rows id rows ≡ 0 = ground arith in
              find-trigger_all_none rows s' rest
              ∙ (trigger_own id now tvl (calls j) (j, t) s
                  (rw ((string_eq.same_iff j id).0 same) enough) same).1
          | inr other ↦
              let rest : count_rows id rows ≡ 1 = ground arith in
              find-trigger_all_one rows s' rest
              ∙ ap (map? (marked now)) (trigger_other id now tvl (calls j) (j, t) s other).1
        ]

  trigger-DistinctKeys :
      (now : ℕ) (tvl : F) (calls : ℕ) (row : String × TvlAlertThreshold F) (s : AlertStore F)
      → DistinctKeys s.thresholds
      → DistinctKeys (trigger now tvl calls row s).thresholds
  unfolding trigger
  trigger-DistinctKeys now tvl zero (j, t) s d = d
  trigger-DistinctKeys now tvl (suc zero) (j, t) s d = d
  trigger-DistinctKeys now tvl (suc (suc zero)) (j, t) s d =
      update-DistinctKeys j (marked now) s.thresholds d
  trigger-DistinctKeys now tvl (suc (suc (suc n))) (j, t) s d =
      update-DistinctKeys j (marked now) s.thresholds d

  pub trigger_all-DistinctKeys :
      (now : ℕ) (tvl : F) (calls : String → ℕ) (rows : Table String (TvlAlertThreshold F))
      (s : AlertStore F)
      → DistinctKeys s.thresholds
      → DistinctKeys (trigger_all now tvl calls rows s).thresholds
  unfolding trigger_all
  trigger_all-DistinctKeys now tvl calls [] s d = d
  trigger_all-DistinctKeys now tvl calls ((j, t) ∷ rows) s d =
      trigger_all-DistinctKeys now tvl calls rows (trigger now tvl (calls j) (j, t) s)
        (trigger-DistinctKeys now tvl (calls j) (j, t) s d)

module _ {F : Type 0} (less : F → F → Bool) (id : String) where
  abbrev after_check : Check F → AlertStore F → AlertStore F
  after_check c s = check_and_trigger_alerts less c.now c.pool c.tvl c.calls s

  -- The alerts of one check.
  due_rows :
      (c : Check F) (s : AlertStore F)
      → DistinctKeys s.thresholds
      → count_rows id (keep (λ row. is_due less c.now c.pool c.tvl row.1) s.thresholds)
        ≡ one_if (is_due less c.now c.pool c.tvl) (find id s.thresholds)
  due_rows c s d = count_rows-keep id (is_due less c.now c.pool c.tvl) s.thresholds d

  pub check_not_due :
      (c : Check F) (s : AlertStore F)
      → 2 ≤ c.calls id
      → DistinctKeys s.thresholds
      → one_if (is_due less c.now c.pool c.tvl) (find id s.thresholds) ≡ 0
      → (count_alerts id (after_check c s).history ≡ count_alerts id s.history)
        × (find id (after_check c s).thresholds ≡ find id s.thresholds)
  unfolding check_and_trigger_alerts
  check_not_due c s enough d off =
      let rows = keep (λ row. is_due less c.now c.pool c.tvl row.1) s.thresholds in
      let none_here = due_rows c s d ∙ off in
      (
        omega (arith, count_alerts-trigger_all id c.now c.tvl c.calls enough rows s, none_here),
        find-trigger_all_none id c.now c.tvl c.calls enough rows s none_here,
      )

  pub check_due :
      (c : Check F) (s : AlertStore F)
      → 2 ≤ c.calls id
      → DistinctKeys s.thresholds
      → one_if (is_due less c.now c.pool c.tvl) (find id s.thresholds) ≡ 1
      → (count_alerts id (after_check c s).history ≡ suc (count_alerts id s.history))
        × (find id (after_check c s).thresholds ≡ map? (marked c.now) (find id s.thresholds))
  unfolding check_and_trigger_alerts
  check_due c s enough d on =
      let rows = keep (λ row. is_due less c.now c.pool c.tvl row.1) s.thresholds in
      let one = due_rows c s d ∙ on in
      (
        omega (arith, count_alerts-trigger_all id c.now c.tvl c.calls enough rows s, one),
        find-trigger_all_one id c.now c.tvl c.calls enough rows s one,
      )
