-- ===== src/Api/Indexer/Replays/Once.antt =====
-- A request with the same key is run once.
use swyft.Prelude.{
  ℕ, suc, ◌+◌, ◌≤◌, ◌<◌, ◌≡◌, ◌≢◌, ◌∙◌, Result, refl, ap, All, Bool, true, false, String, Option,
  none, some, List, [], ◌∷◌, keep, length, leb, leb→le, if◌then◌else◌, Bool-cases, inl, inr, arith,
  err, ok,
}
use swyft.Prelude.Equality.{◌===◌, string_eq, pair_eq, ===_refl}
use swyft.Prelude.Table.{find, upsert, find-upsert, find-remove, changed_const}
use swyft.Api.Indexer.Replays.{
  DeadLetterReplaySummary, ReplayError, Completed, remember_dlq_replay, result_max, result_ttl_ms,
  fresh, drop_oldest, with_room, running, remembered, ReplayService, answered, runs, decide,
  begin_replay, finish_replay,
}

length-keep {ℓ} : {A : Type ℓ} (p : A → Bool) (xs : List A) → length (keep p xs) ≤ length xs
length-keep p [] = omega arith
length-keep p (x ∷ xs) = ground (arith, length-keep p xs)

length-upsert :
    (key : String × String) (f : ℕ × DeadLetterReplaySummary → ℕ × DeadLetterReplaySummary)
    (c : ℕ × DeadLetterReplaySummary) (t : Completed)
    → length (upsert key f c t) ≤ suc (length t)
unfolding upsert
length-upsert key f c [] = omega arith
length-upsert key f c ((k, v) ∷ t) = ground (arith, length-upsert key f c t)

length-drop_oldest :
    (t : Completed) → result_max ≤ length t → suc (length (drop_oldest t)) ≤ length t
length-drop_oldest [] full = omega arith
length-drop_oldest (c ∷ t) full = omega arith

length-with_room :
    (kept : Completed) → length kept ≤ result_max → suc (length (with_room kept)) ≤ result_max
length-with_room kept small = elim (Bool-cases (leb result_max (length kept))) [
  | inl full ↦
      rw (full) (omega (arith, length-drop_oldest kept (leb→le result_max (length kept) full)))
  | inr room ↦ rw (room) (ground (arith, room))
]

-- The service remembers 1000 results at most, whatever it is asked to remember.
pub length-remember_dlq_replay :
    (key : String × String) (summary : DeadLetterReplaySummary) (now : ℕ) (completed : Completed)
    → length completed ≤ result_max
    → length (remember_dlq_replay key summary now completed) ≤ result_max
unfolding remember_dlq_replay
length-remember_dlq_replay key summary now completed small =
    let kept =
      keep (λ (c : (String × String) × (ℕ × DeadLetterReplaySummary)). fresh now c.1.0) completed in
    omega (
      arith,
      length-upsert key (λ _. (now, summary)) (now, summary) (with_room kept),
      length-with_room kept (
          omega (
            arith,
            length-keep (λ (c : (String × String) × (ℕ × DeadLetterReplaySummary)). fresh now c.1.0)
                completed,
          )),
    )

-- The entries behind that of a key, in the order of insertion.
abbrev younger : String × String → Completed → ℕ
younger key [] = 0
younger key ((k, v) ∷ t) = let rest = younger key t in if k === key then length t else rest

-- A key is remembered with its summary, in front of `n` entries at most.
abbrev IsRemembered : String × String → ℕ × DeadLetterReplaySummary → ℕ → Completed → Type 0
IsRemembered key v n t = (find key t ≡ some v) × (younger key t ≤ n)

find-keep-none :
    (key : String × String) (p : (String × String) × (ℕ × DeadLetterReplaySummary) → Bool)
    (t : Completed)
    → find key t ≡ none
    → find key (keep p t) ≡ none
unfolding find
find-keep-none key p [] h = refl
find-keep-none key p ((k, v) ∷ t) h = let ih = find-keep-none key p t in ground (arith, ih)

find-drop_oldest-none :
    (key : String × String) (t : Completed) → find key t ≡ none → find key (drop_oldest t) ≡ none
unfolding find
find-drop_oldest-none key [] h = refl
find-drop_oldest-none key ((k, v) ∷ t) h = ground arith

module _ (key k : String × String) (v w : ℕ × DeadLetterReplaySummary) (n : ℕ) (t : Completed) where
  at_head : (k === key) ≡ true → IsRemembered key v n ((k, w) ∷ t) → (w ≡ v) × (length t ≤ n)
  unfolding find
  at_head same h = ground arith

  in_tail : (k === key) ≡ false → IsRemembered key v n ((k, w) ∷ t) → IsRemembered key v n t
  unfolding find
  in_tail other h = ground arith

  to_head : (k === key) ≡ true → w ≡ v → length t ≤ n → IsRemembered key v n ((k, w) ∷ t)
  unfolding find
  to_head same e few = rw (same) (ap some e, few)

  to_tail : (k === key) ≡ false → IsRemembered key v n t → IsRemembered key v n ((k, w) ∷ t)
  unfolding find
  to_tail other h = rw (other) h

none_behind :
    (key k : String × String) (w : ℕ × DeadLetterReplaySummary) (t : Completed)
    → find key ((k, w) ∷ t) ≡ none
    → ((k === key) ≡ false) × (find key t ≡ none)
unfolding find
none_behind key k w t h = ground arith

new-IsRemembered :
    (key : String × String) (v : ℕ × DeadLetterReplaySummary) (t : Completed)
    → find key t ≡ none
    → IsRemembered key v 0 (upsert key (λ _. v) v t)
unfolding find upsert
new-IsRemembered key v [] h = rw (===_refl key) (refl, omega arith)
new-IsRemembered key v ((k, w) ∷ t) h =
    let (other, absent) = none_behind key k w t h in
    rw (other)
      (to_tail key k v w 0 (upsert key (λ _. v) v t) other (new-IsRemembered key v t absent))

keep-IsRemembered :
    (key : String × String) (v : ℕ × DeadLetterReplaySummary) (n : ℕ)
    (p : (String × String) × (ℕ × DeadLetterReplaySummary) → Bool) (t : Completed)
    → ((k : String × String) → p (k, v) ≡ true)
    → IsRemembered key v n t
    → IsRemembered key v n (keep p t)
unfolding find
keep-IsRemembered key v n p [] fits h = h
keep-IsRemembered key v n p ((k, w) ∷ t) fits h = elim (Bool-cases (k === key)) [
  | inl same ↦
      let (e, few) = at_head key k v w n t same h in
      let stays : p (k, w) ≡ true = ap (λ u. p (k, u)) e ∙ fits k in
      let fewer = length-keep p t in
      rw (stays) (to_head key k v w n (keep p t) same e (omega arith))
  | inr other ↦
      let ih = keep-IsRemembered key v n p t fits (in_tail key k v w n t other h) in
      elim (Bool-cases (p (k, w))) [
        | inl stays ↦ rw (stays) (to_tail key k v w n (keep p t) other ih)
        | inr goes ↦ rw (goes) ih
      ]
]

full_behind : (n m : ℕ) → suc n < suc m → m ≤ n → ⊥
full_behind n m more few = omega arith

apart_of :
    (key other k : String × String)
    → (other === key) ≡ false
    → (k === key) ≡ true
    → (k === other) ≡ false
apart_of key other k differs same =
    ground (arith, pair_eq.same_iff k key, pair_eq.same_iff k other, pair_eq.same_iff other key)

drop_oldest-IsRemembered :
    (key : String × String) (v : ℕ × DeadLetterReplaySummary) (n : ℕ) (t : Completed)
    → suc n < length t
    → IsRemembered key v n t
    → IsRemembered key v n (drop_oldest t)
unfolding find
drop_oldest-IsRemembered key v n [] more h = h
drop_oldest-IsRemembered key v n ((k, w) ∷ t) more h = elim (Bool-cases (k === key)) [
  | inl same ↦
      let (e, few) = at_head key k v w n t same h in absurd (full_behind n (length t) more few)
  | inr other ↦ in_tail key k v w n t other h
]

upsert-IsRemembered :
    (key other : String × String) (v w : ℕ × DeadLetterReplaySummary) (n : ℕ) (t : Completed)
    → (other === key) ≡ false
    → IsRemembered key v n t
    → IsRemembered key v (suc n) (upsert other (λ _. w) w t)
unfolding find upsert
upsert-IsRemembered key other v w n [] differs h = cc
upsert-IsRemembered key other v w n ((k, u) ∷ t) differs h = elim (Bool-cases (k === key)) [
  | inl same ↦
      let (e, few) = at_head key k v u n t same h in
      let apart : (k === other) ≡ false = apart_of key other k differs same in
      let more = length-upsert other (λ _. w) w t in
      rw (apart) (to_head key k v u (suc n) (upsert other (λ _. w) w t) same e (omega arith))
  | inr away ↦
      let (there, few) = in_tail key k v u n t away h in
      elim (Bool-cases (k === other)) [
        | inl here ↦ rw (here) (to_tail key k v w (suc n) t away (there, omega arith))
        | inr not_here ↦ rw (not_here) (
            to_tail key k v u (suc n) (upsert other (λ _. w) w t) away
              (upsert-IsRemembered key other v w n t differs (there, few)))
      ]
]

with_room-IsRemembered :
    (key : String × String) (v : ℕ × DeadLetterReplaySummary) (n : ℕ) (kept : Completed)
    → suc n < result_max
    → IsRemembered key v n kept
    → IsRemembered key v n (with_room kept)
with_room-IsRemembered key v n kept few h = elim (Bool-cases (leb result_max (length kept))) [
  | inl full ↦
      let long = leb→le result_max (length kept) full in
      rw (full) (drop_oldest-IsRemembered key v n kept (omega arith) h)
  | inr room ↦ rw (room) h
]

with_room-none :
    (key : String × String) (kept : Completed)
    → find key kept ≡ none
    → find key (with_room kept) ≡ none
with_room-none key kept h = elim (Bool-cases (leb result_max (length kept))) [
  | inl full ↦ rw (full) (find-drop_oldest-none key kept h)
  | inr room ↦ rw (room) h
]

-- A replay that ended: its key, when it was asked for, and how it ended.
abbrev pub Ended : Type 0
Ended = (String × String) × (ℕ × Result ReplayError DeadLetterReplaySummary)

abbrev pub run_finishes : List Ended → ReplayService → ReplayService
run_finishes [] s = s
run_finishes ((key, (asked, result)) ∷ others) s =
    run_finishes others (finish_replay key asked result s)

-- A replay for another key, asked for by `now`.
abbrev pub IsOther : String × String → ℕ → Ended → Type 0
IsOther key now o = ((o.0 === key) ≡ false) × (o.1.0 ≤ now)

module _ (key : String × String) (asked now : ℕ) (summary : DeadLetterReplaySummary)
    (soon : now < asked + result_ttl_ms) where
  finish_replay-IsRemembered :
      (n : ℕ) (o : Ended) (s : ReplayService)
      → IsOther key now o
      → suc n < result_max
      → IsRemembered key (asked, summary) n s.completed
      → IsRemembered key (asked, summary) (suc n) (finish_replay o.0 o.1.0 o.1.1 s).completed
  unfolding finish_replay remember_dlq_replay
  finish_replay-IsRemembered n (other, (at, err e)) s (differs, by) few h =
      (h.0, omega (arith, h.1))
  finish_replay-IsRemembered n (other, (at, ok result)) s (differs, by) few h =
      elim (Bool-cases (other.1 === "")) [
        | inl unkeyed ↦ rw (unkeyed) (h.0, omega (arith, h.1))
        | inr keyed ↦
            let p : (String × String) × (ℕ × DeadLetterReplaySummary) → Bool =
              λ c. fresh at c.1.0 in
            let in_time : fresh at asked ≡ true = ground arith in
            let kept = keep-IsRemembered key (asked, summary) n p s.completed (λ k. in_time) h in
            rw (keyed) (
              upsert-IsRemembered key other (asked, summary) (at, result) n
                (with_room (keep p s.completed)) differs
                (with_room-IsRemembered key (asked, summary) n (keep p s.completed) few kept))
      ]

  run_finishes-answered :
      (n : ℕ) (others : List Ended) (s : ReplayService)
      → (key.1 === "") ≡ false
      → All (IsOther key now) others
      → n + length others < result_max
      → IsRemembered key (asked, summary) n s.completed
      → decide key now (run_finishes others s) ≡ answered summary
  unfolding decide
  run_finishes-answered n [] s explicit all few h =
      let in_time : fresh now asked ≡ true = ground arith in rw (explicit, h.0, in_time) refl
  run_finishes-answered n (o ∷ others) s explicit (other, all) few h =
      run_finishes-answered (suc n) others (finish_replay o.0 o.1.0 o.1.1 s) explicit all
        (omega (arith, few)) (finish_replay-IsRemembered n o s other (omega (arith, few)) h)

-- A replay for an explicit key that was not remembered and ended well, then fewer than 1000 other
-- replays that end, for other keys: a request with this key within ten minutes of the first one
-- gets the same summary, and nothing runs.
pub decide-answered :
    (key : String × String) (asked now : ℕ) (summary : DeadLetterReplaySummary)
    (others : List Ended) (s : ReplayService)
    → now < asked + result_ttl_ms
    → (key.1 === "") ≡ false
    → find key s.completed ≡ none
    → All (IsOther key now) others
    → length others < result_max
    → decide key now (run_finishes others (finish_replay key asked (ok summary) s))
      ≡ answered summary
unfolding finish_replay remember_dlq_replay
decide-answered key asked now summary others s soon explicit absent all few =
    let p : (String × String) × (ℕ × DeadLetterReplaySummary) → Bool = λ c. fresh asked c.1.0 in
    run_finishes-answered key asked now summary soon 0 others
      (finish_replay key asked (ok summary) s) explicit all (omega arith)
      (rw (explicit) (
        new-IsRemembered key (asked, summary) (with_room (keep p s.completed))
          (with_room-none key (keep p s.completed) (find-keep-none key p s.completed absent))))

waiting :
    (now : ℕ) (b : Bool) (c : Option (ℕ × DeadLetterReplaySummary)) (o : Option ℕ)
    → o ≢ none
    → (if b then running o else remembered now c (running o)) ≢ runs
waiting now b c none there = ground arith
waiting now true c (some n) there = ground arith
waiting now false none (some n) there = ground arith
waiting now false (some (at, summary)) (some n) there = ground arith

started :
    (key : String × String) (asked : ℕ) (s : ReplayService)
    → find key (begin_replay key asked s).in_flight ≡ some asked
unfolding begin_replay
started key asked s = rw (find-upsert key key, ===_refl key, changed_const asked)

-- While a replay for a key runs, another request with this key never runs: it waits, or gets an old
-- summary. After a replay that failed, with no summary remembered for the key, it runs again.
pub decide-in_flight :
    (key : String × String) (asked now : ℕ) (s : ReplayService)
    → (decide key now (begin_replay key asked s) ≢ runs)
      × ((e : ReplayError)
          → find key s.completed ≡ none
          → decide key now (finish_replay key asked (err e) s) ≡ runs)
unfolding decide begin_replay finish_replay
decide-in_flight key asked now s = (
  waiting now (key.1 === "") (find key s.completed) (find key (begin_replay key asked s).in_flight)
      (rw (started key asked s) (ground arith)),
  λ e absent. rw (absent, find-remove key key s.in_flight, ===_refl key) (ground arith),
)
