-- ===== src/Api/PriceStream/Mirrored.antt =====
-- The two maps of price.service.ts under its operations.
use swyft.Prelude.{
  ℕ, ◌≡◌, refl, sym, ap, ◌∙◌, arith, Bool, true, false, ◌&&◌, String, Option, none, some, List, [],
  ◌∷◌, if◌then◌else◌, inl, inr, Bool-cases,
}
use swyft.Prelude.Equality.{◌===◌, string_eq, number_eq, Eq}
use swyft.Prelude.Counted.{has_key, delete_key, has_key-delete_key}
use swyft.Prelude.Table.{
  Table, find, upsert, update, changed, map?, find-upsert, find-update, find-remove,
}
use swyft.Api.PriceStream.Subscriptions.{
  Subscriptions, add_key, or_nil, subscribe, dropped, dropped_from, unsubscribe,
}

abbrev pub clients_of : String → Subscriptions → List ℕ
clients_of pool s = or_nil (find pool s.subscriptions)

abbrev pub pools_of : ℕ → Subscriptions → List String
pools_of client s = or_nil (find client s.client_pools)

-- A client is among those of a pool exactly if the pool is among those of the client.
abbrev pub IsMirrored : Subscriptions → Type 0
IsMirrored s =
    (client : ℕ) (pool : String)
    → has_key client (clients_of pool s) ≡ has_key pool (pools_of client s)

module _ {ℓ} {K : Type ℓ} ⦃eq : Eq K⦄ where
  has_key-add_key :
      (key k : K) (keys : List K)
      → has_key key (add_key k keys) ≡ (if k === key then true else has_key key keys)
  has_key-add_key key k keys = elim (Bool-cases (has_key k keys)) [
    | inl there ↦ elim (Bool-cases (k === key)) [
      | inl same ↦
          rw (there, same)
            (ap (λ (j : K). has_key j keys) (sym ((eq.same_iff k key).0 same)) ∙ there)
      | inr other ↦ rw (there, other) refl
    ]
    | inr missing ↦ elim (Bool-cases (k === key)) [
      | inl same ↦ rw (missing, same) refl
      | inr other ↦ rw (missing, other) refl
    ]
  ]

  has_key-changed :
      (key k : K) (o : Option (List K))
      → has_key key (changed (add_key k) (k ∷ []) o)
        ≡ (if k === key then true else has_key key (or_nil o))
  has_key-changed key k none = ground arith
  has_key-changed key k (some keys) = has_key-add_key key k keys

deleted_at {κ} :
    {V : Type κ} ⦃veq : Eq V⦄ (v w : V) (o : Option (List V))
    → has_key w (or_nil (map? (delete_key v) o)) ≡ (if v === w then false else has_key w (or_nil o))
deleted_at v w none = ground arith
deleted_at v w (some vs) = has_key-delete_key w v vs

-- Membership after an upsert of one entry.
module _ {ℓ κ} {K : Type ℓ} ⦃eq : Eq K⦄ {V : Type κ} ⦃veq : Eq V⦄ where
  has_key-upsert :
      (k j : K) (v w : V) (t : Table K (List V))
      → has_key w (or_nil (find j (upsert k (add_key v) (v ∷ []) t)))
        ≡ (if k === j && v === w then true else has_key w (or_nil (find j t)))
  has_key-upsert k j v w t = elim (Bool-cases (k === j)) [
    | inl same ↦
        ap (λ (o : Option (List V)). has_key w (or_nil o)) (find-upsert k j (add_key v) (v ∷ []) t)
        ∙ rw same (rw ((eq.same_iff k j).0 same) (has_key-changed w v (find j t)))
    | inr other ↦
        ap (λ (o : Option (List V)). has_key w (or_nil o)) (find-upsert k j (add_key v) (v ∷ []) t)
        ∙ rw other refl
  ]

  has_key-update :
      (k j : K) (v w : V) (t : Table K (List V))
      → has_key w (or_nil (find j (update k (delete_key v) t)))
        ≡ (if k === j && v === w then false else has_key w (or_nil (find j t)))
  has_key-update k j v w t = elim (Bool-cases (k === j)) [
    | inl same ↦
        ap (λ (o : Option (List V)). has_key w (or_nil o)) (find-update k j (delete_key v) t)
        ∙ rw same (rw ((eq.same_iff k j).0 same) (deleted_at v w (find j t)))
    | inr other ↦
        ap (λ (o : Option (List V)). has_key w (or_nil o)) (find-update k j (delete_key v) t)
        ∙ rw other refl
  ]

clients-dropped :
    (client c : ℕ) (pool p : String) (s : Subscriptions) (clients rest : List ℕ)
    → find pool s.subscriptions ≡ some clients
    → delete_key client clients ≡ rest
    → has_key c (clients_of p (dropped client pool s rest))
      ≡ (if pool === p && client === c then false else has_key c (clients_of p s))
clients-dropped client c pool p s clients [] there left = elim (Bool-cases (pool === p)) [
  | inl same ↦
      let found : find p s.subscriptions ≡ some clients =
        ap (λ (k : String). find k s.subscriptions) (sym ((string_eq.same_iff pool p).0 same))
        ∙ there in
      ap (λ (o : Option (List ℕ)). has_key c (or_nil o)) (find-remove pool p s.subscriptions)
      ∙ rw (same, found) (ap (has_key c) (sym left) ∙ has_key-delete_key c client clients)
  | inr other ↦
      ap (λ (o : Option (List ℕ)). has_key c (or_nil o)) (find-remove pool p s.subscriptions)
      ∙ rw other refl
]
clients-dropped client c pool p s clients (x ∷ xs) there left = elim (Bool-cases (pool === p)) [
  | inl same ↦
      let found : find p s.subscriptions ≡ some clients =
        ap (λ (k : String). find k s.subscriptions) (sym ((string_eq.same_iff pool p).0 same))
        ∙ there in
      ap (λ (o : Option (List ℕ)). has_key c (or_nil o))
        (find-update pool p (λ _. x ∷ xs) s.subscriptions)
      ∙ rw (same, there, found) (ap (has_key c) (sym left) ∙ has_key-delete_key c client clients)
  | inr other ↦
      ap (λ (o : Option (List ℕ)). has_key c (or_nil o))
        (find-update pool p (λ _. x ∷ xs) s.subscriptions)
      ∙ rw other refl
]

clients-dropped_from :
    (client c : ℕ) (pool p : String) (s : Subscriptions) (o : Option (List ℕ))
    → find pool s.subscriptions ≡ o
    → has_key c (clients_of p (dropped_from client pool s o))
      ≡ (if pool === p && client === c then false else has_key c (clients_of p s))
clients-dropped_from client c pool p s none there = elim (Bool-cases (pool === p)) [
  | inl same ↦
      let found : find p s.subscriptions ≡ none =
        ap (λ (k : String). find k s.subscriptions) (sym ((string_eq.same_iff pool p).0 same))
        ∙ there in
      rw (same, found) (ground arith)
  | inr other ↦ rw other refl
]
clients-dropped_from client c pool p s (some clients) there =
    clients-dropped client c pool p s clients (delete_key client clients) there refl

clients-unsubscribe :
    (client c : ℕ) (pool p : String) (s : Subscriptions)
    → has_key c (clients_of p (unsubscribe client pool s))
      ≡ (if pool === p && client === c then false else has_key c (clients_of p s))
unfolding unsubscribe
clients-unsubscribe client c pool p s =
    clients-dropped_from client c pool p s (find pool s.subscriptions) refl

pub pools-unsubscribe :
    (client c : ℕ) (pool p : String) (s : Subscriptions)
    → has_key p (pools_of c (unsubscribe client pool s))
      ≡ (if client === c && pool === p then false else has_key p (pools_of c s))
unfolding unsubscribe
pools-unsubscribe client c pool p s = has_key-update client c pool p s.client_pools

swapped : (a b v x y : Bool) → x ≡ y → (if a && b then v else x) ≡ (if b && a then v else y)
swapped a b v x y h = ground arith

pub subscribe-IsMirrored :
    (client : ℕ) (pool : String) (s : Subscriptions)
    → IsMirrored s
    → IsMirrored (subscribe client pool s)
unfolding subscribe
subscribe-IsMirrored client pool s h c p =
    has_key-upsert pool p client c s.subscriptions
    ∙ swapped (pool === p) (client === c) true (has_key c (clients_of p s))
        (has_key p (pools_of c s)) (h c p)
    ∙ sym (has_key-upsert client c pool p s.client_pools)

pub unsubscribe-IsMirrored :
    (client : ℕ) (pool : String) (s : Subscriptions)
    → IsMirrored s
    → IsMirrored (unsubscribe client pool s)
unsubscribe-IsMirrored client pool s h c p =
    clients-unsubscribe client c pool p s
    ∙ swapped (pool === p) (client === c) false (has_key c (clients_of p s))
        (has_key p (pools_of c s)) (h c p)
    ∙ sym (pools-unsubscribe client c pool p s)
