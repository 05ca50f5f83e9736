-- ===== src/Api/Jwt/Claims.antt =====
-- What the claims of a payload grant, described without the guard's own steps.
use swyft.Prelude.{
  ℕ, ◌*◌, ◌<◌, ◌≤◌, ◌≡◌, ◌≢◌, ◌↔◌, ◌⊎◌, inl, inr, refl, subst, sym, ap, ◌∙◌, arith, Bool, true,
  false, not, ◌||◌, String, Option, none, some, List, [], ◌∷◌, keep, Bool-cases,
}
use swyft.Prelude.BigInt.{pos, negsuc}
use swyft.Prelude.Number.{int, fraction, not_finite}
use swyft.Prelude.Equality.{◌===◌, string_eq}
use swyft.Prelude.Counted.{has_key}
use swyft.Api.Jwt.{
  Claim, text, absent, other, entries, Seconds, whole, not_whole, JwtPayload, Principal, or_claim,
  wallet_text, wallet_of, non_empty_texts, normalize_list, expires_after, has_any,
  fee_collector_roles, http_allowed,
}

-- An instant in seconds, or one in milliseconds, is after `now`, in milliseconds.
abbrev pub IsFuture : ℕ → Seconds → Type 0
IsFuture now (whole (pos n)) = now < n * 1000
IsFuture now (whole (negsuc n)) = ⊥
IsFuture now (not_whole (int (pos m))) = now < m
IsFuture now (not_whole (int (negsuc m))) = ⊥
IsFuture now (not_whole (fraction (pos m))) = now ≤ m
IsFuture now (not_whole (fraction (negsuc m))) = ⊥
IsFuture now (not_whole not_finite) = Unit {0}

abbrev pub IsUnexpired : ℕ → Option Seconds → Type 0
IsUnexpired now exp = (seconds : Seconds) × (exp ≡ some seconds) × IsFuture now seconds

-- The first claim that is there is this text.
abbrev pub IsFirstText : List Claim → String → Type 0
IsFirstText [] w = ⊥
IsFirstText (c ∷ cs) w = (c ≡ text w) ⊎ ((c ≡ absent) × IsFirstText cs w)

abbrev pub IsWallet : JwtPayload → String → Type 0
IsWallet p w =
    IsFirstText (p.wallet_address ∷ p.wallet ∷ p.address ∷ p.sub ∷ []) w × ((w === "") ≡ false)

-- The texts of a claim that are not empty.
abbrev pub strings : List (Option String) → List String
strings [] = []
strings (none ∷ es) = strings es
strings (some t ∷ es) = t ∷ strings es

abbrev pub texts_of : Claim → List String
texts_of (text t) = keep (λ u. not (u === "")) (t ∷ [])
texts_of (entries es) = keep (λ u. not (u === "")) (strings es)
texts_of absent = []
texts_of other = []

-- A role of the fee collector, or no role and some scope.
abbrev pub MayAct : Principal → Type 0
MayAct p =
    ((p.roles ≡ []) × (p.scopes ≢ []))
    ⊎ ((has_key "fee-collector" p.roles ≡ true) ⊎ (has_key "admin" p.roles ≡ true))

expires_after-IsFuture :
    (now : ℕ) (s : Seconds) → (expires_after now (some s) ≡ true) ↔ IsFuture now s
expires_after-IsFuture now (whole (pos n)) = (λ h. ground arith, λ h. ground arith)
expires_after-IsFuture now (whole (negsuc n)) = (λ h. cc, λ h. absurd h)
expires_after-IsFuture now (not_whole (int (pos m))) = (λ h. ground arith, λ h. ground arith)
expires_after-IsFuture now (not_whole (int (negsuc m))) = (λ h. cc, λ h. absurd h)
expires_after-IsFuture now (not_whole (fraction (pos m))) = (λ h. ground arith, λ h. ground arith)
expires_after-IsFuture now (not_whole (fraction (negsuc m))) = (λ h. cc, λ h. absurd h)
expires_after-IsFuture now (not_whole not_finite) = (λ h. tt, λ h. refl)

some_seconds : {s t : Seconds} → ◌≡◌ {A = Option Seconds} (some s) (some t) → t ≡ s
some_seconds h = cc

pub expires_after-IsUnexpired :
    (now : ℕ) (exp : Option Seconds) → (expires_after now exp ≡ true) ↔ IsUnexpired now exp
expires_after-IsUnexpired now none = (λ h. cc, λ h. let e : none ≡ some h.0 = h.1 in cc)
expires_after-IsUnexpired now (some s) = (
  λ h. (s, refl, (expires_after-IsFuture now s).0 h),
  λ h. (expires_after-IsFuture now s).1 (subst (IsFuture now) (some_seconds h.1) h.2),
)

or_claim_assoc : (a b c : Claim) → or_claim (or_claim a b) c ≡ or_claim a (or_claim b c)
or_claim_assoc absent b c = refl
or_claim_assoc other b c = refl
or_claim_assoc (text t) b c = refl
or_claim_assoc (entries es) b c = refl

or_claim_absent : (a : Claim) → or_claim a absent ≡ a
or_claim_absent absent = refl
or_claim_absent other = refl
or_claim_absent (text t) = refl
or_claim_absent (entries es) = refl

abbrev first_claim : List Claim → Claim
first_claim [] = absent
first_claim (c ∷ cs) = or_claim c (first_claim cs)

named : (t w : String) → wallet_text (text t) ≡ some w → (t ≡ w) × ((w === "") ≡ false)
named t w h = ground (arith, string_eq.same_iff t w)

unnamed : (w : String) → (w === "") ≡ false → wallet_text (text w) ≡ some w
unnamed w h = rw (h) refl

first_claim-IsFirstText :
    (cs : List Claim) (w : String)
    → wallet_text (first_claim cs) ≡ some w
    → IsFirstText cs w × ((w === "") ≡ false)
first_claim-IsFirstText [] w h = cc
first_claim-IsFirstText (absent ∷ cs) w h =
    let rest = first_claim-IsFirstText cs w h in (inr (refl, rest.0), rest.1)
first_claim-IsFirstText (other ∷ cs) w h = cc
first_claim-IsFirstText (text t ∷ cs) w h =
    let (same, full) = named t w h in (inl (ap text same), full)
first_claim-IsFirstText (entries es ∷ cs) w h = cc

IsFirstText-first_claim :
    (cs : List Claim) (w : String)
    → IsFirstText cs w
    → (w === "") ≡ false
    → wallet_text (first_claim cs) ≡ some w
IsFirstText-first_claim [] w h full = absurd h
IsFirstText-first_claim (c ∷ cs) w (inl e) full = rw (e) (unnamed w full)
IsFirstText-first_claim (c ∷ cs) w (inr (e, rest)) full =
    rw (e) (IsFirstText-first_claim cs w rest full)

wallet_of-first_claim :
    (p : JwtPayload)
    → wallet_of p ≡ wallet_text (first_claim (p.wallet_address ∷ p.wallet ∷ p.address ∷ p.sub ∷ []))
unfolding wallet_of
wallet_of-first_claim p =
    rw
      (
        or_claim_assoc (or_claim p.wallet_address p.wallet) p.address p.sub,
        or_claim_assoc p.wallet_address p.wallet (or_claim p.address p.sub),
        or_claim_absent p.sub,
      )
      refl

pub wallet_of-IsWallet : (p : JwtPayload) (w : String) → (wallet_of p ≡ some w) ↔ IsWallet p w
wallet_of-IsWallet p w =
    let claims = p.wallet_address ∷ p.wallet ∷ p.address ∷ p.sub ∷ [] in
    (
      λ h. first_claim-IsFirstText claims w (sym (wallet_of-first_claim p) ∙ h),
      λ h. wallet_of-first_claim p ∙ IsFirstText-first_claim claims w h.0 h.1,
    )

non_empty_texts-keep :
    (es : List (Option String)) → non_empty_texts es ≡ keep (λ u. not (u === "")) (strings es)
non_empty_texts-keep [] = refl
non_empty_texts-keep (none ∷ es) = non_empty_texts-keep es
non_empty_texts-keep (some t ∷ es) =
    rw (non_empty_texts-keep es)
      (elim (Bool-cases (t === "")) [ inl empty ↦ rw (empty) refl | inr full ↦ rw (full) refl ])

pub normalize_list-texts_of : (c : Claim) → normalize_list c ≡ texts_of c
unfolding normalize_list
normalize_list-texts_of absent = refl
normalize_list-texts_of other = refl
normalize_list-texts_of (text t) = non_empty_texts-keep (some t ∷ [])
normalize_list-texts_of (entries es) = non_empty_texts-keep es

has_any-has_key :
    (roles : List String)
    → has_any fee_collector_roles roles ≡ (has_key "fee-collector" roles || has_key "admin" roles)
has_any-has_key [] = refl
has_any-has_key (r ∷ roles) =
    let ih = has_any-has_key roles in
    ground (
      arith,
      ih,
      string_eq.same_iff "fee-collector" r,
      string_eq.same_iff "admin" r,
      string_eq.same_iff r "fee-collector",
      string_eq.same_iff r "admin",
    )

either : (a b : Bool) → ((a || b) ≡ true) ↔ ((a ≡ true) ⊎ (b ≡ true))
either true b = (λ h. inl refl, λ h. refl)
either false b = (λ h. inr h, λ h. elim h [ inl e ↦ cc | inr e ↦ e ])

acts :
    (wallet : String) (roles scopes : List String)
    → let p : Principal = record { wallet_address = wallet; roles = roles; scopes = scopes } in
      (http_allowed p ≡ true) ↔ MayAct p
acts wallet [] [] = (
  λ h. cc,
  λ h. elim h [
    | inl (e, some_scope) ↦ absurd (some_scope refl)
    | inr (inl e) ↦ cc
    | inr (inr e) ↦ cc
  ],
)
acts wallet [] (s ∷ scopes) = (λ h. inl (refl, λ e. cc), λ h. refl)
acts wallet (r ∷ roles) scopes =
    let same = has_any-has_key (r ∷ roles) in
    let both = either (has_key "fee-collector" (r ∷ roles)) (has_key "admin" (r ∷ roles)) in
    (
      λ h. inr (both.0 (sym same ∙ h)),
      λ h. same ∙ both.1 (elim h [ inl (e, some_scope) ↦ cc | inr role ↦ role ]),
    )

pub http_allowed-MayAct : (p : Principal) → (http_allowed p ≡ true) ↔ MayAct p
http_allowed-MayAct p = acts p.wallet_address p.roles p.scopes
