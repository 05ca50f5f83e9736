-- ===== src/Api/Jwt/Granted.antt =====
-- When jwt-auth.guard.ts lets a request through.
use swyft.Prelude.{
  ℕ, ◌≡◌, ◌≢◌, ◌⊎◌, inl, inr, List, ◌↔◌, refl, sym, ap, ◌∙◌, Bool, true, false, String, Option,
  none, some, Result, ok, >>=-then, ◌>>=◌,
}
use swyft.Prelude.Equality.{string_eq}
use swyft.Api.Jwt.Claims.{
  IsUnexpired, IsWallet, texts_of, MayAct, expires_after-IsUnexpired, wallet_of-IsWallet,
  normalize_list-texts_of, http_allowed-MayAct,
}
use swyft.Api.KeyRing.{non_empty}
use swyft.Api.Jwt.{
  AuthErrorCode, JwtPayload, Principal, JwtEnv, Verify, strip_prefix, or_error, require,
  principal_of, expires_after, wallet_of, normalize_list, or_claim, Claim, text, other, entries,
  absent, authenticate, http_allowed, can_activate, missing_token, missing_header, invalid_token,
  not_configured, missing_wallet, forbidden,
}

or_error-ok :
    {A : Type 0} (code : AuthErrorCode) (o : Option A) {a : A} → or_error code o ≡ ok a → o ≡ some a
or_error-ok code none h = cc
or_error-ok code (some b) h = cc

require-ok : (code : AuthErrorCode) (b : Bool) → require code b ≡ ok tt → b ≡ true
require-ok code true h = refl
require-ok code false h = cc

pub checked :
    (b : Bool) (q : Principal) {p : Principal}
    → (require forbidden b >>= λ _. ok q) ≡ ok p
    → b ≡ true
checked true q h = refl
checked false q h = cc

pub checked_same :
    (b : Bool) (q : Principal) {p : Principal} → (require forbidden b >>= λ _. ok q) ≡ ok p → q ≡ p
checked_same true q h = cc
checked_same false q h = cc

pub ok_same : {q p : Principal} → ◌≡◌ {A = Result AuthErrorCode Principal} (ok q) (ok p) → q ≡ p
ok_same h = cc

principal_of_sound :
    (now : ℕ) (payload : JwtPayload) (p : Principal)
    → principal_of now payload ≡ ok p
    → (expires_after now payload.exp ≡ true)
      × (wallet_of payload ≡ some p.wallet_address)
      × (p.roles ≡ normalize_list (or_claim payload.roles payload.role))
      × (p.scopes ≡ normalize_list payload.scope)
unfolding principal_of
principal_of_sound now payload p h =
    >>=-then (require invalid_token (expires_after now payload.exp))
      (λ _ e1 h1.
        >>=-then (or_error missing_wallet (wallet_of payload))
          (λ wallet e2 h2.
            let same = ok_same h2 in
            (
              require-ok invalid_token (expires_after now payload.exp) e1,
              or_error-ok missing_wallet (wallet_of payload) e2
                  ∙ ap (λ (q : Principal). some q.wallet_address) same,
              sym (ap (λ (q : Principal). q.roles) same),
              sym (ap (λ (q : Principal). q.scopes) same),
            ))
          h1)
      h

authenticate_sound :
    (verify : Verify) (env : JwtEnv) (now : ℕ) (token : String) (p : Principal)
    → authenticate verify env now token ≡ ok p
    → (secret : String) × (payload : JwtPayload) × (non_empty env.secret ≡ some secret)
      × (verify token secret (non_empty env.issuer) (non_empty env.audience) ≡ some payload)
      × (expires_after now payload.exp ≡ true)
      × (wallet_of payload ≡ some p.wallet_address)
      × (p.roles ≡ normalize_list (or_claim payload.roles payload.role))
      × (p.scopes ≡ normalize_list payload.scope)
unfolding authenticate
authenticate_sound verify env now token p h =
    >>=-then (or_error not_configured (non_empty env.secret))
      (λ secret e1 h1.
        let answer = verify token secret (non_empty env.issuer) (non_empty env.audience) in
        >>=-then (or_error invalid_token answer)
          (λ payload e2 h2.
            let (e3, e4, e5, e6) = principal_of_sound now payload p h2 in
            (
              secret,
              payload,
              or_error-ok not_configured (non_empty env.secret) e1,
              or_error-ok invalid_token answer e2,
              e3,
              e4,
              e5,
              e6,
            ))
          h1)
      h

there_texts :
    (roles role : Claim) (ts : List String)
    → roles ≢ absent
    → or_claim roles role ≡ roles
    → (ts ≡ normalize_list (or_claim roles role))
      ↔ (((roles ≢ absent) × (ts ≡ texts_of roles)) ⊎ ((roles ≡ absent) × (ts ≡ texts_of role)))
there_texts roles role ts there taken =
    let same : normalize_list (or_claim roles role) ≡ texts_of roles =
      ap normalize_list taken ∙ normalize_list-texts_of roles in
    (
      λ h. inl (there, h ∙ same),
      λ h. elim h [ inl (_, e) ↦ e ∙ sym same | inr (missing, e) ↦ absurd (there missing) ],
    )

-- `roles`, or `role` where there is none.
roles_texts :
    (roles role : Claim) (ts : List String)
    → (ts ≡ normalize_list (or_claim roles role))
      ↔ (((roles ≢ absent) × (ts ≡ texts_of roles)) ⊎ ((roles ≡ absent) × (ts ≡ texts_of role)))
roles_texts absent role ts = (
  λ h. inr (refl, h ∙ normalize_list-texts_of role),
  λ h. elim h [
    | inl (there, e) ↦ absurd (there refl)
    | inr (none_there, e) ↦ e ∙ sym (normalize_list-texts_of role)
  ],
)
roles_texts other role ts = there_texts other role ts (λ e. cc) refl
roles_texts (text t) role ts = there_texts (text t) role ts (λ e. cc) refl
roles_texts (entries es) role ts = there_texts (entries es) role ts (λ e. cc) refl

-- The header, the secret and the payload behind a principal.
pub record Grant (verify : Verify) (trim : String → String) (env : JwtEnv) (now : ℕ)
    (header : String) (p : Principal) : Type 0 where
  pub rest : String
  pub token : String
  pub secret : String
  pub payload : JwtPayload
  pub is_bearer : strip_prefix "Bearer " header ≡ some rest
  pub has_token : non_empty (some (trim rest)) ≡ some token
  pub configured : non_empty env.secret ≡ some secret
  pub verified : verify token secret (non_empty env.issuer) (non_empty env.audience) ≡ some payload
  pub unexpired : IsUnexpired now payload.exp
  pub wallet : IsWallet payload p.wallet_address
  pub roles :
      ((payload.roles ≢ absent) × (p.roles ≡ texts_of payload.roles))
      ⊎ ((payload.roles ≡ absent) × (p.roles ≡ texts_of payload.role))
  pub scopes : p.scopes ≡ texts_of payload.scope
  pub allowed : MayAct p

module _ (verify : Verify) (trim : String → String) (env : JwtEnv) (now : ℕ) (header : String)
    (p : Principal) where
  can_activate_sound :
      can_activate verify trim env now (some header) ≡ ok p → Grant verify trim env now header p
  unfolding can_activate authenticate principal_of
  can_activate_sound h =
      >>=-then (or_error missing_header (strip_prefix "Bearer " header))
        (λ rest e1 h1.
          >>=-then (or_error missing_token (non_empty (some (trim rest))))
            (λ token e2 h2.
              >>=-then (authenticate verify env now token)
                (λ q e3 h3.
                  let same : q ≡ p = checked_same (http_allowed q) q h3 in
                  let allowed : http_allowed q ≡ true = checked (http_allowed q) q h3 in
                  let (secret, payload, e4, e5, e6, e7, e8, e9) =
                    authenticate_sound verify env now token p (e3 ∙ ap ok same) in
                  record {
                    rest = rest;
                    token = token;
                    secret = secret;
                    payload = payload;
                    is_bearer = or_error-ok missing_header (strip_prefix "Bearer " header) e1;
                    has_token = or_error-ok missing_token (non_empty (some (trim rest))) e2;
                    configured = e4;
                    verified = e5;
                    unexpired = (expires_after-IsUnexpired now payload.exp).0 e6;
                    wallet = (wallet_of-IsWallet payload p.wallet_address).0 e7;
                    roles = (roles_texts payload.roles payload.role p.roles).0 e8;
                    scopes = e9 ∙ normalize_list-texts_of payload.scope;
                    allowed = (http_allowed-MayAct p).0 (rw (← same) allowed);
                  })
                h2)
            h1)
        h

  can_activate_complete :
      Grant verify trim env now header p → can_activate verify trim env now (some header) ≡ ok p
  unfolding can_activate authenticate principal_of
  can_activate_complete g =
      let payload = g.payload in
      let unexpired = (expires_after-IsUnexpired now payload.exp).1 g.unexpired in
      let wallet = (wallet_of-IsWallet payload p.wallet_address).1 g.wallet in
      let roles = (roles_texts payload.roles payload.role p.roles).1 g.roles in
      let scopes = g.scopes ∙ sym (normalize_list-texts_of payload.scope) in
      let allowed = (http_allowed-MayAct p).1 g.allowed in
      rw (g.is_bearer, g.has_token, g.configured, g.verified, unexpired, wallet)
        (rw (← roles, ← scopes, allowed) refl)

  -- The guard lets a request through as a principal exactly when its header is a bearer token, the
  -- secret is configured, the token verifies with the secret, issuer and audience, its expiry is a
  -- number of seconds in the future, the first of the claims walletAddress, wallet, address and sub
  -- that is there is the principal's non-empty text, the principal's roles are the non-empty texts of
  -- the claim roles, or of role where that is missing, its scopes those of scope, and either there is
  -- the role fee-collector or admin, or there is no role and some scope.
  pub can_activate-Grant :
      (can_activate verify trim env now (some header) ≡ ok p) ↔ Grant verify trim env now header p
  can_activate-Grant = (can_activate_sound, can_activate_complete)
