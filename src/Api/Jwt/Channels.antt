-- ===== src/Api/Jwt/Channels.antt =====
-- The two guards of jwt-auth.guard.ts, for requests and for WebSocket channels, on the same token.
use swyft.Prelude.{
  ℕ, ◌≡◌, ◌↔◌, refl, sym, ap, ◌∙◌, Bool, true, false, String, some, List, [], ◌∷◌, Result, ok, err,
  arith, ◌>>=◌, ◌>>◌,
}
use swyft.Prelude.Equality.{string_eq}
use swyft.Api.KeyRing.{non_empty}
use swyft.Api.Jwt.{
  AuthErrorCode, Principal, JwtEnv, Verify, strip_prefix, authenticate, http_allowed, can_activate,
  authorize_web_socket, has_any, is_empty, fee_collector_roles, websocket_privileged_roles,
  forbidden, require,
}
use swyft.Api.Jwt.Granted.{checked, checked_same, ok_same}

-- Whoever may enter a larger list of roles.
has_any-websocket :
    (roles : List String)
    → has_any fee_collector_roles roles ≡ true
    → has_any websocket_privileged_roles roles ≡ true
has_any-websocket [] h = cc
has_any-websocket (r ∷ rest) h =
    let ih : has_any fee_collector_roles rest ≡ true
        → has_any websocket_privileged_roles rest ≡ true =
      has_any-websocket rest in
    ground (arith, ih)

-- What a guard does with a principal: test it, and hand it on.
gate :
    (m : Result AuthErrorCode Principal) (test : Principal → Bool) (p : Principal)
    → ((m >>= λ q. require forbidden (test q) >> ok q) ≡ ok p) ↔ ((m ≡ ok p) × (test p ≡ true))
gate (err code) test p = (λ h. cc, λ h. cc)
gate (ok q) test p = (
  λ h.
      let same : q ≡ p = checked_same (test q) q h in
      let passed : test q ≡ true = checked (test q) q h in (ap ok same, rw (← same) passed),
  λ h. let same : q ≡ p = ok_same h.0 in rw (same, h.1) refl,
)

module _ (verify : Verify) (trim : String → String) (env : JwtEnv) (now : ℕ)
    (header rest token : String) (bearer : strip_prefix "Bearer " header ≡ some rest)
    (trimmed : non_empty (some (trim rest)) ≡ some token) where
  http_outcome :
      can_activate verify trim env now (some header)
      ≡ (authenticate verify env now token >>= λ p. require forbidden (http_allowed p) >> ok p)
  unfolding can_activate
  http_outcome = rw (bearer, trimmed) refl

  web_socket_outcome : authorize_web_socket verify env now (some (trim rest)) ≡ (
      authenticate verify env now token >>= λ p.
      require forbidden (has_any websocket_privileged_roles p.roles) >> ok p)
  unfolding authorize_web_socket
  web_socket_outcome = rw (trimmed) refl

  -- On the same bearer token and for a principal with some role: a request is let through exactly
  -- when a WebSocket channel is opened and the principal is a fee collector or an administrator.
  pub can_activate-authorize_web_socket :
      (p : Principal)
      → is_empty p.roles ≡ false
      → (can_activate verify trim env now (some header) ≡ ok p) ↔ (
          (authorize_web_socket verify env now (some (trim rest)) ≡ ok p)
          × (has_any fee_collector_roles p.roles ≡ true))
  can_activate-authorize_web_socket p some_role =
      let m = authenticate verify env now token in
      let http = gate m http_allowed p in
      let socket = gate m (λ q. has_any websocket_privileged_roles q.roles) p in
      let by_role : http_allowed p ≡ has_any fee_collector_roles p.roles = rw some_role refl in
      (
        λ h.
            let granted = http.0 (sym http_outcome ∙ h) in
            let role = sym by_role ∙ granted.1 in
            (web_socket_outcome ∙ socket.1 (granted.0, has_any-websocket p.roles role), role),
        λ h.
            let granted = socket.0 (sym web_socket_outcome ∙ h.0) in
            http_outcome ∙ http.1 (granted.0, by_role ∙ h.1),
      )

  -- A request without any role but with some scope is let through; a channel is not opened.
  pub can_activate_scoped :
      (p : Principal)
      → authenticate verify env now token ≡ ok p
      → p.roles ≡ []
      → is_empty p.scopes ≡ false
      → (can_activate verify trim env now (some header) ≡ ok p)
        × (authorize_web_socket verify env now (some (trim rest)) ≡ err forbidden)
  can_activate_scoped p known no_role scope = (
    http_outcome ∙ rw (known, no_role, scope) refl,
    web_socket_outcome ∙ rw (known, no_role) refl,
  )
