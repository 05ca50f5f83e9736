-- ===== src/Api/Jwt/Login.antt =====
-- The token that auth.service.ts issues, presented to the guards of jwt-auth.guard.ts.
use swyft.Prelude.{ℕ, ◌*◌, ◌<◌, ◌≡◌, refl, false, String, some, err, lt→ltb}
use swyft.Prelude.BigInt.{pos}
use swyft.Prelude.Equality.{◌===◌, string_eq}
use swyft.Api.KeyRing.{non_empty}
use swyft.Api.Jwt.{
  whole, JwtEnv, Verify, strip_prefix, principal_of, wallet_of, normalize_list, authenticate,
  can_activate, authorize_web_socket, issue_jwt, forbidden,
}

module _ (verify : Verify) (trim : String → String) (env : JwtEnv) (now : ℕ) where
  -- A token of the wallet login that verifies and has not expired is denied by both guards, whatever
  -- the wallet: the issuer signs no role and no scope.
  pub can_activate-issue_jwt :
      (header rest token secret wallet : String) (exp : ℕ)
      → strip_prefix "Bearer " header ≡ some rest
      → non_empty (some (trim rest)) ≡ some token
      → non_empty env.secret ≡ some secret
      → verify token secret (non_empty env.issuer) (non_empty env.audience)
        ≡ some (issue_jwt wallet (some (whole (pos exp))))
      → (wallet === "") ≡ false
      → now < exp * 1000
      → (can_activate verify trim env now (some header) ≡ err forbidden)
        × (authorize_web_socket verify env now (some (trim rest)) ≡ err forbidden)
  unfolding can_activate authorize_web_socket authenticate principal_of wallet_of normalize_list
      issue_jwt
  can_activate-issue_jwt header rest token secret wallet exp bearer trimmed configured verified
        named future =
      let later = lt→ltb now (exp * 1000) future in
      (
        rw (bearer, trimmed, configured, verified) (rw (later, named) refl),
        rw (trimmed, configured, verified) (rw (later, named) refl),
      )
