-- ===== src/Api/Jwt/Tests.antt =====
-- Runs of jwt-auth.guard.ts and instances of its theorems, with one token that verifies.
use swyft.Prelude.{
  ◌≡◌, refl, arith, true, String, none, some, [], ◌∷◌, ok, err, if◌then◌else◌, String,
}
use swyft.Prelude.BigInt.{pos}
use swyft.Prelude.Equality.{◌===◌, string_eq}
use swyft.Api.Jwt.{
  whole, JwtPayload, Principal, JwtEnv, Verify, text, absent, can_activate, authorize_web_socket,
  strip_prefix, issue_jwt, forbidden, missing_header, has_any, fee_collector_roles, authenticate,
  principal_of, wallet_of, normalize_list,
}
use swyft.Api.Jwt.Granted.{Grant, can_activate-Grant}
use swyft.Api.Jwt.Channels.{can_activate-authorize_web_socket}
use swyft.Api.Jwt.Login.{can_activate-issue_jwt}

abbrev same_text : String → String
same_text t = t

abbrev configured : JwtEnv
configured = record { secret = some "s"; issuer = none; audience = none }

abbrev payload : JwtPayload
payload = record {
  sub = text "G1";
  wallet_address = absent;
  wallet = absent;
  address = absent;
  role = text "admin";
  roles = absent;
  scope = absent;
  exp = some (whole (pos 9));
}

-- The token t carries the payload, the token l that of a login.
abbrev two_tokens : Verify
two_tokens token secret issuer audience =
    if token === "t"
    then some payload
    else if token === "l"
    then some (issue_jwt "G1" (some (whole (pos 9))))
    else none

abbrev admin : Principal
admin = record { wallet_address = "G1"; roles = "admin" ∷ []; scopes = [] }

admin_run : can_activate two_tokens same_text configured 5 (some "Bearer t") ≡ ok admin
unfolding can_activate strip_prefix authenticate principal_of wallet_of normalize_list
admin_run = refl

no_bearer_run : can_activate two_tokens same_text configured 5 (some "Basic t") ≡ err missing_header
unfolding can_activate strip_prefix
no_bearer_run = refl

can_activate-Grant_example : Grant two_tokens same_text configured 5 "Bearer t" admin
can_activate-Grant_example =
    (can_activate-Grant two_tokens same_text configured 5 "Bearer t" admin).0 admin_run

can_activate-authorize_web_socket_example :
    (authorize_web_socket two_tokens configured 5 (some "t") ≡ ok admin)
    × (has_any fee_collector_roles ("admin" ∷ []) ≡ true)
unfolding strip_prefix
can_activate-authorize_web_socket_example =
    (can_activate-authorize_web_socket two_tokens same_text configured 5 "Bearer t" "t" "t" refl
        refl admin refl).0
      admin_run

can_activate-issue_jwt_example :
    (can_activate two_tokens same_text configured 5 (some "Bearer l") ≡ err forbidden)
    × (authorize_web_socket two_tokens configured 5 (some "l") ≡ err forbidden)
unfolding strip_prefix
can_activate-issue_jwt_example =
    can_activate-issue_jwt two_tokens same_text configured 5 "Bearer l" "l" "l" "s" "G1" 9 refl refl
      refl refl refl (omega arith)
