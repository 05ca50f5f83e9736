-- ===== src/Api/Jwt.antt =====
-- apps/api/src/auth/jwt-auth.guard.ts: the guard of the routes of a wallet and of privileged
-- WebSocket channels, and the token that `issueJwt` of apps/api/src/auth/auth.service.ts signs.
-- jsonwebtoken's `verify` and JavaScript's `trim` are parameters; times are milliseconds.
mod Claims
mod Granted
mod Channels
mod Login
mod Tests
use Prim.Native.Char.{code}
use Prim.Native.String.{String}
use swyft.Prelude.{
  ℕ, ◌+◌, ◌*◌, Bool, true, false, not, ◌&&◌, ◌||◌, Option, none, some, List, [], ◌∷◌, Result, err,
  ok, ◌>>=◌, ◌>>◌, ◌==◌, any, if◌then◌else◌,
}
use swyft.Prelude.BigInt.{ℤ, pos, negsuc, ltb_ℤ, leb_ℤ}
use swyft.Prelude.Number.{Number, int, fraction, not_finite}
use swyft.Prelude.Equality.{◌===◌, string_eq}
use swyft.Api.KeyRing.{non_empty}

pub data AuthErrorCode : Type 0 where
  missing_header missing_token not_configured invalid_token missing_wallet forbidden : AuthErrorCode

-- A claim of the payload: missing or null, a text, an array whose entries are texts or not, or
-- anything else.
pub data Claim : Type 0 where
  absent other : Claim
  text : String → Claim
  entries : List (Option String) → Claim

-- A number of seconds: a whole one, or another one with the number that its product with 1000 is,
-- as JavaScript rounds it; `not_finite` is an Infinity there.
pub data Seconds : Type 0 where
  whole : ℤ → Seconds
  not_whole : Number → Seconds

abbrev pub milliseconds : Seconds → Number
milliseconds (whole (pos n)) = int (pos (n * 1000))
milliseconds (whole (negsuc n)) = int (negsuc (n * 1000 + 999))
milliseconds (not_whole product) = product

-- `exp` is `none` where it is not a number.
pub record JwtPayload : Type 0 where
  pub sub : Claim
  pub wallet_address : Claim
  pub wallet : Claim
  pub address : Claim
  pub role : Claim
  pub roles : Claim
  pub scope : Claim
  pub exp : Option Seconds

pub record Principal : Type 0 where
  pub wallet_address : String
  pub roles : List String
  pub scopes : List String

abbrev pub fee_collector_roles : List String
fee_collector_roles = "fee-collector" ∷ "admin" ∷ []

abbrev pub websocket_privileged_roles : List String
websocket_privileged_roles = "fee-collector" ∷ "admin" ∷ "trader" ∷ []

-- JWT_SECRET, JWT_ISSUER and JWT_AUDIENCE.
pub record JwtEnv : Type 0 where
  pub secret : Option String
  pub issuer : Option String
  pub audience : Option String

-- Token, secret, issuer and audience; `none` where it throws.
abbrev pub Verify : Type 0
Verify = String → String → Option String → Option String → Option JwtPayload

-- What is left after a prefix.
unfoldable pub strip_prefix : String → String → Option String
strip_prefix String.[] s = some s
strip_prefix (String.◌∷◌ c p) String.[] = none
strip_prefix (String.◌∷◌ c p) (String.◌∷◌ d s) =
    let rest = strip_prefix p s in if code c == code d then rest else none

abbrev pub or_error {ℓ} : {A : Type ℓ} → AuthErrorCode → Option A → Result AuthErrorCode A
or_error code none = err code
or_error code (some a) = ok a

abbrev pub require : AuthErrorCode → Bool → Result AuthErrorCode (Unit {0})
require code true = ok tt
require code false = err code

-- `??`
abbrev pub or_claim : Claim → Claim → Claim
or_claim absent c = c
or_claim c _ = c

abbrev pub non_empty_texts : List (Option String) → List String
non_empty_texts [] = []
non_empty_texts (none ∷ rest) = non_empty_texts rest
non_empty_texts (some t ∷ rest) =
    let others = non_empty_texts rest in if t === "" then others else t ∷ others

unfoldable pub normalize_list : Claim → List String
normalize_list absent = []
normalize_list other = []
normalize_list (text t) = non_empty_texts (some t ∷ [])
normalize_list (entries es) = non_empty_texts es

abbrev pub wallet_text : Claim → Option String
wallet_text (text t) = non_empty (some t)
wallet_text _ = none

abbrev pub is_later : ℕ → Number → Bool
is_later now (int t) = ltb_ℤ (pos now) t
is_later now (fraction t) = leb_ℤ (pos now) t
is_later now not_finite = true

abbrev pub expires_after : ℕ → Option Seconds → Bool
expires_after now none = false
expires_after now (some seconds) = is_later now (milliseconds seconds)

abbrev pub has_any : List String → List String → Bool
has_any allowed roles = any (λ role. any (λ other. other === role) allowed) roles

abbrev pub is_empty : List String → Bool
is_empty [] = true
is_empty (_ ∷ _) = false

-- The wallet of a payload: the first of four claims that is there.
unfoldable pub wallet_of : JwtPayload → Option String
wallet_of p = wallet_text (or_claim (or_claim (or_claim p.wallet_address p.wallet) p.address) p.sub)

unfoldable pub principal_of : ℕ → JwtPayload → Result AuthErrorCode Principal
principal_of now p = do
  require invalid_token (expires_after now p.exp)
  wallet ← or_error missing_wallet (wallet_of p)
  ok (record {
    wallet_address = wallet;
    roles = normalize_list (or_claim p.roles p.role);
    scopes = normalize_list p.scope;
  })

-- What both guards do with a token that is there.
unfoldable pub authenticate : Verify → JwtEnv → ℕ → String → Result AuthErrorCode Principal
authenticate verify env now token = do
  secret ← or_error not_configured (non_empty env.secret)
  payload ←
      or_error invalid_token (verify token secret (non_empty env.issuer) (non_empty env.audience))
  principal_of now payload

abbrev pub http_allowed : Principal → Bool
http_allowed p =
    if is_empty p.roles then not (is_empty p.scopes) else has_any fee_collector_roles p.roles

unfoldable pub can_activate :
    Verify → (String → String) → JwtEnv → ℕ → Option String → Result AuthErrorCode Principal
can_activate verify trim env now none = err missing_header
can_activate verify trim env now (some header) = do
  rest ← or_error missing_header (strip_prefix "Bearer " header)
  token ← or_error missing_token (non_empty (some (trim rest)))
  principal ← authenticate verify env now token
  require forbidden (http_allowed principal)
  ok principal

unfoldable pub authorize_web_socket :
    Verify → JwtEnv → ℕ → Option String → Result AuthErrorCode Principal
authorize_web_socket verify env now presented = do
  token ← or_error missing_token (non_empty presented)
  principal ← authenticate verify env now token
  require forbidden (has_any websocket_privileged_roles principal.roles)
  ok principal

-- The payload that `issueJwt` signs; `exp` is the signing library's.
unfoldable pub issue_jwt : String → Option Seconds → JwtPayload
issue_jwt wallet exp = record {
  sub = text wallet;
  wallet_address = text wallet;
  wallet = absent;
  address = absent;
  role = absent;
  roles = absent;
  scope = absent;
  exp = exp;
}
