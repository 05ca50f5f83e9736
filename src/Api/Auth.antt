-- ===== src/Api/Auth.antt =====
-- apps/api/src/auth/auth.service.ts, with the write of nonce.controller.ts: wallet login by a nonce.
-- Each phase of a request makes one call to Redis, and other requests may run between two phases.
-- `up` says whether the call succeeds. Expiry is an event: the values of the TTLs are left out. The
-- check of the signature (Stellar SDK) is a parameter, and so is the number that
-- AUTH_MAX_NONCE_ATTEMPTS parses to.
pub mod SingleUse
pub mod Lockout
mod Tests
use swyft.Prelude.{
  ℕ, zero, suc, ◌+◌, Bool, true, false, String, Option, none, some, List, [], ◌∷◌, ◌++◌, leb, ◌==◌,
  if◌then◌else◌,
}
use swyft.Prelude.BigInt.{pos}
use swyft.Prelude.Number.{Number, int}
use swyft.Prelude.Equality.{◌===◌, string_eq}
use swyft.Prelude.Table.{Table, find, upsert, remove}

-- The codes of AuthErrorCode that are thrown; the message of a lockout; a raw error of the store.
pub data Code : Type 0 where
  nonce_unknown nonce_mismatch nonce_already_used signature_invalid wallet_invalid : Code
  store_unavailable too_many_attempts store_error : Code

pub data Outcome : Type 0 where
  token : String → Outcome
  rejected : Code → Outcome

pub record VerifyWalletDto : Type 0 where
  pub wallet_address : String
  pub nonce : String
  pub signature : String

-- The keys auth:nonce:<wallet> and auth:nonce:attempts:<wallet>.
pub record Store : Type 0 where
  pub nonces : Table String String
  pub attempts : Table String ℕ

-- The call of Redis that a request makes next.
pub data Phase : Type 0 where
  get_nonce consume clear_attempts drop_nonce drop_attempts : Phase
  count_failure : Code → Phase
  read_ttl set_expiry : Code → ℕ → Phase
  finished : Outcome → Phase

-- `none` is a valid signature, `some` the error that `assertSignatureValid` throws.
abbrev pub SignatureCheck : Type 0
SignatureCheck = VerifyWalletDto → Option Code

unfoldable pub max_nonce_attempts : Number → ℕ
max_nonce_attempts (int (pos (suc n))) = suc n
max_nonce_attempts _ = 5

-- The counter after INCR.
abbrev pub incremented : Option ℕ → ℕ
incremented none = 1
incremented (some n) = suc n

module _ (check : SignatureCheck) (limit : ℕ) where
  -- Steps 2 and 3 of `verifyWallet`, on the nonce that was read.
  unfoldable pub after_lookup : VerifyWalletDto → Option String → Phase
  after_lookup dto none = finished (rejected nonce_unknown)
  after_lookup dto (some stored) =
      if stored === ""
      then finished (rejected nonce_unknown)
      else if stored === dto.nonce
      then elim (check dto) [ none ↦ consume | some code ↦ count_failure code ]
      else count_failure nonce_mismatch

  -- The end of `registerFailedAttempt`.
  unfoldable pub judge : Code → ℕ → Phase
  judge code attempts = if leb limit attempts then drop_nonce else finished (rejected code)

  unfoldable pub after_incr : Code → ℕ → Phase
  after_incr code attempts = if attempts == 1 then read_ttl code attempts else judge code attempts

  -- CONSUME_NONCE_LUA: the key is deleted only if it holds the nonce.
  unfoldable pub consume_nonce : VerifyWalletDto → Option String → Store → Store × Phase
  consume_nonce dto none s = (s, finished (rejected nonce_already_used))
  consume_nonce dto (some stored) s =
      if stored === dto.nonce
      then (record s { nonces = remove dto.wallet_address s.nonces }, clear_attempts)
      else (s, finished (rejected nonce_already_used))

  -- One call of Redis by a request, `up` if it succeeds.
  unfoldable pub step : VerifyWalletDto → Store → Phase → Bool → Store × Phase
  step dto s get_nonce true = (s, after_lookup dto (find dto.wallet_address s.nonces))
  step dto s get_nonce false = (s, finished (rejected store_unavailable))
  step dto s (count_failure code) true =
      let n = incremented (find dto.wallet_address s.attempts) in
      (record s { attempts = upsert dto.wallet_address suc 1 s.attempts }, after_incr code n)
  step dto s (read_ttl code n) true = (s, set_expiry code n)
  step dto s (set_expiry code n) true = (s, judge code n)
  step dto s drop_nonce true =
      (record s { nonces = remove dto.wallet_address s.nonces }, drop_attempts)
  step dto s drop_attempts true = (
    record s { attempts = remove dto.wallet_address s.attempts },
    finished (rejected too_many_attempts),
  )
  step dto s consume true = consume_nonce dto (find dto.wallet_address s.nonces) s
  step dto s consume false = (s, finished (rejected store_unavailable))
  step dto s clear_attempts true = (
    record s { attempts = remove dto.wallet_address s.attempts },
    finished (token dto.wallet_address),
  )
  step dto s (finished o) _ = (s, finished o)
  step dto s _ false = (s, finished (rejected store_error))

  -- A whole request with no other one in between: seven calls at most.
  unfoldable pub run : ℕ → VerifyWalletDto → Store × Phase → Store × Phase
  run zero dto p = p
  run (suc n) dto (s, phase) = run n dto (step dto s phase true)

  unfoldable pub verify_wallet : VerifyWalletDto → Store → Store × Phase
  verify_wallet dto s = run 7 dto (s, get_nonce)

-- `issueNonce` for a well-formed wallet: SET, which replaces an older nonce.
unfoldable pub issue_nonce : String → String → Store → Store
issue_nonce wallet nonce s = record s { nonces = upsert wallet (λ _. nonce) nonce s.nonces }

pub record Request : Type 0 where
  pub dto : VerifyWalletDto
  pub phase : Phase

pub record World : Type 0 where
  pub store : Store
  pub requests : List Request

abbrev pub empty : World
empty = record { store = record { nonces = []; attempts = [] }; requests = [] }

-- What may happen next: a new request, one call of the i-th request, a new nonce, an expiry.
pub data Event : Type 0 where
  arrive : VerifyWalletDto → Event
  call : ℕ → Bool → Event
  issue : String → String → Event
  expire_nonce expire_attempts : String → Event

abbrev pub moved : VerifyWalletDto → Store × Phase → List Request → World
moved dto (s, p) rest = record { store = s; requests = record { dto = dto; phase = p } ∷ rest }

abbrev pub behind : Request → World → World
behind r w = record w { requests = r ∷ w.requests }

module _ (check : SignatureCheck) (limit : ℕ) where
  unfoldable pub call_at : ℕ → Bool → Store → List Request → World
  call_at i up s [] = record { store = s; requests = [] }
  call_at zero up s (r ∷ rs) = moved r.dto (step check limit r.dto s r.phase up) rs
  call_at (suc i) up s (r ∷ rs) = behind r (call_at i up s rs)

  unfoldable pub apply : World → Event → World
  apply w (arrive dto) = record w {
    requests = record { dto = dto; phase = get_nonce } ∷ w.requests;
  }
  apply w (call i up) = call_at i up w.store w.requests
  apply w (issue wallet nonce) = record w { store = issue_nonce wallet nonce w.store }
  apply w (expire_nonce wallet) = record w {
    store = record w.store { nonces = remove wallet w.store.nonces };
  }
  apply w (expire_attempts wallet) = record w {
    store = record w.store { attempts = remove wallet w.store.attempts };
  }

  -- Any interleaving of requests is a list of events.
  unfoldable pub history : World → List Event → World
  history w [] = w
  history w (e ∷ es) = history (apply w e) es
