-- ===== src/Api/Auth/Tests.antt =====
-- Runs of auth.service.ts and instances of its theorems.
use text.Mathlib.TextEquality.{eq_iff}
use swyft.Prelude.{
  ◌≡◌, ◌≤◌, ◌≢◌, refl, true, none, some, List, [], ◌∷◌, String, arith, if◌then◌else◌,
}
use swyft.Prelude.Equality.{◌===◌, string_eq}
use swyft.Prelude.Table.{find, upsert, remove}
use swyft.Prelude.Number.{not_finite}
use swyft.Api.Auth.{
  signature_invalid, VerifyWalletDto, Store, SignatureCheck, max_nonce_attempts, step, after_lookup,
  consume_nonce, issue_nonce, empty, Event, arrive, call, issue, call_at, apply, history,
}
use swyft.Api.Auth.SingleUse.{
  granted, issues, granted-le-issues, all_authorised, all_authorised-history,
}
use swyft.Api.Auth.Lockout.{serve, serve-locks_out}

-- Accepts the signature "good" only.
abbrev good_only : SignatureCheck
good_only dto = if dto.signature === "good" then none else some signature_invalid

abbrev login : String → String → VerifyWalletDto
login nonce signature = record { wallet_address = "G1"; nonce = nonce; signature = signature }

abbrev stored_n1 : Store
stored_n1 = record { nonces = ("G1", "n1") ∷ []; attempts = ("G1", 1) ∷ [] }

-- Two requests race for one nonce; the second one loses.
abbrev race : List Event
race =
    issue "G1" "n1"
    ∷ arrive (login "n1" "good")
    ∷ arrive (login "n1" "good")
    ∷ call 0 true
    ∷ call 1 true
    ∷ call 0 true
    ∷ call 1 true
    ∷ call 0 true
    ∷ []

race_run : granted "G1" "n1" (history good_only 5 empty race).requests ≡ 1
unfolding history apply call_at step after_lookup consume_nonce issue_nonce find upsert remove
race_run = refl

max_nonce_attempts_run : max_nonce_attempts not_finite ≡ 5
unfolding max_nonce_attempts
max_nonce_attempts_run = refl

granted-le-issues_example :
    granted "G1" "n1" (history good_only 5 empty race).requests ≤ issues "G1" "n1" race
granted-le-issues_example = granted-le-issues good_only 5 "G1" "n1" race

all_authorised-history_example :
    all_authorised good_only (history good_only 5 empty race).requests ≡ true
all_authorised-history_example = all_authorised-history good_only 5 empty race refl

abbrev wrong_ones : List VerifyWalletDto
wrong_ones = login "n1" "bad" ∷ login "n2" "good" ∷ []

n1_full : ◌≢◌ {A = String} "n1" ""
n1_full = ground (arith, eq_iff "n1" "")

serve-locks_out_example : find "G1" (serve good_only 3 stored_n1 wrong_ones).nonces ≡ none
unfolding find
serve-locks_out_example =
    serve-locks_out good_only 3 "n1" wrong_ones stored_n1 "G1" n1_full refl
      ((refl, ground arith), ((refl, ground arith), tt)) (omega arith) (omega arith)
