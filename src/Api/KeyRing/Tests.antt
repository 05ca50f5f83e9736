-- ===== src/Api/KeyRing/Tests.antt =====
-- Runs of internal-key-ring.ts and instances of its theorems, with the identity for the digest.
use swyft.Prelude.{ℕ, ◌≡◌, refl, String, Option, none, some}
use swyft.Prelude.Equality.{string_eq}
use swyft.Api.KeyRing.{KeyRing, denied, not_configured, load_key_ring, match_key_ring}

abbrev plain : String → String
plain text = text

abbrev no_date : String → Option ℕ
no_date text = none

abbrev rotating : KeyRing
rotating = record { current = some "new"; previous = some "old"; previous_expires_at = some 900 }

-- Without a current key nobody enters, even with the previous one.
closed_run :
    match_key_ring plain (some "old") (load_key_ring no_date (some "") (some "old") none) 5
    ≡ denied not_configured
unfolding match_key_ring load_key_ring
closed_run = refl
