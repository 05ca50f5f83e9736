-- ===== src/Api/KeyRing.antt =====
-- apps/api/src/admin/internal-key-ring.ts: the shared secrets of the administration and their
-- rotation. SHA-256 and Date.parse are parameters; times are milliseconds. The values of the three
-- variables of the environment are given, a missing one as `none`.
mod Windows
mod Tests
use swyft.Prelude.{
  ℕ, ◌+◌, ◌*◌, ◌-◌, Bool, true, false, not, ◌&&◌, String, Option, none, some, List, [], ◌∷◌, ◌++◌,
  ltb, if◌then◌else◌,
}
use swyft.Prelude.Equality.{Eq, ◌===◌, string_eq}

pub data KeySlot : Type 0 where
  current_slot previous_slot : KeySlot

pub data KeyRingDenial : Type 0 where
  not_configured missing invalid previous_expired : KeyRingDenial

pub data KeyRingMatch : Type 0 where
  matched : KeySlot → KeyRingMatch
  denied : KeyRingDenial → KeyRingMatch

pub record KeyRing : Type 0 where
  pub current : Option String
  pub previous : Option String
  pub previous_expires_at : Option ℕ

-- 7 days.
abbrev pub max_rotation_window_ms : ℕ
max_rotation_window_ms = 604800000

abbrev pub placeholder_internal_api_key : String
placeholder_internal_api_key = "change-me-in-production"

abbrev pub non_empty : Option String → Option String
non_empty none = none
non_empty (some text) = if text === "" then none else some text

abbrev pub parsed_date : (String → Option ℕ) → Option String → Option ℕ
parsed_date date_parse none = none
parsed_date date_parse (some text) = date_parse text

unfoldable pub load_key_ring :
    (String → Option ℕ) → Option String → Option String → Option String → KeyRing
load_key_ring date_parse current previous expires_raw = record {
  current = non_empty current;
  previous = non_empty previous;
  previous_expires_at = parsed_date date_parse (non_empty expires_raw);
}

abbrev pub is_after : Option ℕ → ℕ → Bool
is_after none now = false
is_after (some at) now = ltb now at

-- The digest of the presented key against those of both slots.
module _ {D : Type 0} ⦃eq : Eq D⦄ (digest : String → D) where
  abbrev pub match_previous : Option String → Option ℕ → String → ℕ → KeyRingMatch
  match_previous none expires_at presented now = denied invalid
  match_previous (some previous) expires_at presented now =
      if not (previous === "") && digest presented === digest previous
      then (if is_after expires_at now then matched previous_slot else denied previous_expired)
      else denied invalid

  abbrev pub match_current : String → KeyRing → Option String → ℕ → KeyRingMatch
  match_current current ring none now = denied missing
  match_current current ring (some presented) now =
      if presented === ""
      then denied missing
      else if digest presented === digest current
      then matched current_slot
      else match_previous ring.previous ring.previous_expires_at presented now

  abbrev pub match_configured : Option String → KeyRing → Option String → ℕ → KeyRingMatch
  match_configured none ring presented now = denied not_configured
  match_configured (some current) ring presented now =
      if current === "" then denied not_configured else match_current current ring presented now

  -- `presented` is a header that may be missing or, as a list of texts, no text.
  unfoldable pub match_key_ring : Option String → KeyRing → ℕ → KeyRingMatch
  match_key_ring presented ring now = match_configured ring.current ring presented now

pub data ConfigProblem : Type 0 where
  previous_without_current previous_equals_current previous_is_placeholder : ConfigProblem
  expiry_not_valid expiry_too_late expiry_without_previous : ConfigProblem

abbrev pub problem_if : Bool → ConfigProblem → List ConfigProblem
problem_if true p = p ∷ []
problem_if false p = []

abbrev pub expiry_problems : Option ℕ → ℕ → List ConfigProblem
expiry_problems none now = expiry_not_valid ∷ []
expiry_problems (some at) now = problem_if (ltb max_rotation_window_ms (at - now)) expiry_too_late

abbrev pub current_problems : Option String → String → List ConfigProblem
current_problems none previous = previous_without_current ∷ []
current_problems (some current) previous =
    problem_if (current === "") previous_without_current
    ++ problem_if (previous === current) previous_equals_current

abbrev pub other_problems : String → KeyRing → List ConfigProblem
other_problems previous ring =
    current_problems ring.current previous
    ++ problem_if (previous === placeholder_internal_api_key) previous_is_placeholder

abbrev pub previous_problems : String → KeyRing → ℕ → List ConfigProblem
previous_problems previous ring now =
    other_problems previous ring ++ expiry_problems ring.previous_expires_at now

abbrev pub expiry_set : Option String → List ConfigProblem
expiry_set none = []
expiry_set (some text) = problem_if (if text === "" then false else true) expiry_without_previous

abbrev pub problems_of : Option String → Option String → KeyRing → ℕ → List ConfigProblem
problems_of none expires_raw ring now = expiry_set expires_raw
problems_of (some previous) expires_raw ring now =
    if previous === "" then expiry_set expires_raw else previous_problems previous ring now

-- A difference of times below 0 is 0 here, which is within the window as well.
unfoldable pub key_ring_config_problems : Option String → KeyRing → ℕ → List ConfigProblem
key_ring_config_problems expires_raw ring now = problems_of ring.previous expires_raw ring now
