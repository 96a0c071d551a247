-- ===== src/Scripts.antt =====
-- `wait_for_server` of the manual checks scripts/smoke_all.py and scripts/volume_check.py. In round
-- i the clock shows `elapsed i` milliseconds since the start, and the server gives a status or
-- raises.
pub mod Waiting
use moaje_work.Prelude.{
  ℕ, zero, suc, ◌+◌, Bool, true, false, Option, none, some, ltb, if◌then◌else◌,
}

abbrev pub is_up : Option ℕ → Bool
is_up none = false
is_up (some status_code) = ltb status_code 500

-- On fuel, for the rounds that are left; none where it runs out.
module _ (timeout : ℕ) (elapsed : ℕ → ℕ) (reply : ℕ → Option ℕ) where
  unfoldable pub wait_for_server : ℕ → ℕ → Option Bool
  wait_for_server zero i = none
  wait_for_server (suc fuel) i =
      let rest = wait_for_server fuel (i + 1) in
      if ltb (elapsed i) timeout then (if is_up (reply i) then some true else rest) else some false
