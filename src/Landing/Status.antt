-- ===== src/Landing/Status.antt =====
-- PolicyStatus of apps/landing/app/try/page.tsx: which policy the page says the next withdrawal meets.
-- Times are seconds, and the approximate seconds of a number of slots are presentation.
pub mod Program
use trana.Prelude.{ℕ, zero, suc, ◌+◌, ◌-◌, List, Option, none, some, Bool, true, false, ◌&&◌}
use trana.Prelude.{if◌then◌else◌, ltb, leb, codes}
use trana.Landing.Vault.{ℤ, pos, negsuc, UserDepositState}

abbrev pub withdraw_limit : ℕ
withdraw_limit = 1000000000

abbrev pub cooldown_slots : ℕ
cooldown_slots = 150

abbrev pub drain_window_sec : ℕ
drain_window_sec = 60

-- `at > 0 && now - at < window`, where `now` may be before `at`.
unfoldable pub within_window : (last_withdraw_at : ℤ) → (now : ℕ) → Bool
within_window (pos at) now = ltb 0 at && ltb now (at + drain_window_sec)
within_window (negsuc at) now = false

-- `Math.max(0, window - (now - at))`
abbrev pub window_left : (last_withdraw_at : ℤ) → (now : ℕ) → ℕ
window_left (pos at) now = (at + drain_window_sec) - now
window_left (negsuc at) now = 0

-- `slot !== null && isBurst ? Math.max(0, unlockSlot - slot) : 0`
abbrev pub left_until : (unlock : ℕ) → Option ℕ → (is_burst : Bool) → ℕ
left_until unlock none is_burst = 0
left_until unlock (some slot) is_burst = if is_burst then unlock - slot else 0

pub record PolicyStatus : Type 0 where
  pub in_window : Bool
  pub is_burst : Bool
  pub unlock_slot : ℕ
  pub slots_left : ℕ
  pub win_secs_left : ℕ
  pub policy : List ℕ

unfoldable pub status_of :
    UserDepositState → (slot : Option ℕ) → (now : ℕ) → (in_window is_burst : Bool) → PolicyStatus
status_of deposit slot now in_window is_burst = record {
  in_window = in_window;
  is_burst = is_burst;
  unlock_slot = deposit.last_withdraw_slot + cooldown_slots;
  slots_left = left_until (deposit.last_withdraw_slot + cooldown_slots) slot is_burst;
  win_secs_left = if in_window then window_left deposit.last_withdraw_at now else 0;
  policy = if is_burst then codes "trana.not_before" else codes "trana.limit";
}

-- `none` is the text for a deposit that is not there.
unfoldable pub policy_status :
    Option UserDepositState → (slot : Option ℕ) → (now : ℕ) → Option PolicyStatus
policy_status none slot now = none
policy_status (some deposit) slot now =
    if deposit.exists_on_chain
    then some (
        let in_window = within_window deposit.last_withdraw_at now in
        status_of deposit slot now in_window
          (in_window && leb withdraw_limit deposit.window_withdrawn))
    else none
