-- ===== src/Landing/Status/Program.antt =====
-- The page's policy against `withdraw` of programs/trana_test_vault/src/lib.rs for a pool of kind
-- Limit: the policy it enforces, and what it leaves in the deposit.
use trana.Prelude.{
  ℕ, ◌+◌, ◌-◌, ◌<◌, ◌≡◌, refl, arith, List, [], ◌∷◌, Option, none, some, Bool, true, false,
}
use trana.Prelude.{◌&&◌, ◌||◌, if◌then◌else◌, ltb, leb, codes, lt→not_leb, ◌∙◌}
use trana.Types.{Policy, not_before, limit, policy_id}
use trana.Landing.Vault.{pos, UserDepositState}
use trana.Landing.Status.{
  withdraw_limit, cooldown_slots, within_window, policy_status, status_of, left_until, PolicyStatus,
}

pub record Withdrawal : Type 0 where
  pub amount : ℕ
  pub now : ℕ
  pub slot : ℕ

-- The policy that the program hands the guard.
unfoldable pub enforced : UserDepositState → (now : ℕ) → Policy
enforced d now =
    if within_window d.last_withdraw_at now
    then not_before (d.last_withdraw_slot + cooldown_slots)
    else limit 0 withdraw_limit

-- What a withdrawal that went through leaves; one that is not covered changes nothing.
unfoldable pub withdrawn : UserDepositState → Withdrawal → UserDepositState
withdrawn d w =
    if ltb 0 w.amount && leb w.amount d.balance
    then if within_window d.last_withdraw_at w.now || leb withdraw_limit w.amount
      then record d {
        balance = d.balance - w.amount;
        last_withdraw_slot = w.slot;
        window_withdrawn = 0;
        last_withdraw_at = pos 0;
      }
      else record d {
        balance = d.balance - w.amount;
        last_withdraw_slot = w.slot;
        window_withdrawn = w.amount;
        last_withdraw_at = pos w.now;
      }
    else d

unfoldable pub all_withdrawn : UserDepositState → List Withdrawal → UserDepositState
all_withdrawn d [] = d
all_withdrawn d (w ∷ ws) = all_withdrawn (withdrawn d w) ws

withdrawn-IsBelow :
    (d : UserDepositState) (w : Withdrawal)
    → d.window_withdrawn < withdraw_limit
    → (withdrawn d w).window_withdrawn < withdraw_limit
unfolding withdrawn
withdrawn-IsBelow d w h = ground arith

withdrawn-exists :
    (d : UserDepositState) (w : Withdrawal) → (withdrawn d w).exists_on_chain ≡ d.exists_on_chain
unfolding withdrawn
withdrawn-exists d w = ground arith

all_withdrawn-IsBelow :
    (d : UserDepositState) (ws : List Withdrawal)
    → d.window_withdrawn < withdraw_limit
    → (all_withdrawn d ws).window_withdrawn < withdraw_limit
unfolding all_withdrawn
all_withdrawn-IsBelow d [] h = h
all_withdrawn-IsBelow d (w ∷ ws) h =
    all_withdrawn-IsBelow (withdrawn d w) ws (withdrawn-IsBelow d w h)

all_withdrawn-exists :
    (d : UserDepositState) (ws : List Withdrawal)
    → (all_withdrawn d ws).exists_on_chain ≡ d.exists_on_chain
unfolding all_withdrawn
all_withdrawn-exists d [] = refl
all_withdrawn-exists d (w ∷ ws) = all_withdrawn-exists (withdrawn d w) ws ∙ withdrawn-exists d w

and_false : (b : Bool) → (b && false) ≡ false
and_false true = refl
and_false false = refl

left_until-false : (unlock : ℕ) (slot : Option ℕ) → left_until unlock slot false ≡ 0
left_until-false unlock none = refl
left_until-false unlock (some slot) = refl

shown :
    (d : UserDepositState) (slot : Option ℕ) (now : ℕ)
    → d.exists_on_chain ≡ true
    → d.window_withdrawn < withdraw_limit
    → policy_status (some d) slot now
      ≡ some (status_of d slot now (within_window d.last_withdraw_at now) false)
unfolding policy_status
shown d slot now there below = rw there (
    rw
      (
        lt→not_leb d.window_withdrawn withdraw_limit below,
        and_false (within_window d.last_withdraw_at now),
      )
      refl)

enforced-within_window :
    (d : UserDepositState) (now : ℕ)
    → within_window d.last_withdraw_at now ≡ true
    → policy_id (enforced d now) ≡ codes "trana.not_before"
unfolding enforced policy_id
enforced-within_window d now h = rw h refl

-- After any withdrawals that the program lets through, from a deposit on chain with less than the
-- limit withdrawn in its window, within the window of the last one: the program enforces
-- trana.not_before on the next, whereas the page shows trana.limit, no burst and no slots to wait.
pub policy_status-misses_burst :
    (d : UserDepositState) (ws : List Withdrawal) (slot : Option ℕ) (now : ℕ)
    → d.exists_on_chain ≡ true
    → d.window_withdrawn < withdraw_limit
    → within_window (all_withdrawn d ws).last_withdraw_at now ≡ true
    → (policy_id (enforced (all_withdrawn d ws) now) ≡ codes "trana.not_before")
      × (status : PolicyStatus) × (policy_status (some (all_withdrawn d ws)) slot now ≡ some status)
      × (status.policy ≡ codes "trana.limit")
      × (status.is_burst ≡ false)
      × (status.slots_left ≡ 0)
unfolding status_of
policy_status-misses_burst d ws slot now there below inside =
    let after = all_withdrawn d ws in
    (
      enforced-within_window after now inside,
      status_of after slot now (within_window after.last_withdraw_at now) false,
      shown after slot now (all_withdrawn-exists d ws ∙ there) (all_withdrawn-IsBelow d ws below),
      refl,
      refl,
      left_until-false (after.last_withdraw_slot + cooldown_slots) slot,
    )
