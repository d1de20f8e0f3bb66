-- ===== src/Policy.antt =====
-- packages/sdk/src/policy.ts and packages/sdk/src/requirement.ts: whether a policy would ask for a proof,
-- as the user interface shows it. Amounts and slots are not negative.
pub mod Firing
use trana.Prelude.{ℕ, List, Option, none, some, Bool, true, false, leb, ltb, codes}

pub data Policy : Type 0 where
  require : Policy
  limit : (param_offset : ℕ) → (limit : ℕ) → Policy
  not_before : (slot : ℕ) → Policy
  not_after : (slot : ℕ) → Policy

unfoldable pub policy_string : Policy → List ℕ
policy_string require = codes "trana.require"
policy_string (limit offset amount) = codes "trana.limit"
policy_string (not_before slot) = codes "trana.not_before"
policy_string (not_after slot) = codes "trana.not_after"

pub record RequirementContext : Type 0 where
  pub amount : Option ℕ
  pub current_slot : Option ℕ

-- `value !== undefined && test(value)`
abbrev pub defined_and : Option ℕ → (ℕ → Bool) → Bool
defined_and none test = false
defined_and (some value) test = test value

unfoldable pub evaluate_policy : Policy → RequirementContext → Bool
evaluate_policy require ctx = true
evaluate_policy (limit offset bound) ctx = defined_and ctx.amount (λ amount. leb bound amount)
evaluate_policy (not_before slot) ctx = defined_and ctx.current_slot (λ current. ltb current slot)
evaluate_policy (not_after slot) ctx = defined_and ctx.current_slot (λ current. ltb slot current)

pub record GuardRequirement : Type 0 where
  pub required : Bool
  pub policy : Option Policy

abbrev pub policy_if : Bool → Policy → Option Policy
policy_if true policy = some policy
policy_if false policy = none

unfoldable pub check_requirement : Policy → RequirementContext → GuardRequirement
check_requirement policy ctx = record {
  required = evaluate_policy policy ctx;
  policy = policy_if (evaluate_policy policy ctx) policy;
}
