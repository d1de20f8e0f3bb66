-- ===== src/Policy/Firing.antt =====
-- checkRequirement of packages/sdk/src/requirement.ts against what each policy means.
use trana.Prelude.{ℕ, ◌≤◌, ◌<◌, ◌≡◌, ◌↔◌, arith, Option, none, some, true}
use trana.Policy.{
  Policy, require, limit, not_before, not_after, RequirementContext, evaluate_policy,
  check_requirement,
}

abbrev pub HasValue : Option ℕ → (ℕ → Type 0) → Type 0
HasValue none P = ⊥
HasValue (some value) P = P value

-- The amount has reached the limit, or the current slot lies before, or after, the given one.
abbrev pub Fires : Policy → RequirementContext → Type 0
Fires require ctx = Unit {0}
Fires (limit offset bound) ctx = HasValue ctx.amount (λ amount. bound ≤ amount)
Fires (not_before slot) ctx = HasValue ctx.current_slot (λ current. current < slot)
Fires (not_after slot) ctx = HasValue ctx.current_slot (λ current. slot < current)

-- A requirement is reported exactly when the policy fires, and it names the policy exactly then.
pub check_requirement-Fires :
    (policy : Policy) (ctx : RequirementContext)
    → (((check_requirement policy ctx).required ≡ true) ↔ Fires policy ctx)
      × (((check_requirement policy ctx).policy ≡ some policy) ↔ Fires policy ctx)
unfolding check_requirement evaluate_policy
check_requirement-Fires require ctx = ground arith
check_requirement-Fires (limit offset bound) ctx = ground arith
check_requirement-Fires (not_before slot) ctx = ground arith
check_requirement-Fires (not_after slot) ctx = ground arith
