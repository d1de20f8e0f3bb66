-- ===== src/Tests/Rules.antt =====
-- The policy helper and the low-s helper, on concrete input.
use trana.Prelude.{◌≡◌, ◌↔◌, none, some, true}
use trana.Policy.{limit, RequirementContext, check_requirement}
use trana.Policy.Firing.{Fires, check_requirement-Fires}

abbrev ctx : RequirementContext
ctx = record { amount = some 7; current_slot = none }

check_requirement-Fires_example :
    (((check_requirement (limit 0 5) ctx).required ≡ true) ↔ Fires (limit 0 5) ctx)
    × (((check_requirement (limit 0 5) ctx).policy ≡ some (limit 0 5)) ↔ Fires (limit 0 5) ctx)
check_requirement-Fires_example = check_requirement-Fires (limit 0 5) ctx
