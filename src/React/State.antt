-- ===== src/React/State.antt =====
-- packages/sdk/src/react/state.ts: the phases of the modal and the reducer over them.
use trana.Prelude.{ℕ, List, Option, Bool, true}
use trana.Intent.{TranaIntent}
use mathlib.Core.Option.{get_or}

pub record IntentPreview : Type 0 where
  pub label : Option (List ℕ)
  pub amount_sol : Option (List ℕ)
  pub policy : List ℕ

pub data TranaState : Type 0 where
  idle : TranaState
  needs_registration : (intent_preview : Option IntentPreview) → TranaState
  registering : TranaState
  needs_confirmation : (intent : TranaIntent) → (label : Option (List ℕ)) → TranaState
  confirming : (intent : TranaIntent) → (label : Option (List ℕ)) → TranaState
  needs_approval : (intent : TranaIntent) → TranaState
  approving : (intent : TranaIntent) → TranaState
  error : (message : List ℕ) → (recoverable : Bool) → TranaState

pub data TranaAction : Type 0 where
  trigger_registration : (intent_preview : Option IntentPreview) → TranaAction
  start_register : TranaAction
  trigger_confirmation : (intent : TranaIntent) → (label : Option (List ℕ)) → TranaAction
  start_confirm : TranaAction
  trigger_approval : (intent : TranaIntent) → TranaAction
  start_approve : TranaAction
  resolve : TranaAction
  fail : (message : List ℕ) → (recoverable : Option Bool) → TranaAction
  reset : TranaAction

unfoldable pub reducer : TranaState → TranaAction → TranaState
reducer state (trigger_registration preview) = needs_registration preview
reducer state start_register = registering
reducer state (trigger_confirmation intent label) = needs_confirmation intent label
reducer (needs_confirmation intent label) start_confirm = confirming intent label
reducer state start_confirm = state
reducer state (trigger_approval intent) = needs_approval intent
reducer (needs_approval intent) start_approve = approving intent
reducer state start_approve = state
reducer state resolve = idle
reducer state (fail message recoverable) = error message (get_or recoverable true)
reducer state reset = idle
