-- ===== src/React/Hub.antt =====
-- packages/sdk/src/react/provider.tsx: the provider pauses the send flow on a promise and settles it
-- when the modal reports back. Promises are numbered in the order of their making.
pub mod Settling
use trana.Prelude.{ℕ, ◌+◌, List, [], ◌∷◌, Option, none, some, Bool, true, false, if◌then◌else◌}
use trana.Intent.{TranaIntent}
use trana.React.State.{TranaState, idle, IntentPreview, reducer}
use trana.React.State

pub record ApprovalResult : Type 0 where
  pub sig : List ℕ
  pub authenticator_data : List ℕ
  pub client_data_json : List ℕ

pub data Kind : Type 0 where
  registration confirmation approval : Kind

pub data Settlement : Type 0 where
  resolved : Settlement
  approved : ApprovalResult → Settlement
  rejected : (message : List ℕ) → Settlement

-- `pendingRef.current`: its kind and the number of its promise.
pub record Deferred : Type 0 where
  pub kind : Kind
  pub promise : ℕ

-- The state of the reducer, the pending deferred, how many promises were made, and how those that
-- were settled ended, the latest first.
pub record Hub : Type 0 where
  pub state : TranaState
  pub pending : Option Deferred
  pub made : ℕ
  pub settled : List (ℕ × Settlement)

abbrev pub fresh_hub : Hub
fresh_hub = record { state = idle; pending = none; made = 0; settled = [] }

-- The functions of the context, in the order of the source.
pub data Call : Type 0 where
  trigger_registration : (intent_preview : Option IntentPreview) → Call
  trigger_confirmation : (intent : TranaIntent) → (label : Option (List ℕ)) → Call
  trigger_approval : (intent : TranaIntent) → Call
  resolve_registration : Call
  resolve_confirmation : Call
  resolve_approval : (result : ApprovalResult) → Call
  reject_pending : (message : List ℕ) → Call

-- A new promise takes the place of whatever was pending.
defer : Kind → Hub → Hub
defer kind h = record h {
  pending = some (record { kind = kind; promise = h.made });
  made = h.made + 1;
}

-- `resolve(…)`, `pendingRef.current = null`, then the action RESOLVE.
unfoldable pub settle : Deferred → Settlement → Hub → Hub
settle d s h = record h {
  state = reducer h.state State.resolve;
  pending = none;
  settled = (d.promise, s) ∷ h.settled;
}

abbrev dispatch : Hub → State.TranaAction → Hub
dispatch h action = record h { state = reducer h.state action }

-- A resolver acts only on a deferred of its own kind.
abbrev pub same_kind : Kind → Kind → Bool
same_kind registration registration = true
same_kind confirmation confirmation = true
same_kind approval approval = true
same_kind j k = false

unfoldable pub resolve_kind : Kind → Settlement → Option Deferred → Hub → Hub
unfolding settle
resolve_kind kind s none h = h
resolve_kind kind s (some d) h = if same_kind d.kind kind then settle d s h else h

-- `reject` if something is pending; the action RESET in any case.
unfoldable pub reject : (message : List ℕ) → Option Deferred → Hub → Hub
reject message none h = dispatch h State.reset
reject message (some d) h =
    dispatch (record h { pending = none; settled = (d.promise, rejected message) ∷ h.settled })
      State.reset

unfoldable pub call : Hub → Call → Hub
unfolding defer resolve_kind reject reducer
call h (trigger_registration preview) =
    defer registration (dispatch h (State.trigger_registration preview))
call h (trigger_confirmation intent label) =
    defer confirmation (dispatch h (State.trigger_confirmation intent label))
call h (trigger_approval intent) = defer approval (dispatch h (State.trigger_approval intent))
call h resolve_registration = resolve_kind registration resolved h.pending h
call h resolve_confirmation = resolve_kind confirmation resolved h.pending h
call h (resolve_approval result) = resolve_kind approval (approved result) h.pending h
call h (reject_pending message) = reject message h.pending h

unfoldable pub calls : Hub → List Call → Hub
calls h [] = h
calls h (c ∷ cs) = calls (call h c) cs
