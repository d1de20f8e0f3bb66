-- ===== src/React/Modal/Session.antt =====
-- Approvals over time: the provider of packages/sdk/src/react/provider.tsx with the ApprovalModal of
-- modal.tsx, as a step per event. The answer of the browser is an event of its own, so that a dismissal
-- or another request may come before it.
pub mod Bound
use trana.Prelude.{ℕ, List, [], ◌∷◌, ◌++◌, Option, none, some, get_elem?, codes}
use trana.Prelude.Result.{Result, ok, err}
use trana.Intent.{TranaIntent}
use trana.React.State
use trana.React.State.{TranaState}
use trana.React.Hub.{
  Hub, fresh_hub, ApprovalResult, call, trigger_approval, resolve_approval, reject_pending,
}
use trana.React.Registry.{RegistryState}
use trana.React.Modal.{Env, ModalError, approve}
use trana.React.Watch.{remove}

-- What was started by the button: the intent that was shown, with the registry of the render and what
-- the modal reaches.
pub record Ceremony : Type 0 where
  pub env : Env
  pub registry : RegistryState
  pub intent : TranaIntent

-- `waiting` are the ceremonies that are not answered yet, and `asked` the promises of the approvals that
-- were triggered, with their intents, the latest first.
pub record Session : Type 0 where
  pub hub : Hub
  pub waiting : List Ceremony
  pub asked : List (ℕ × TranaIntent)

abbrev pub fresh_session : Session
fresh_session = record { hub = fresh_hub; waiting = []; asked = [] }

-- The send flow asks for an approval; the button is pressed; the browser answers the ceremony at a place
-- of `waiting`; the modal is dismissed.
pub data Event : Type 0 where
  asks : (intent : TranaIntent) → Event
  presses : (env : Env) → (registry : RegistryState) → Event
  answers : (i : ℕ) → Event
  dismisses : Event

-- The button is there while an approval is shown; it is taken to work also while it is busy or expired.
unfoldable pub pressed : Env → RegistryState → TranaState → Session → Session
pressed env registry (State.needs_approval intent) s = record s {
  waiting = s.waiting ++ (record { env = env; registry = registry; intent = intent } ∷ []);
}
pressed env registry state s = s

-- A success reports to the provider as it is by now; after an exception the provider is left as it is.
unfoldable pub finished : Result ModalError ApprovalResult → Hub → Hub
finished (ok result) hub = call hub (resolve_approval result)
finished (err e) hub = hub

unfoldable pub answered : ℕ → Option Ceremony → Session → Session
answered i none s = s
answered i (some c) s = record s {
  hub = finished (approve c.env c.registry c.intent) s.hub;
  waiting = remove i s.waiting;
}

unfoldable pub step : Session → Event → Session
step s (asks intent) = record s {
  hub = call s.hub (trigger_approval intent);
  asked = (s.hub.made, intent) ∷ s.asked;
}
step s (presses env registry) = pressed env registry s.hub.state s
step s (answers i) = answered i (get_elem? s.waiting i) s
step s dismisses = record s { hub = call s.hub (reject_pending (codes "Cancelled")) }

unfoldable pub steps : Session → List Event → Session
steps s [] = s
steps s (e ∷ es) = steps (step s e) es
