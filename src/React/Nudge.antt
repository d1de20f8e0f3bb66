-- ===== src/React/Nudge.antt =====
-- packages/sdk/src/react/useBackupNudge.ts: the prompt to add a backup passkey, as a step per event: a
-- render with the phase of the state, the timer going off, a dismissal.
pub mod Hidden
use trana.Prelude.{ℕ, List, [], ◌∷◌, Bool, true, false, ◌==◌, ◌&&◌, not, if◌then◌else◌}
use trana.React.State
use trana.React.State.{TranaState}
use trana.React.Hub.{Hub, Call, call}

pub data Phase : Type 0 where
  idle needs_registration registering needs_confirmation confirming needs_approval approving error :
      Phase

abbrev pub phase_of : TranaState → Phase
phase_of State.idle = idle
phase_of (State.needs_registration preview) = needs_registration
phase_of State.registering = registering
phase_of (State.needs_confirmation intent label) = needs_confirmation
phase_of (State.confirming intent label) = confirming
phase_of (State.needs_approval intent) = needs_approval
phase_of (State.approving intent) = approving
phase_of (State.error message recoverable) = error

abbrev number : Phase → ℕ
number idle = 0
number needs_registration = 1
number registering = 2
number needs_confirmation = 3
number confirming = 4
number needs_approval = 5
number approving = 6
number error = 7

abbrev pub same_phase : Phase → Phase → Bool
same_phase p q = number p == number q

-- `stored` is the flag of the local storage, and `timer` a timeout that is set and has not gone off.
pub record Nudge : Type 0 where
  pub prev_phase : Phase
  pub timer : Bool
  pub show : Bool
  pub stored : Bool

abbrev pub mounted : (phase : Phase) → (stored : Bool) → Nudge
mounted phase stored = record { prev_phase = phase; timer = false; show = false; stored = stored }

-- A render with another phase: the cleanup clears the timer, then the effect sets it, or not.
unfoldable pub rendered : Phase → Nudge → Nudge
rendered current n = if same_phase n.prev_phase current then n else record n {
  prev_phase = current;
  timer = same_phase n.prev_phase approving && same_phase current idle && not n.stored;
}

abbrev pub fire : (timer : Bool) → Nudge → Nudge
fire true n = record n { timer = false; show = true }
fire false n = n

-- The timeout goes off, if one is set.
unfoldable pub fired : Nudge → Nudge
fired n = fire n.timer n

unfoldable pub dismissed : Nudge → Nudge
dismissed n = record n { show = false; stored = true }

-- What may happen around the hook: a function of the provider's context is called, the component
-- renders, the timer goes off, the nudge is dismissed.
pub data Event : Type 0 where
  called : Call → Event
  renders fires dismisses : Event

unfoldable pub step : Hub × Nudge → Event → Hub × Nudge
step (hub, n) (called c) = (call hub c, n)
step (hub, n) renders = (hub, rendered (phase_of hub.state) n)
step (hub, n) fires = (hub, fired n)
step (hub, n) dismisses = (hub, dismissed n)

unfoldable pub steps : Hub × Nudge → List Event → Hub × Nudge
steps s [] = s
steps s (e ∷ es) = steps (step s e) es
