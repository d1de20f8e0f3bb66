-- ===== src/React/Nudge/Hidden.antt =====
-- useBackupNudge with the provider of packages/sdk/src/react/provider.tsx.
use mathlib.Core.Path.{subst}
use trana.Prelude.{sym, ◌≡◌, refl, List, [], ◌∷◌, Option, none, some, false}
use trana.Prelude.{Bool-cases, inl, inr}
use trana.React.State
use trana.React.State.{TranaState}
use trana.React.Hub.{Hub, Deferred}
use trana.React.Hub.Settling.{Shows, IsSound, call-IsSound}
use trana.React.Nudge.{
  Phase, Nudge, Event, called, renders, fires, dismisses, phase_of, same_phase, approving, rendered,
  fire, fired, dismissed, step, steps,
}

-- The hook has seen no approval in progress, and its timer is not set.
abbrev IsQuiet : Nudge → Type 0
IsQuiet n = (same_phase n.prev_phase approving ≡ false) × (n.timer ≡ false) × (n.show ≡ false)

not_approving :
    (pending : Option Deferred) (state : TranaState)
    → Shows pending state
    → same_phase (phase_of state) approving ≡ false
not_approving pending State.idle h = refl
not_approving pending (State.needs_registration preview) h = refl
not_approving pending State.registering h = refl
not_approving pending (State.needs_confirmation intent label) h = refl
not_approving pending (State.confirming intent label) h = refl
not_approving pending (State.needs_approval intent) h = refl
not_approving none (State.approving intent) h = cc
not_approving (some d) (State.approving intent) h = absurd (h refl)
not_approving pending (State.error message recoverable) h = refl

rendered-IsQuiet :
    (current : Phase) (n : Nudge)
    → same_phase current approving ≡ false
    → IsQuiet n
    → IsQuiet (rendered current n)
unfolding rendered
rendered-IsQuiet current n other (prev, timer, show) =
    elim (Bool-cases (same_phase n.prev_phase current)) [
      | inl same ↦ rw same (prev, timer, show)
      | inr new ↦ rw new (other, rw prev refl, show)
    ]

step-keeps :
    (s : Hub × Nudge) (e : Event)
    → IsSound s.0
    → IsQuiet s.1
    → IsSound (step s e).0 × IsQuiet (step s e).1
unfolding step fired dismissed
step-keeps (hub, n) (called c) sound quiet = (call-IsSound hub c sound, quiet)
step-keeps (hub, n) renders sound quiet = (
  sound,
  rendered-IsQuiet (phase_of hub.state) n (not_approving hub.pending hub.state sound.shows) quiet,
)
step-keeps (hub, n) fires sound (prev, timer, show) =
    (sound, subst (λ b. IsQuiet (fire b n)) (sym timer) (prev, timer, show))
step-keeps (hub, n) dismisses sound (prev, timer, show) = (sound, (prev, timer, refl))

-- Whatever functions of the provider's context are called, and however the renders, the timer and
-- dismissals fall between them, from a sound provider and a hook that has shown nothing and seen no
-- approval in progress, the hook never shows its nudge.
pub steps-hidden :
    (s : Hub × Nudge) (es : List Event)
    → IsSound s.0
    → same_phase (s.1).prev_phase approving ≡ false
    → (s.1).timer ≡ false
    → (s.1).show ≡ false
    → (steps s es).1.show ≡ false
unfolding steps
steps-hidden s [] sound prev timer show = show
steps-hidden s (e ∷ es) sound prev timer show =
    let (sound', (prev', timer', show')) = step-keeps s e sound (prev, timer, show) in
    steps-hidden (step s e) es sound' prev' timer' show'
