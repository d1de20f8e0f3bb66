-- ===== src/React/Hub/Settling.antt =====
-- The provider of packages/sdk/src/react/provider.tsx over sequences of calls.
use mathlib.Core.Path.{subst}
use trana.Prelude.{ℕ, ◌+◌, ◌<◌, ◌≡◌, ◌≢◌, refl, arith, List, [], ◌∷◌, Option, none, some, All}
use trana.Prelude.{Bool-cases, inl, inr}
use trana.React.State.{TranaState, idle, needs_registration, needs_confirmation, needs_approval}
use trana.React.Hub.{
  Hub, fresh_hub, Deferred, Kind, Settlement, registration, confirmation, approval,
}
use trana.React.Hub.{
  Call, call, calls, trigger_registration, trigger_confirmation, trigger_approval,
}
use trana.React.Hub.{
  resolve_registration, resolve_confirmation, resolve_approval, reject_pending, same_kind,
}
use trana.React.Hub.{settle, resolve_kind, reject, resolved, approved}

-- The phase that belongs to what is pending.
abbrev pub Shows : Option Deferred → TranaState → Type 0
Shows none state = state ≡ idle
Shows (some d) (needs_registration preview) = d.kind ≡ registration
Shows (some d) (needs_confirmation intent label) = d.kind ≡ confirmation
Shows (some d) (needs_approval intent) = d.kind ≡ approval
Shows (some d) state = d.kind ≢ d.kind

-- No promise in the list has this number.
abbrev pub Unsettled : ℕ → List (ℕ × Settlement) → Type 0
Unsettled p settled = All (λ s. s.0 ≢ p) settled

abbrev pub Distinct : List (ℕ × Settlement) → Type 0
Distinct [] = Unit {0}
Distinct (s ∷ rest) = Unsettled s.0 rest × Distinct rest

-- A pending promise was made and is not settled.
abbrev pub IsOpen : Option Deferred → ℕ → List (ℕ × Settlement) → Type 0
IsOpen none made settled = Unit {0}
IsOpen (some d) made settled = (d.promise < made) × Unsettled d.promise settled

pub record IsSound (h : Hub) : Type 0 where
  pub shows : Shows h.pending h.state
  pub open_one : IsOpen h.pending h.made h.settled
  pub made_before : All (λ s. s.0 < h.made) h.settled
  pub once : Distinct h.settled

made-weaken :
    (n : ℕ) (settled : List (ℕ × Settlement))
    → All (λ s. s.0 < n) settled
    → All (λ s. s.0 < n + 1) settled
made-weaken n [] h = tt
made-weaken n (s ∷ rest) (p, ps) = (omega arith, made-weaken n rest ps)

fresh-Unsettled :
    (n : ℕ) (settled : List (ℕ × Settlement)) → All (λ s. s.0 < n) settled → Unsettled n settled
fresh-Unsettled n [] h = tt
fresh-Unsettled n (s ∷ rest) (p, ps) = ((λ e. omega arith), fresh-Unsettled n rest ps)

settle-IsSound :
    (h : Hub) (d : Deferred) (s : Settlement)
    → h.pending ≡ some d
    → IsSound h
    → IsSound (settle d s h)
unfolding settle trana.React.State.reducer
settle-IsSound h d s e sound =
    let open_d : IsOpen (some d) h.made h.settled =
      subst (λ o. IsOpen o h.made h.settled) e sound.open_one in
    record {
      shows = refl;
      open_one = tt;
      made_before = (open_d.0, sound.made_before);
      once = (open_d.1, sound.once);
    }

resolve_kind-IsSound :
    (kind : Kind) (s : Settlement) (h : Hub) (o : Option Deferred)
    → h.pending ≡ o
    → IsSound h
    → IsSound (resolve_kind kind s o h)
unfolding resolve_kind
resolve_kind-IsSound kind s h none e sound = sound
resolve_kind-IsSound kind s h (some d) e sound = elim (Bool-cases (same_kind d.kind kind)) [
  | inl same ↦ rw same (settle-IsSound h d s e sound)
  | inr other ↦ rw other sound
]

reject-IsSound :
    (message : List ℕ) (h : Hub) (o : Option Deferred)
    → h.pending ≡ o
    → IsSound h
    → IsSound (reject message o h)
unfolding reject trana.React.State.reducer
reject-IsSound message h none e sound = record {
  shows = rw e refl;
  open_one = sound.open_one;
  made_before = sound.made_before;
  once = sound.once;
}
reject-IsSound message h (some d) e sound =
    let open_d : IsOpen (some d) h.made h.settled =
      subst (λ o. IsOpen o h.made h.settled) e sound.open_one in
    record {
      shows = refl;
      open_one = tt;
      made_before = (open_d.0, sound.made_before);
      once = (open_d.1, sound.once);
    }

pub call-IsSound : (h : Hub) (c : Call) → IsSound h → IsSound (call h c)
unfolding call
call-IsSound h (trigger_registration preview) s =
    ground (arith, made-weaken h.made h.settled, fresh-Unsettled h.made h.settled)
call-IsSound h (trigger_confirmation intent label) s =
    ground (arith, made-weaken h.made h.settled, fresh-Unsettled h.made h.settled)
call-IsSound h (trigger_approval intent) s =
    ground (arith, made-weaken h.made h.settled, fresh-Unsettled h.made h.settled)
call-IsSound h resolve_registration s =
    resolve_kind-IsSound registration resolved h h.pending refl s
call-IsSound h resolve_confirmation s =
    resolve_kind-IsSound confirmation resolved h h.pending refl s
call-IsSound h (resolve_approval result) s =
    resolve_kind-IsSound approval (approved result) h h.pending refl s
call-IsSound h (reject_pending message) s = reject-IsSound message h h.pending refl s

-- Over every sequence of calls of the provider, the phase shown is the one of the pending deferred
-- (idle when there is none), the pending promise was made and is not settled, every settled promise
-- was made, and no promise is settled twice.
pub calls-IsSound : (h : Hub) (cs : List Call) → IsSound h → IsSound (calls h cs)
unfolding calls
calls-IsSound h [] s = s
calls-IsSound h (c ∷ cs) s = calls-IsSound (call h c) cs (call-IsSound h c s)

pub fresh_hub-IsSound : IsSound fresh_hub
fresh_hub-IsSound = record { shows = refl; open_one = tt; made_before = tt; once = tt }
