-- ===== src/React/Modal/Session/Bound.antt =====
-- Whose approval settles a promise: packages/sdk/src/react/provider.tsx with modal.tsx.
use mathlib.Core.Path.{subst}
use trana.Prelude.{
  ℕ, zero, suc, ◌≡◌, refl, sym, ap, List, [], ◌∷◌, Option, none, some, ◌⊎◌, inl, inr, All,
  All-weaken, All-append, get_elem?, codes, if◌then◌else◌,
}
use trana.Prelude.Result.{Result, ok, err}
use trana.Intent.{TranaIntent}
use trana.React.State
use trana.React.State.{TranaState, reducer}
use trana.React.Hub.{
  Hub, Deferred, ApprovalResult, Settlement, approval, resolved, approved, rejected, call, settle,
  same_kind, resolve_kind, reject,
}
use trana.React.Registry.{RegistryState}
use trana.React.Modal.{Env, ModalError, approve}
use trana.React.Modal.Approval.{Answers, approve-Answers}
use trana.React.Modal.Session.{
  Ceremony, Session, fresh_session, Event, asks, presses, answers, dismisses, pressed, finished,
  answered, step, steps,
}
use trana.React.Watch.{remove}

-- The promise was made for the intent.
pub data Asked (p : ℕ) (intent : TranaIntent) : List (ℕ × TranaIntent) → Type 0 where
  latest : (rest : List (ℕ × TranaIntent)) → Asked p intent ((p, intent) ∷ rest)
  before :
      (other : ℕ × TranaIntent) (rest : List (ℕ × TranaIntent))
      → Asked p intent rest
      → Asked p intent (other ∷ rest)

-- The button was pressed there: with this browser and with this registry of the render.
abbrev pub Where : Type 1
Where = Env → RegistryState → Type 0

-- An approval that settled a promise is what the passkey of a registry answered, in a browser where the
-- button was pressed with that registry, to the challenge of an intent that the promise was made for.
abbrev pub IsBacked : Where → List (ℕ × TranaIntent) → ℕ × Settlement → Type 0
IsBacked P asked (p, resolved) = Unit {0}
IsBacked P asked (p, rejected message) = Unit {0}
IsBacked P asked (p, approved result) =
    (intent : TranaIntent) × (env : Env) × (registry : RegistryState) × P env registry
    × Asked p intent asked
    × Answers env registry intent result

-- The presses among the events.
abbrev pub IsPressed : List Event → Where
IsPressed [] env registry = ⊥
IsPressed (presses e r ∷ es) env registry = ((e ≡ env) × (r ≡ registry)) ⊎ IsPressed es env registry
IsPressed (e ∷ es) env registry = IsPressed es env registry

abbrev ArePressed : Where → List Event → Type 0
ArePressed P [] = Unit {0}
ArePressed P (presses e r ∷ es) = P e r × ArePressed P es
ArePressed P (e ∷ es) = ArePressed P es

ArePressed-of :
    (P : Where) (es : List Event)
    → ((env : Env) (registry : RegistryState) → IsPressed es env registry → P env registry)
    → ArePressed P es
ArePressed-of P [] h = tt
ArePressed-of P (presses e r ∷ es) h =
    (h e r (inl (refl, refl)), ArePressed-of P es (λ env registry p. h env registry (inr p)))
ArePressed-of P (asks intent ∷ es) h = ArePressed-of P es h
ArePressed-of P (answers i ∷ es) h = ArePressed-of P es h
ArePressed-of P (dismisses ∷ es) h = ArePressed-of P es h

-- Another approval is asked for only when no ceremony is under way.
abbrev pub AreOrderly : Session → List Event → Type 0
AreOrderly s [] = Unit {0}
AreOrderly s (asks intent ∷ es) = (s.waiting ≡ []) × AreOrderly (step s (asks intent)) es
AreOrderly s (e ∷ es) = AreOrderly (step s e) es

All-remove {ℓ κ} :
    {A : Type ℓ} (P : A → Type κ) (i : ℕ) (xs : List A) → All P xs → All P (remove i xs)
All-remove P i [] h = h
All-remove P zero (x ∷ xs) (p, h) = h
All-remove P (suc i) (x ∷ xs) (p, h) = (p, All-remove P i xs h)

All-get_elem? {ℓ κ} :
    {A : Type ℓ} (P : A → Type κ) (i : ℕ) (xs : List A) (x : A)
    → All P xs
    → get_elem? xs i ≡ some x
    → P x
All-get_elem? P i [] x h at = absurd (cc at)
All-get_elem? P zero (y ∷ xs) x (p, h) at = let same : y ≡ x = cc in subst P same p
All-get_elem? P (suc i) (y ∷ xs) x (p, h) at = All-get_elem? P i xs x h at

-- The session after the ceremony at a place, with another provider.
abbrev after : ℕ → Session → Hub → Session
after i s hub = record s { hub = hub; waiting = remove i s.waiting }

module _ (P : Where) where
  IsBacked-before :
      (other : ℕ × TranaIntent) (asked : List (ℕ × TranaIntent)) (s : ℕ × Settlement)
      → IsBacked P asked s
      → IsBacked P (other ∷ asked) s
  IsBacked-before other asked (p, resolved) h = h
  IsBacked-before other asked (p, rejected message) h = h
  IsBacked-before other asked (p, approved result) (intent, env, registry, was, was_asked, answer) =
      (intent, env, registry, was, before other asked was_asked, answer)

  -- Nothing is pending; or an approval is, its intent is the one shown, and so of every ceremony.
  pub record IsShown (s : Session) (d : Deferred) (intent : TranaIntent) : Type 0 where
    pub pending : s.hub.pending ≡ some d
    pub kind : d.kind ≡ approval
    pub shown : s.hub.state ≡ State.needs_approval intent
    pub was_asked : Asked d.promise intent s.asked
    pub all_for : All (λ c. (c.intent ≡ intent) × P c.env c.registry) s.waiting

  abbrev IsOpen : Session → Type 0
  IsOpen s =
      ((s.hub.pending ≡ none) × (s.hub.state ≡ State.idle))
      ⊎ ((d : Deferred) × (intent : TranaIntent) × IsShown s d intent)

  abbrev IsBound : Session → Type 0
  IsBound s = IsOpen s × All (IsBacked P s.asked) s.hub.settled

  asks-IsBound :
      (intent : TranaIntent) (s : Session)
      → s.waiting ≡ []
      → IsBound s
      → IsBound (step s (asks intent))
  unfolding step call
  asks-IsBound intent s quiet (open_one, backed) = (
    inr (
      record { kind = approval; promise = s.hub.made },
      intent,
      record {
        pending = refl;
        kind = refl;
        shown = refl;
        was_asked = latest s.asked;
        all_for = subst (All _) (sym quiet) tt;
      },
    ),
    All-weaken s.hub.settled (IsBacked-before (s.hub.made, intent) s.asked) backed,
  )

  pressed-IsBound :
      (env : Env) (registry : RegistryState) (state : TranaState) (s : Session)
      → s.hub.state ≡ state
      → P env registry
      → IsBound s
      → IsBound (pressed env registry state s)
  unfolding pressed
  pressed-IsBound env registry (State.needs_approval intent) s at p (inl (pending, idle), backed) =
      absurd (cc (at, idle))
  pressed-IsBound env registry (State.needs_approval intent) s at p (inr (d, shown, o), backed) =
      let same : intent ≡ shown = cc (at, o.shown) in
      (
        inr (
          d,
          shown,
          record {
            pending = o.pending;
            kind = o.kind;
            shown = o.shown;
            was_asked = o.was_asked;
            all_for =
                All-append (λ c. (c.intent ≡ shown) × P c.env c.registry) s.waiting _ o.all_for
                  ((same, p), tt);
          },
        ),
        backed,
      )
  pressed-IsBound env registry State.idle s at p h = h
  pressed-IsBound env registry (State.needs_registration preview) s at p h = h
  pressed-IsBound env registry State.registering s at p h = h
  pressed-IsBound env registry (State.needs_confirmation intent label) s at p h = h
  pressed-IsBound env registry (State.confirming intent label) s at p h = h
  pressed-IsBound env registry (State.approving intent) s at p h = h
  pressed-IsBound env registry (State.error message recoverable) s at p h = h

  settled-IsBound :
      (c : Ceremony) (i : ℕ) (result : ApprovalResult) (s : Session) (d : Deferred)
      (intent : TranaIntent)
      → IsShown s d intent
      → All (IsBacked P s.asked) s.hub.settled
      → c.intent ≡ intent
      → P c.env c.registry
      → Answers c.env c.registry c.intent result
      → IsBound (after i s (settle d (approved result) s.hub))
  unfolding settle reducer
  settled-IsBound c i result s d intent o backed same p answer = (
    inl (refl, ap (λ t. reducer t State.resolve) o.shown),
    (
      (
        intent,
        c.env,
        c.registry,
        p,
        o.was_asked,
        subst (λ t. Answers c.env c.registry t result) same answer,
      ),
      backed,
    ),
  )

  finished-IsBound :
      (c : Ceremony) (i : ℕ) (m : Result ModalError ApprovalResult) (s : Session)
      → approve c.env c.registry c.intent ≡ m
      → get_elem? s.waiting i ≡ some c
      → IsBound s
      → IsBound (after i s (finished m s.hub))
  unfolding finished call resolve_kind
  finished-IsBound c i (err e) s was at (inl quiet, backed) = (inl quiet, backed)
  finished-IsBound c i (err e) s was at (inr (d, intent, o), backed) = (
    inr (
      d,
      intent,
      record {
        pending = o.pending;
        kind = o.kind;
        shown = o.shown;
        was_asked = o.was_asked;
        all_for = All-remove (λ t. (t.intent ≡ intent) × P t.env t.registry) i s.waiting o.all_for;
      },
    ),
    backed,
  )
  finished-IsBound c i (ok result) s was at (inl (pending, idle), backed) =
      subst (λ o. IsBound (after i s (resolve_kind approval (approved result) o s.hub)))
        (sym pending) (inl (pending, idle), backed)
  finished-IsBound c i (ok result) s was at (inr (d, intent, o), backed) =
      subst (λ t. IsBound (after i s (resolve_kind approval (approved result) t s.hub)))
        (sym o.pending)
        (subst
          (λ k.
            IsBound (
              after i s (if same_kind k approval then settle d (approved result) s.hub else s.hub)))
          (sym o.kind)
          (settled-IsBound c i result s d intent o backed
            (All-get_elem? (λ t. (t.intent ≡ intent) × P t.env t.registry) i s.waiting c o.all_for
              at).0
            (All-get_elem? (λ t. (t.intent ≡ intent) × P t.env t.registry) i s.waiting c o.all_for
              at).1
            (approve-Answers c.env c.registry c.intent result was)))

  dismisses-IsBound : (s : Session) → IsBound s → IsBound (step s dismisses)
  unfolding step call reject reducer
  dismisses-IsBound s (inl (pending, idle), backed) =
      subst (λ o. IsBound (record s { hub = reject (codes "Cancelled") o s.hub })) (sym pending)
        (inl (pending, ap (λ t. reducer t State.reset) idle), backed)
  dismisses-IsBound s (inr (d, intent, o), backed) =
      subst (λ t. IsBound (record s { hub = reject (codes "Cancelled") t s.hub })) (sym o.pending)
        (inl (refl, ap (λ t. reducer t State.reset) o.shown), (tt, backed))

  answered-IsBound :
      (i : ℕ) (o : Option Ceremony) (s : Session)
      → get_elem? s.waiting i ≡ o
      → IsBound s
      → IsBound (answered i o s)
  unfolding answered
  answered-IsBound i none s at h = h
  answered-IsBound i (some c) s at h =
      finished-IsBound c i (approve c.env c.registry c.intent) s refl at h

  steps-IsBound :
      (s : Session) (es : List Event)
      → AreOrderly s es
      → ArePressed P es
      → IsBound s
      → IsBound (steps s es)
  unfolding steps step
  steps-IsBound s [] orderly pressed_all h = h
  steps-IsBound s (asks intent ∷ es) (quiet, orderly) pressed_all h =
      steps-IsBound (step s (asks intent)) es orderly pressed_all (asks-IsBound intent s quiet h)
  steps-IsBound s (presses env registry ∷ es) orderly (p, pressed_all) h =
      steps-IsBound (step s (presses env registry)) es orderly pressed_all
        (pressed-IsBound env registry s.hub.state s refl p h)
  steps-IsBound s (answers i ∷ es) orderly pressed_all h =
      steps-IsBound (step s (answers i)) es orderly pressed_all
        (answered-IsBound i (get_elem? s.waiting i) s refl h)
  steps-IsBound s (dismisses ∷ es) orderly pressed_all h =
      steps-IsBound (step s dismisses) es orderly pressed_all (dismisses-IsBound s h)

-- However requests for approvals, presses of the button, answers of the browser and dismissals follow
-- each other, when an approval is asked for only while no ceremony is under way: an approval that
-- settles a promise is what the passkey of a registry answered to the challenge of the intent for which
-- that promise was made, in a browser where the button was pressed with that registry.
pub steps-IsBacked :
    (es : List Event)
    → AreOrderly fresh_session es
    → All
        (IsBacked (IsPressed es) (steps fresh_session es).asked)
        (steps fresh_session es).hub.settled
steps-IsBacked es orderly =
    (steps-IsBound (IsPressed es) fresh_session es orderly
      (ArePressed-of (IsPressed es) es (λ env registry p. p)) (inl (refl, refl), tt)).1

-- The modal is dismissed while a ceremony for one intent is under way, another approval is asked for,
-- and then the ceremony is answered: the promise made for the other intent is settled with that answer.
pub late_answer-settles_other :
    (first second : TranaIntent) (env : Env) (registry : RegistryState) (result : ApprovalResult)
    → approve env registry first ≡ ok result
    → let after =
        steps fresh_session
          (asks first ∷ presses env registry ∷ dismisses ∷ asks second ∷ answers 0 ∷ []) in
      (after.asked ≡ (1, second) ∷ (0, first) ∷ [])
      × (after.hub.settled ≡ (1, approved result) ∷ (0, rejected (codes "Cancelled")) ∷ [])
unfolding steps step call pressed answered finished resolve_kind settle reject reducer
late_answer-settles_other first second env registry result was = rw was (refl, refl)
