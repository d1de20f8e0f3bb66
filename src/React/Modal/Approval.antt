-- ===== src/React/Modal/Approval.antt =====
-- The approval modal of packages/sdk/src/react/modal.tsx and the promise of the provider.
use mathlib.Core.Path.{subst}
use trana.Prelude.{sym, ℕ, ◌≡◌, refl, List, ◌∷◌, none, some, false, ◌⊎◌, inl, inr}
use trana.Prelude.Result.{
  Result, ok, err, >>=-eq-ok, or_throw, or_throw-eq-ok, map_err, map_err-eq-ok,
}
use trana.Intent.{TranaIntent}
use trana.React.Hub.{Hub, Deferred, ApprovalResult, approval, approved, call, settle, resolve_kind}
use trana.React.Intent.{hash_intent}
use trana.React.State
use trana.React.Registry.{RegistryState}
use trana.React.Webauthn.{Approval, do_approval}
use trana.React.Modal.{
  Env, ModalError, Progress, thrown, webauthn, approve, after_approve, handle_approve,
  press_approve,
}

-- The result is what the registered passkey answered to the challenge of the intent.
pub record Answers (env : Env) (registry : RegistryState) (intent : TranaIntent)
    (result : ApprovalResult) : Type 0 where
  pub challenge : List ℕ
  pub is_challenge : hash_intent env.keys intent ≡ some challenge
  pub answer : Approval
  pub is_answer :
      do_approval env.navigator env.reencode registry.credential_id challenge env.hostname env.rp_id
      ≡ ok answer
  pub is_result : result ≡ record {
    sig = answer.sig;
    authenticator_data = answer.authenticator_data;
    client_data_json = answer.client_data_json;
  }

pub approve-Answers :
    (env : Env) (registry : RegistryState) (intent : TranaIntent) (result : ApprovalResult)
    → approve env registry intent ≡ ok result
    → Answers env registry intent result
unfolding approve
approve-Answers env registry intent result h =
    let (challenge, hashed, h1) = >>=-eq-ok (or_throw (hash_intent env.keys intent) thrown) _ h in
    let signing =
      do_approval env.navigator env.reencode registry.credential_id challenge env.hostname
        env.rp_id in
    let (answer, signed, h2) = >>=-eq-ok (map_err webauthn signing) _ h1 in
    record {
      challenge = challenge;
      is_challenge = or_throw-eq-ok (hash_intent env.keys intent) thrown hashed;
      answer = answer;
      is_answer = map_err-eq-ok webauthn signing signed;
      is_result = cc;
    }

-- What an approval leaves of the provider and of the modal.
abbrev pub IsOutcome :
    Env → RegistryState → TranaIntent → Deferred → Hub → (after : Hub × Progress) → Type 0
IsOutcome env registry intent d hub (after, shown) =
    ((result : ApprovalResult) × Answers env registry intent result
      × (after.settled ≡ (d.promise, approved result) ∷ hub.settled)
      × (after.pending ≡ none))
    ⊎ ((after ≡ hub) × (shown.busy ≡ false) × ((e : ModalError) × (shown.error ≡ some e)))

after_approve-IsOutcome :
    (env : Env) (registry : RegistryState) (intent : TranaIntent) (hub : Hub) (p : Progress)
    (d : Deferred) (m : Result ModalError ApprovalResult)
    → approve env registry intent ≡ m
    → hub.pending ≡ some d
    → d.kind ≡ approval
    → IsOutcome env registry intent d hub (after_approve m (hub, p))
unfolding after_approve call resolve_kind settle
after_approve-IsOutcome env registry intent hub p d (ok result) h pending kind = inl (
  result,
  approve-Answers env registry intent result h,
  rw (pending, kind) refl,
  rw (pending, kind) refl,
)
after_approve-IsOutcome env registry intent hub p d (err e) h pending kind =
    inr (refl, refl, (e, refl))

-- The button of the approval modal is pressed while an intent is shown, and when the browser has answered,
-- an approval is pending, whatever happened to the provider in the meantime: then either the promise that
-- is pending by then is settled, with an answer of the registered passkey to the challenge of the intent
-- that was shown when the button was pressed, and nothing is pending any more; or the provider is left as
-- it is by then, an error is shown, and the button can be pressed again.
pub press_approve-settles :
    (env : Env) (registry : RegistryState) (intent : TranaIntent) (during : Hub → Hub) (hub : Hub)
    (p : Progress) (d : Deferred)
    → hub.state ≡ State.needs_approval intent
    → (during hub).pending ≡ some d
    → d.kind ≡ approval
    → IsOutcome env registry intent d
        (during hub)
        (press_approve env (some registry) during hub.state (hub, p))
unfolding press_approve handle_approve
press_approve-settles env registry intent during hub p d shown pending kind =
    subst
      (λ t.
        IsOutcome env registry intent d (during hub)
          (press_approve env (some registry) during t (hub, p)))
      (sym shown)
      (after_approve-IsOutcome env registry intent (during hub) p d (approve env registry intent)
        refl pending kind)
