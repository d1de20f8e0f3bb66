-- ===== src/React/Send/Prepared.antt =====
-- authorizeAndSend of packages/sdk/src/react/useTrana.ts, up to the send loop.
use trana.Prelude.{ℕ, ◌≡◌, refl, List, some}
use trana.Prelude.Result.{Result, ok}
use trana.Secp256r1.{build_secp256r1_ix, build_webauthn_message, build_record_proof_ix}
use trana.React.Logs
use trana.React.Logs.{TranaErrorKind, missing_proof, needed, detect_enforcement}
use trana.React.Intent.{IntentInput, build_intent}
use trana.React.Registry.{RegistryState, fetch_registry}
use trana.React.Send.{Env, Args, Proven, intent_for}
use trana.React.Send.{resolve_intent_input, preview_of}

-- Where the registry comes from: for a missing proof the one that the chain had for the wallet, and else
-- the one that the chain had after a registration.
pub data IsRegistryOf (env : Env) (args : Args) (wallet policy : List ℕ) (registry : RegistryState)
    : TranaErrorKind → Type 0 where
  had :
      fetch_registry env.accounts wallet env.guard ≡ some (some registry)
      → IsRegistryOf env args wallet policy registry missing_proof
  made :
      {reason : TranaErrorKind} (input : IntentInput) (done : Unit {0})
      → resolve_intent_input args ≡ ok input
      → env.register (preview_of env input policy) ≡ ok done
      → fetch_registry env.accounts_after wallet env.guard ≡ some (some registry)
      → IsRegistryOf env args wallet policy registry reason

-- How a proof was prepared: a connected wallet, a probe whose simulation asked for a proof, and an
-- intent for the detected policy that the passkey approved and that the two instructions carry.
pub record IsPrepared (env : Env) (args : Args) (p : Proven) : Type 0 where
  pub wallet : List ℕ
  pub probe : Logs.Transaction
  pub reason : TranaErrorKind
  pub policy : List ℕ
  pub input : IntentInput
  pub done : Unit {0}
  pub connected : env.public_key ≡ some wallet
  pub probed : env.probe ≡ some probe
  pub detected :
      detect_enforcement env.chain probe wallet env.guard env.policy ≡ some (needed reason policy)
  pub registered : IsRegistryOf env args wallet policy p.registry reason
  pub given : resolve_intent_input args ≡ ok input
  pub confirmed : env.confirm p.intent input.label ≡ ok done
  pub bound : p.intent ≡ intent_for env wallet policy p.registry input
  pub approved : env.approve p.intent ≡ ok p.approval
  pub verifies :
      build_secp256r1_ix env.memory env.ids p.registry.pubkey p.approval.sig
        (build_webauthn_message p.approval.authenticator_data p.approval.client_data_json)
      ≡ some p.secp256r1_ix
  pub carries :
      p.record_proof_ix
      ≡ build_record_proof_ix env.ids env.guard p.approval.authenticator_data
          p.approval.client_data_json p.intent.expiry_unix policy

pub policy_of_intent :
    (env : Env) (wallet policy : List ℕ) (registry : RegistryState) (input : IntentInput)
    → (intent_for env wallet policy registry input).policy_id ≡ policy
unfolding build_intent
policy_of_intent env wallet policy registry input = refl

abbrev Binds :
    Env → Args → (wallet policy : List ℕ) → TranaErrorKind → IntentInput → Proven → Type 0
Binds env args wallet policy reason input p =
    IsRegistryOf env args wallet policy p.registry reason
    × (resolve_intent_input args ≡ ok input)
    × ((done : Unit {0}) × (env.confirm (intent_for env wallet policy p.registry input) input.label
          ≡ ok done))
    × (p.intent ≡ intent_for env wallet policy p.registry input)
    × (env.approve (intent_for env wallet policy p.registry input) ≡ ok p.approval)
    × (build_secp256r1_ix env.memory env.ids p.registry.pubkey p.approval.sig
          (build_webauthn_message p.approval.authenticator_data p.approval.client_data_json)
        ≡ some p.secp256r1_ix)
    × (p.record_proof_ix
        ≡ build_record_proof_ix env.ids env.guard p.approval.authenticator_data
            p.approval.client_data_json (intent_for env wallet policy p.registry input).expiry_unix
            (intent_for env wallet policy p.registry input).policy_id)
