-- ===== src/React/Modal.antt =====
-- packages/sdk/src/react/modal.tsx: the logic of the modals, without their markup.
pub mod Amount
pub mod Approval
pub mod Setup
pub mod Session
use trana.Prelude.{ℕ, ◌-◌, ◌/◌, List, [], ◌∷◌, ◌++◌, Option, none, some, Bool, true, false, ltb}
use trana.Prelude.{if◌then◌else◌, length, take, drop, codes}
use trana.Prelude.Equality.{same}
use trana.Prelude.Result.{Result, ok, err, ◌>>=◌, or_throw, map_err}
use trana.Bytes.{slice, le_bytes}
use trana.Bytes.Hex.{from_hex}
use trana.Sha256.{decode_params_u64}
use trana.Types.{KeyText, Instruction}
use trana.Intent.{TranaIntent}
use trana.Webauthn.{Navigator}
use trana.React.State
use trana.React.State.{TranaState}
use trana.React.Hub.{Hub, ApprovalResult, call, resolve_registration, resolve_approval}
use trana.React.Intent.{hash_intent}
use trana.React.Logs.{includes}
use trana.React.Registry.{RegistryState}
use trana.React.Webauthn
use trana.React.Webauthn.{do_registration, do_approval}
use trana.Landing.Vault.{Addresses, meta}

pub record HumanError : Type 0 where
  pub text : List ℕ
  pub recoverable : Bool

abbrev pub guard_errors : List (List ℕ × List ℕ)
guard_errors =
    (codes "ProofExpired", codes "Took too long — please try again")
    ∷ (codes "PayloadMismatch", codes "Something changed — please try again")
    ∷ (codes "WrongSigner", codes "Wrong device — use the one you registered with")
    ∷ (codes "MissingProof", codes "Security check failed — please try again")
    ∷ (codes "PolicyMismatch", codes "Policy mismatch — please try again")
    ∷ (codes "RegistryDisabled", codes "Passkey not set up")
    ∷ []

-- The loop over the table, and what follows where no code is in the message.
unfoldable pub humanize_in : List (List ℕ × List ℕ) → (msg : List ℕ) → HumanError
humanize_in [] msg =
    if same msg (codes "Cancelled")
    then record { text = codes "Cancelled"; recoverable = false }
    else record {
      text = if ltb 100 (length msg) then take 100 msg ++ (0x2026 ∷ []) else msg;
      recoverable = true;
    }
humanize_in ((code, text) ∷ table) msg =
    let rest = humanize_in table msg in
    if includes code msg then record { text = text; recoverable = true } else rest

unfoldable pub humanize_error : (msg : List ℕ) → HumanError
humanize_error msg = humanize_in guard_errors msg

unfoldable pub short_addr : List ℕ → List ℕ
short_addr addr = take 6 addr ++ (0x2026 ∷ drop (length addr - 4) addr)

abbrev pub register_disc : List ℕ
register_disc = 0xd0 ∷ 0x77 ∷ 0x84 ∷ 0xf6 ∷ 0xfb ∷ 0xec ∷ 0x77 ∷ 0x36 ∷ []

unfoldable pub build_register_ix :
    Addresses
    → (system_program wallet guard pubkey credential_id config_pda treasury : List ℕ) → Instruction
build_register_ix addresses system_program wallet guard pubkey credential_id config_pda treasury =
    record {
      program_id = guard;
      keys =
          meta (addresses.find_program_address (codes "passkey" ∷ wallet ∷ []) guard) false true
          ∷ meta wallet true true
          ∷ meta system_program false false
          ∷ meta config_pda false false
          ∷ meta treasury false true
          ∷ [];
      payload =
          register_disc
          ++ (0
              ∷ (le_bytes 4 (length pubkey)
                  ++ (pubkey ++ (le_bytes 4 (length credential_id) ++ credential_id))));
    }

-- What the modals reach: addresses, the RPC, the browser and the wallet; `none` is an exception.
-- `submit` is signing, sending and confirming the transaction of one instruction.
pub record Env : Type 0 where
  pub keys : KeyText
  pub addresses : Addresses
  pub system_program : List ℕ
  pub guard : List ℕ
  pub wallet : Option (List ℕ)
  pub can_sign : Bool
  pub account_data : (pda : List ℕ) → Option (Option (List ℕ))
  pub navigator : Navigator
  pub challenge : List ℕ
  pub user_id : List ℕ
  pub hostname : List ℕ
  pub rp_id : Option (List ℕ)
  pub reencode : List ℕ → List ℕ
  pub latest_blockhash : Option (List ℕ)
  pub submit : (blockhash : List ℕ) → Instruction → Option (Unit {0})

pub data ModalError : Type 0 where
  config_not_initialized device_not_set_up thrown : ModalError
  webauthn : Webauthn.Error → ModalError

-- `busy` and `error` of a modal.
pub record Progress : Type 0 where
  pub busy : Bool
  pub error : Option ModalError

-- What the modal registers, up to the confirmation of the transaction.
unfoldable pub set_up : Env → (wallet : List ℕ) → Result ModalError Instruction
set_up env wallet = do
  let config_pda = env.addresses.find_program_address (codes "config" ∷ []) env.guard
  info ← or_throw (env.account_data config_pda) thrown
  account ← or_throw info config_not_initialized
  treasury ← or_throw (env.addresses.of_bytes (slice account 40 72)) thrown
  handle ←
      map_err webauthn
        (do_registration env.navigator env.challenge env.user_id env.hostname env.rp_id)
  let ix =
      build_register_ix env.addresses env.system_program wallet env.guard handle.pubkey_bytes
        handle.credential_id config_pda treasury
  blockhash ← or_throw env.latest_blockhash thrown
  confirmed ← or_throw (env.submit blockhash ix) thrown
  ok ix

-- A success resolves the promise and leaves the modal busy; an error is shown and it can be tried
-- again.
unfoldable pub after_set_up : Result ModalError Instruction → Hub × Progress → Hub × Progress
after_set_up (ok ix) (hub, p) =
    (call hub resolve_registration, record { busy = true; error = none })
after_set_up (err e) (hub, p) = (hub, record { busy = false; error = some e })

unfoldable pub handle_setup : Env → Hub × Progress → Hub × Progress
handle_setup env s = elim (env.wallet) [
  | none ↦ s
  | some wallet ↦ if env.can_sign then after_set_up (set_up env wallet) s else s
]

-- The lamports that the confirmation hands to formatSol, which is left out: from the first 16 hexadecimal
-- digits of the parameters.
unfoldable pub confirmation_amount : TranaIntent → Option ℕ
confirmation_amount intent =
    if ltb (length intent.raw_params_hex) 16
    then none
    else decode_params_u64 (from_hex (slice intent.raw_params_hex 0 16))

-- `Math.max(0, expiryUnix - Math.floor(Date.now() / 1000))`
unfoldable pub countdown : TranaIntent → (now_ms : ℕ) → ℕ
countdown intent now_ms = intent.expiry_unix - now_ms / 1000

unfoldable pub approve : Env → RegistryState → TranaIntent → Result ModalError ApprovalResult
approve env registry intent = do
  challenge ← or_throw (hash_intent env.keys intent) thrown
  answer ← map_err webauthn (
      do_approval env.navigator env.reencode registry.credential_id challenge env.hostname
        env.rp_id)
  ok (record {
    sig = answer.sig;
    authenticator_data = answer.authenticator_data;
    client_data_json = answer.client_data_json;
  })

unfoldable pub after_approve : Result ModalError ApprovalResult → Hub × Progress → Hub × Progress
after_approve (ok result) (hub, p) =
    (call hub (resolve_approval result), record { busy = true; error = none })
after_approve (err e) (hub, p) = (hub, record { busy = false; error = some e })

-- `during` is what becomes of the provider while the browser is asked: the result goes to the provider as
-- it is by then.
unfoldable pub handle_approve :
    Env
    → Option RegistryState
    → (during : Hub → Hub) → TranaIntent
    → Hub × Progress
    → Hub × Progress
handle_approve env none during intent (hub, p) = (hub, record p { error = some device_not_set_up })
handle_approve env (some registry) during intent (hub, p) =
    after_approve (approve env registry intent) (during hub, p)

-- The button of the approval modal, which is there in these two phases, with the intent of the render.
unfoldable pub press_approve :
    Env → Option RegistryState → (during : Hub → Hub) → TranaState → Hub × Progress → Hub × Progress
press_approve env registry during (State.needs_approval intent) s =
    handle_approve env registry during intent s
press_approve env registry during (State.approving intent) s =
    handle_approve env registry during intent s
press_approve env registry during state s = s

pub data Modal : Type 0 where
  registration_modal confirmation_modal approval_modal error_modal : Modal

unfoldable pub modal_of : TranaState → Option Modal
modal_of State.idle = none
modal_of (State.needs_registration preview) = some registration_modal
modal_of State.registering = some registration_modal
modal_of (State.needs_confirmation intent label) = some confirmation_modal
modal_of (State.confirming intent label) = some confirmation_modal
modal_of (State.needs_approval intent) = some approval_modal
modal_of (State.approving intent) = some approval_modal
modal_of (State.error message recoverable) = some error_modal
