-- ===== src/React/Send.antt =====
-- packages/sdk/src/react/useTrana.ts: `authorizeAndSend`. The wallet, the RPC, the modal's answers and
-- the application's `buildTransaction` are parameters; what they give may differ from attempt to attempt.
pub mod Delivery
pub mod Prepared
use trana.Prelude.{
  ℕ, zero, suc, ◌+◌, List, [], ◌∷◌, ◌++◌, Option, none, some, Bool, true, false, ◌||◌, ◌==◌,
}
use trana.Prelude.{if◌then◌else◌, take, drop, codes}
use trana.Prelude.Result.{Result, ok, err, ◌>>=◌, or_throw, map_err}
use trana.Sha256.{decode_params_u64}
use trana.Types.{KeyText, Instruction}
use trana.Intent.{TranaIntent}
use trana.Secp256r1.{Memory, Ids, build_secp256r1_ix, build_webauthn_message, build_record_proof_ix}
use trana.React.State.{IntentPreview}
use trana.React.Hub.{ApprovalResult}
use trana.React.Intent.{IntentInput, build_intent, intent_from_instruction}
use trana.React.Logs
use trana.React.Logs.{
  Chain, DetectionResult, not_needed, needed, TranaErrorKind, no_registry, missing_proof,
  detect_enforcement, includes,
}
use trana.React.Registry.{RegistryState, Accounts, fetch_registry}
use mathlib.Core.Option

-- An instruction object by its identity, with its contents.
pub record Object : Type 0 where
  pub ref : ℕ
  pub instruction : Instruction

-- A legacy transaction by its instruction objects; a compiled one has no objects to insert at.
pub data Built : Type 0 where
  legacy : (instructions : List Object) → Built
  versioned : (message : List ℕ) → Built

pub data SendError : Type 0 where
  wallet_not_connected registry_not_found instruction_not_found transaction_expired thrown :
      SendError
  rejected : (message : List ℕ) → SendError
  failed : (message : List ℕ) → SendError

-- How the wallet and the RPC answer a transaction: a signature, or an exception's message.
pub data Answer : Type 0 where
  signature : List ℕ → Answer
  exception : (message : List ℕ) → Answer

-- `blockhash` and `build` are `none` where they throw, and each call of `build` gives a transaction of
-- its own; `deliver` is signing and sending, by attempt.
pub record Network : Type 0 where
  pub blockhash : (attempt : ℕ) → Option (List ℕ)
  pub build : (recent_blockhash : List ℕ) → Option Built
  pub deliver : (attempt : ℕ) → Built → Answer

-- `tx.instructions.indexOf(args.instruction)`
unfoldable pub index_of_ref : ℕ → List Object → Option ℕ
index_of_ref ref [] = none
index_of_ref ref (o ∷ objects) =
    if o.ref == ref then some 0 else Option.map suc (index_of_ref ref objects)

-- `splice(idx, 0, secp256r1Ix, recordProofIx)`, from the index on.
unfoldable pub splice_proof : (proof : List Object) → List Object → Option ℕ → Option (List Object)
splice_proof proof objects none = none
splice_proof proof objects (some idx) = some (take idx objects ++ (proof ++ drop idx objects))

unfoldable pub insert_proof : (proof : List Object) → (ref : ℕ) → List Object → Option (List Object)
insert_proof proof ref objects = splice_proof proof objects (index_of_ref ref objects)

abbrev pub is_expired : List ℕ → Bool
is_expired message =
    includes (codes "Blockhash not found") message
    || includes (codes "block height exceeded") message

-- What was handed to the wallet, in order, and how the call ended.
pub record Sent : Type 0 where
  pub delivered : List Built
  pub result : Result SendError (List ℕ)

abbrev pub answered : Answer → Result SendError (List ℕ)
answered (signature s) = ok s
answered (exception message) = err (failed message)

abbrev pub ends : Result SendError (List ℕ) → Sent
ends result = record { delivered = []; result = result }

abbrev pub delivers : Built → Sent → Sent
delivers tx sent = record sent { delivered = tx ∷ sent.delivered }

-- After a delivery inside `try`: an expired blockhash goes on to the next attempt if there is one.
unfoldable pub after_delivery : (last : Bool) → (next : Sent) → Built → Answer → Sent
after_delivery last next tx (signature s) = delivers tx (ends (ok s))
after_delivery true next tx (exception message) = delivers tx (ends (err (failed message)))
after_delivery false next tx (exception message) =
    if is_expired message then delivers tx next else delivers tx (ends (err (failed message)))

unfoldable pub deliver_proven :
    Network → (attempt : ℕ) → (last : Bool) → (next : Sent) → Option (List Object) → Sent
deliver_proven network attempt last next none = ends (err instruction_not_found)
deliver_proven network attempt last next (some objects) =
    after_delivery last next (legacy objects) (network.deliver attempt (legacy objects))

unfoldable pub deliver_built :
    Network
    → (proof : List Object) → (ref attempt : ℕ) → (last : Bool) → (next : Sent) → Option Built
    → Sent
deliver_built network proof ref attempt last next none = ends (err thrown)
deliver_built network proof ref attempt last next (some (legacy objects)) =
    deliver_proven network attempt last next (insert_proof proof ref objects)
deliver_built network proof ref attempt last next (some (versioned message)) =
    delivers (versioned message) (ends (answered (network.deliver attempt (versioned message))))

abbrev pub built_on : Network → Option (List ℕ) → Option Built
built_on network none = none
built_on network (some recent_blockhash) = network.build recent_blockhash

abbrev is_zero : ℕ → Bool
is_zero zero = true
is_zero (suc n) = false

-- The loop, with the number of attempts left.
unfoldable pub attempts : Network → (proof : List Object) → (ref left attempt : ℕ) → Sent
attempts network proof ref zero attempt = ends (err transaction_expired)
attempts network proof ref (suc left) attempt =
    let next = attempts network proof ref left (attempt + 1) in
    deliver_built network proof ref attempt (is_zero left) next
      (built_on network (network.blockhash attempt))

abbrev pub max_blockhash_retries : ℕ
max_blockhash_retries = 2

pub record Env : Type 0 where
  pub keys : KeyText
  pub memory : Memory
  pub ids : Ids
  pub now_ms : ℕ
  pub guard : List ℕ
  pub policy : List ℕ
  pub expiry_ttl_sec : Option ℕ
  pub public_key : Option (List ℕ)
  pub probe : Option Logs.Transaction
  pub chain : Chain
  pub accounts : Accounts
  pub accounts_after : Accounts
  pub format_sol : ℕ → List ℕ
  pub register : IntentPreview → Result (List ℕ) (Unit {0})
  pub confirm : TranaIntent → Option (List ℕ) → Result (List ℕ) (Unit {0})
  pub approve : TranaIntent → Result (List ℕ) ApprovalResult

-- `build_intent` gives `none` where it throws.
pub record Args : Type 0 where
  pub instruction : Object
  pub label : Option (List ℕ)
  pub build_intent : Option (Option IntentInput)

unfoldable pub resolve_intent_input : Args → Result SendError IntentInput
resolve_intent_input args = elim (args.build_intent) [
  | none ↦ ok (intent_from_instruction args.instruction.instruction args.label)
  | some built ↦ or_throw built thrown
]

abbrev amount_of : (ℕ → List ℕ) → Option (List ℕ) → Option (List ℕ)
amount_of format none = none
amount_of format (some params) = Option.map format (decode_params_u64 params)

abbrev pub preview_of : Env → IntentInput → (policy : List ℕ) → IntentPreview
preview_of env input policy = record {
  label = input.label;
  amount_sol = amount_of env.format_sol input.params;
  policy = policy;
}

unfoldable pub register_first :
    Env → Args → (wallet policy : List ℕ) → Result SendError RegistryState
register_first env args wallet policy = do
  input ← resolve_intent_input args
  done ← map_err rejected (env.register (preview_of env input policy))
  found ← or_throw (fetch_registry env.accounts_after wallet env.guard) thrown
  or_throw found registry_not_found

-- The registry that was read, or the one after a registration.
unfoldable pub ensure_registry :
    Env
    → Args
    → (wallet policy : List ℕ) → TranaErrorKind
    → Option RegistryState
    → Result SendError RegistryState
ensure_registry env args wallet policy missing_proof (some registry) = ok registry
ensure_registry env args wallet policy reason found = register_first env args wallet policy

-- What the send loop starts from: no proof needed, or the intent and the two instructions.
pub record Proven : Type 0 where
  pub intent : TranaIntent
  pub approval : ApprovalResult
  pub registry : RegistryState
  pub secp256r1_ix : Instruction
  pub record_proof_ix : Instruction

pub data Preparation : Type 0 where
  direct : Preparation
  proven : Proven → Preparation

abbrev pub intent_for : Env → (wallet policy : List ℕ) → RegistryState → IntentInput → TranaIntent
intent_for env wallet policy registry input =
    build_intent env.keys wallet env.guard (record input { policy = some policy }) registry.nonce
      (record { policy = policy; expiry_ttl_sec = env.expiry_ttl_sec }) env.now_ms

unfoldable pub on_detection :
    Env → Args → (wallet : List ℕ) → DetectionResult → Result SendError Preparation
on_detection env args wallet not_needed = ok direct
on_detection env args wallet (needed reason policy) = do
  found ← or_throw (fetch_registry env.accounts wallet env.guard) thrown
  registry ← ensure_registry env args wallet policy reason found
  input ← resolve_intent_input args
  done ← map_err rejected (env.confirm (intent_for env wallet policy registry input) input.label)
  approval ← map_err rejected (env.approve (intent_for env wallet policy registry input))
  secp256r1_ix ←
      or_throw
        (build_secp256r1_ix env.memory env.ids registry.pubkey approval.sig
          (build_webauthn_message approval.authenticator_data approval.client_data_json))
        thrown
  ok (
      proven (record {
        intent = intent_for env wallet policy registry input;
        approval = approval;
        registry = registry;
        secp256r1_ix = secp256r1_ix;
        record_proof_ix =
            build_record_proof_ix env.ids env.guard approval.authenticator_data
              approval.client_data_json (intent_for env wallet policy registry input).expiry_unix
              (intent_for env wallet policy registry input).policy_id;
      }))

unfoldable pub prepare : Env → Args → Result SendError Preparation
prepare env args = do
  wallet ← or_throw env.public_key wallet_not_connected
  probe ← or_throw env.probe thrown
  detection ← or_throw (detect_enforcement env.chain probe wallet env.guard env.policy) thrown
  on_detection env args wallet detection

-- `walletSend` of a fresh transaction without a proof.
unfoldable pub send_directly : Network → Option Built → Sent
send_directly network none = ends (err thrown)
send_directly network (some tx) = delivers tx (ends (answered (network.deliver 0 tx)))

-- The two new instruction objects have identities of their own.
unfoldable pub send_prepared : Network → Args → (fresh : ℕ) → Result SendError Preparation → Sent
send_prepared network args fresh (err e) = ends (err e)
send_prepared network args fresh (ok direct) =
    send_directly network (built_on network (network.blockhash 0))
send_prepared network args fresh (ok (proven p)) =
    attempts network
      (record { ref = fresh; instruction = p.secp256r1_ix }
        ∷ record { ref = fresh + 1; instruction = p.record_proof_ix }
        ∷ [])
      args.instruction.ref max_blockhash_retries 0

unfoldable pub authorize_and_send : Env → Network → Args → (fresh : ℕ) → Sent
authorize_and_send env network args fresh = send_prepared network args fresh (prepare env args)
