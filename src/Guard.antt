-- ===== src/Guard.antt =====
-- packages/sdk/src/guard/client.ts: the client of the guard program. The chain (RPC), Anchor's
-- instruction builders and address derivation, and the clock are parameters.
pub mod Proof
use trana.Prelude.{ℕ, List, [], ◌∷◌, Option, none, some, codes}
use trana.Prelude.{if◌then◌else◌}
use trana.Prelude.Equality.{same}
use trana.Prelude.Result.{Result, ok, err, ◌>>=◌, or_throw, map_err}
use trana.Types.{
  KeyText, Instruction, Cluster, devnet, guard_program_id, PasskeyHandle, Policy, policy_id,
}
use trana.Intent.{IntentConfig, TranaIntent, build_intent, hash_intent, intent_from_instruction}
use trana.Secp256r1.{Memory, Ids, build_secp256r1_ix, build_webauthn_message, build_record_proof_ix}
use trana.Webauthn
use trana.Webauthn.{Navigator, register_passkey, sign_intent}
use mathlib.Core.Option.{get_or}

-- The accounts of the guard program, as Anchor decodes them.
pub record PasskeyEntry : Type 0 where
  pub pubkey_bytes : List ℕ
  pub credential_id : List ℕ

pub record Registry : Type 0 where
  pub owner : List ℕ
  pub nonce : ℕ
  pub keys : List PasskeyEntry

pub record Config : Type 0 where
  pub treasury : List ℕ

-- What the client reaches through web3.js and Anchor. A fetch is `none` where it throws; the registry
-- is read twice by `buildProof`, and the chain may have moved on in between.
pub record Host : Type 0 where
  pub keys : KeyText
  pub memory : Memory
  pub ids : Ids
  pub navigator : Navigator
  pub random_32 : List ℕ
  pub now_ms : ℕ
  pub find_program_address : (seeds : List (List ℕ)) → (program : List ℕ) → List ℕ
  pub fetch_nonce_registry : (pda : List ℕ) → Option Registry
  pub fetch_registry : (pda : List ℕ) → Option Registry
  pub fetch_config : (pda : List ℕ) → Option Config
  pub register_passkey_ix :
      (program owner treasury pubkey_bytes credential_id : List ℕ) → Instruction

-- The errors that the client throws, those of the WebAuthn layer, and any other exception.
pub data ClientError : Type 0 where
  config_not_initialized no_registry credential_not_in_registry not_deployed thrown : ClientError
  webauthn : Webauthn.Error → ClientError

unfoldable pub resolved_program_id : KeyText → Cluster → Result ClientError (List ℕ)
resolved_program_id keys cluster = do
  text ← or_throw (guard_program_id cluster) not_deployed
  or_throw (keys.of_base58 text) thrown

-- `program` is the address that the instructions of the Anchor program carry.
pub record Client : Type 0 where
  pub program_id : List ℕ
  pub cluster : Cluster
  pub program : List ℕ

unfoldable pub new_client :
    KeyText
    → (program_id : Option (List ℕ)) → (cluster : Option Cluster) → Result ClientError Client
new_client keys (some id) cluster =
    ok (record { program_id = id; cluster = get_or cluster devnet; program = id })
new_client keys none cluster = do
  id ← resolved_program_id keys (get_or cluster devnet)
  ok (record { program_id = id; cluster = get_or cluster devnet; program = id })

unfoldable pub registry_pda : Host → Client → (owner : List ℕ) → List ℕ
registry_pda host client owner =
    host.find_program_address (codes "passkey" ∷ owner ∷ []) client.program_id

unfoldable pub config_pda : Host → Client → List ℕ
config_pda host client = host.find_program_address (codes "config" ∷ []) client.program_id

unfoldable pub fetch_registry : Host → Client → (owner : List ℕ) → Option Registry
fetch_registry host client owner = host.fetch_registry (registry_pda host client owner)

unfoldable pub fetch_config : Host → Client → Option Config
fetch_config host client = host.fetch_config (config_pda host client)

pub record RegisterPasskeyResult : Type 0 where
  pub instruction : Instruction
  pub handle : PasskeyHandle

unfoldable pub register_passkey_result :
    Host
    → Client
    → (owner rp_id user_display_name : List ℕ) → Result ClientError RegisterPasskeyResult
register_passkey_result host client owner rp_id user_display_name = do
  config ← or_throw (fetch_config host client) config_not_initialized
  handle ←
      map_err webauthn
        (register_passkey host.navigator host.random_32 rp_id owner user_display_name)
  ok (record {
    instruction =
        host.register_passkey_ix client.program owner config.treasury handle.pubkey_bytes
          handle.credential_id;
    handle = handle;
  })

unfoldable pub fetch_nonce : Host → Client → (owner : List ℕ) → Result ClientError ℕ
fetch_nonce host client owner = do
  registry ← or_throw (host.fetch_nonce_registry (registry_pda host client owner)) no_registry
  ok registry.nonce

-- `args.nonce ?? await this.fetchNonce(owner)`
abbrev pub nonce_or_fetch : Host → Client → (owner : List ℕ) → Option ℕ → Result ClientError ℕ
nonce_or_fetch host client owner none = fetch_nonce host client owner
nonce_or_fetch host client owner (some nonce) = ok nonce

-- `registry.keys.find(k => k.credentialId.equals(credentialId))`
unfoldable pub find_entry : List ℕ → List PasskeyEntry → Option PasskeyEntry
find_entry credential_id [] = none
find_entry credential_id (k ∷ keys) =
    if same k.credential_id credential_id then some k else find_entry credential_id keys

pub record ProofArgs : Type 0 where
  pub protected_ix : Instruction
  pub owner : List ℕ
  pub credential_id : List ℕ
  pub policy : Policy
  pub rp_id : List ℕ
  pub nonce : Option ℕ
  pub expiry_ttl_sec : Option ℕ

pub record BuildProofResult : Type 0 where
  pub secp256r1_ix : Instruction
  pub record_proof_ix : Instruction

abbrev pub proof_config : ProofArgs → IntentConfig
proof_config args = record {
  policy = policy_id args.policy;
  expiry_ttl_sec = some (get_or args.expiry_ttl_sec 120);
}

abbrev pub proof_intent : Host → Client → ProofArgs → ℕ → TranaIntent
proof_intent host client args nonce =
    build_intent host.keys args.owner client.program_id (intent_from_instruction args.protected_ix)
      nonce (proof_config args) host.now_ms

unfoldable pub build_proof : Host → Client → ProofArgs → Result ClientError BuildProofResult
build_proof host client args = do
  nonce ← nonce_or_fetch host client args.owner args.nonce
  registry ← or_throw (fetch_registry host client args.owner) no_registry
  challenge ← or_throw (hash_intent host.keys (proof_intent host client args nonce)) thrown
  signed ←
      map_err webauthn (sign_intent host.navigator challenge (some args.credential_id) args.rp_id)
  entry ← or_throw (find_entry args.credential_id registry.keys) credential_not_in_registry
  secp256r1_ix ←
      or_throw
        (build_secp256r1_ix host.memory host.ids entry.pubkey_bytes signed.signature
          (build_webauthn_message signed.authenticator_data signed.client_data_json))
        thrown
  ok (record {
    secp256r1_ix = secp256r1_ix;
    record_proof_ix =
        build_record_proof_ix host.ids client.program_id signed.authenticator_data
          signed.client_data_json (proof_intent host client args nonce).expiry_unix
          (proof_intent host client args nonce).policy_id;
  })
