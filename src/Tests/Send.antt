-- ===== src/Tests/Send.antt =====
-- The send flow, on concrete input.
use trana.Prelude.{
  ℕ, ◌≡◌, refl, arith, List, [], ◌∷◌, ◌++◌, none, some, if◌then◌else◌, ◌==◌, length, replicate,
  codes,
}
use trana.Prelude.Result.{ok}
use trana.Types.{Instruction}
use trana.Intent
use trana.Secp256r1.{build_secp256r1_ix, build_record_proof_ix, build_webauthn_message}
use trana.Secp256r1.Layout.{precompile_reads_back, build_webauthn_message_lem}
use trana.React.Hub.{ApprovalResult}
use trana.React.Intent.{intent_from_instruction}
use trana.React.Send.{Object, legacy, Network, exception, signature, attempts}
use trana.React.Send.Delivery.{IsDelivery, attempts-IsDelivery}
use trana.React.Send.{
  Env, Args, Proven, proven, prepare, on_detection, ensure_registry, resolve_intent_input,
  intent_for,
}
use trana.React.Logs
use trana.React.Registry.{Accounts, fetch_registry, fetched}
use trana.React.Registry.Layout.{documented, parse_registry_account-documented}
use trana.Bytes.{le_bytes}
use trana.Prelude.{ap, length-append}
use trana.Sha256.{sha256_bytes}
use trana.Sha256.Shape.{sha256_bytes_shape}
use trana.Tests.{
  plain_keys, dirty_memory, ids, wallet, guard_id, withdraw, compressed_key, low_half,
}
use trana.Tests.React.{registry_state, chain, detected}

abbrev object_at : ℕ → Object
object_at ref = record { ref = ref; instruction = withdraw }

-- The first delivery meets an expired blockhash.
abbrev network : Network
network = record {
  blockhash = λ attempt. some (replicate 32 attempt);
  build = λ recent_blockhash. some (legacy (object_at 1 ∷ object_at 2 ∷ object_at 3 ∷ []));
  deliver = λ attempt tx.
      if attempt == 0 then exception (codes "Blockhash not found") else signature (7 ∷ []);
}

abbrev proof : List Object
proof = object_at 8 ∷ object_at 9 ∷ []

attempts-IsDelivery_example : IsDelivery proof 2 2 (attempts network proof 2 2 0)
attempts-IsDelivery_example = attempts-IsDelivery network proof 2 1 0

abbrev approval : ApprovalResult
approval = record {
  sig = low_half ++ low_half;
  authenticator_data = replicate 37 1;
  client_data_json = codes "{}";
}

abbrev accounts : Accounts
accounts = record {
  account_data = λ pda. some (some (documented (replicate 8 1) 0 registry_state));
  find_program_address = λ seeds program. program;
}

abbrev pub env : Env
env = record {
  keys = plain_keys;
  memory = dirty_memory;
  ids = ids;
  now_ms = 1000000;
  guard = guard_id;
  policy = codes "trana.require";
  expiry_ttl_sec = none;
  public_key = some wallet;
  probe = some (Logs.legacy (guard_id ∷ []));
  chain = chain;
  accounts = accounts;
  accounts_after = accounts;
  format_sol = λ amount. [];
  register = λ preview. ok tt;
  confirm = λ intent label. ok tt;
  approve = λ intent. ok approval;
}

abbrev pub args : Args
args = record { instruction = object_at 2; label = none; build_intent = none }

registry_read : fetch_registry accounts wallet guard_id ≡ some (some registry_state)
unfolding fetch_registry fetched le_bytes
registry_read =
    rw
      (parse_registry_account-documented (replicate 8 1) 0 registry_state refl refl (omega arith)
        (omega arith) (omega arith))
      refl

abbrev webauthn_message : List ℕ
webauthn_message = build_webauthn_message approval.authenticator_data approval.client_data_json

pub written :
    (ix : Instruction) × (build_secp256r1_ix dirty_memory ids compressed_key approval.sig
        webauthn_message
      ≡ some ix)
written =
    let (ix, e, _, _, _) =
      precompile_reads_back dirty_memory ids compressed_key approval.sig webauthn_message refl refl
        (omega (
          arith,
          ap length
              (build_webauthn_message_lem approval.authenticator_data approval.client_data_json),
          length-append approval.authenticator_data (sha256_bytes approval.client_data_json),
          (sha256_bytes_shape approval.client_data_json).0,
        )) in
    (ix, e)

abbrev pub intent : Intent.TranaIntent
intent =
    intent_for env wallet (codes "trana.limit") registry_state
      (intent_from_instruction withdraw none)

abbrev pub prepared : Proven
prepared = record {
  intent = intent;
  approval = approval;
  registry = registry_state;
  secp256r1_ix = written.0;
  record_proof_ix =
      build_record_proof_ix ids guard_id approval.authenticator_data approval.client_data_json
        intent.expiry_unix intent.policy_id;
}

pub prepares : prepare env args ≡ ok (proven prepared)
unfolding prepare on_detection ensure_registry resolve_intent_input
prepares = rw detected (rw registry_read (rw (written.1) refl))
