-- ===== src/Tests/Clients.antt =====
-- The two clients, on a concrete chain and browser.
use trana.Prelude.{◌≢◌}
use trana.Prelude.{
  ℕ, ◌+◌, ◌/◌, ◌^◌, ◌<◌, ◌≡◌, refl, arith, List, [], ◌∷◌, ◌++◌, Option, none, some, All, length,
  length-append, replicate, codes,
}
use trana.Prelude.Result.{ok}
use trana.Types.{Instruction, devnet, require, policy_id}
use trana.Bytes.Utf8.{utf8}
use trana.Sha256.{sha256_bytes}
use trana.Sha256.Shape.{sha256_bytes_shape}
use trana.Webauthn.Ceremony.{length-sign_intent}
use mathlib.Core.Path.{subst}
use trana.Prelude.{ap}
use trana.Intent.{hash_intent}
use trana.Intent.Build.{hash_intent_binds}
use trana.Secp256r1.{build_secp256r1_ix, build_record_proof_ix, build_webauthn_message}
use trana.Secp256r1.Layout.{precompile_reads_back, build_webauthn_message_lem}
use trana.Guard
use trana.Guard.{
  proof_config, find_entry, fetch_nonce, Host, Client, Registry, ProofArgs, BuildProofResult,
  proof_intent, build_proof,
}
use trana.Guard.Proof.{IsSane, IsConsistent, build_proof-IsConsistent}
use trana.Authority
use trana.Authority.{
  Anchor, Call, new_client, register_ix, execute_upgrade_ix, reclaim_authority_ix,
}
use trana.Authority.Address.{instructions_address_idl}
use trana.Tests.{
  plain_keys, dirty_memory, ids, wallet, guard_id, withdraw, compressed_key, low_half,
}
use trana.Tests.Signing.{navigator, assertion, signed}

abbrev registry : Registry
registry = record {
  owner = wallet;
  nonce = 5;
  keys =
      record { pubkey_bytes = 3 ∷ replicate 32 8; credential_id = 9 ∷ [] }
      ∷ record { pubkey_bytes = compressed_key; credential_id = 1 ∷ 2 ∷ [] }
      ∷ [];
}

abbrev host : Host
host = record {
  keys = plain_keys;
  memory = dirty_memory;
  ids = ids;
  navigator = navigator;
  random_32 = replicate 32 0;
  now_ms = 1000000;
  find_program_address = λ seeds program. program;
  fetch_nonce_registry = λ pda. some registry;
  fetch_registry = λ pda. some registry;
  fetch_config = λ pda. none;
  register_passkey_ix = λ program owner treasury pubkey_bytes credential_id. withdraw;
}

abbrev client : Client
client = record { program_id = guard_id; cluster = devnet; program = guard_id }

abbrev args : ProofArgs
args = record {
  protected_ix = withdraw;
  owner = wallet;
  credential_id = 1 ∷ 2 ∷ [];
  policy = require;
  rp_id = codes "localhost";
  nonce = none;
  expiry_ttl_sec = none;
}

host-IsSane : IsSane host
host-IsSane = record {
  keys_33 = λ pda r e.
      let same : registry ≡ r = cc in
      subst (λ r. All (λ k. length k.pubkey_bytes ≡ 33) r.keys) same (refl, (refl, tt));
  short_answers = λ options a e.
      let same : assertion ≡ a = cc in
      subst (λ a. (length a.authenticator_data + 32 < 65536) × (length a.client_data_json < 2 ^ 32))
        same (omega arith, omega arith);
}

policy_short : length (utf8 (policy_id require)) < 65536
unfolding utf8 policy_id
policy_short = omega arith

hashed :
    (challenge : List ℕ) × (hash_intent plain_keys (proof_intent host client args 5)
      ≡ some challenge)
hashed =
    let (bytes, e, _) =
      hash_intent_binds plain_keys wallet guard_id withdraw 5 (proof_config args) 1000000 refl refl
        refl (omega arith) (omega arith) policy_short (omega arith) (omega arith) in
    (sha256_bytes bytes, e)

abbrev challenge : List ℕ
challenge = hashed.0

abbrev signature : List ℕ
signature = low_half ++ (signed challenge).0

abbrev webauthn_message : List ℕ
webauthn_message = build_webauthn_message assertion.authenticator_data assertion.client_data_json

message_short : length webauthn_message < 65536
message_short = omega (
  arith,
  ap length (build_webauthn_message_lem assertion.authenticator_data assertion.client_data_json),
  length-append assertion.authenticator_data (sha256_bytes assertion.client_data_json),
  (sha256_bytes_shape assertion.client_data_json).0,
)

signature_64 : length signature ≡ 64
signature_64 =
    length-sign_intent navigator challenge (codes "localhost") (some (1 ∷ 2 ∷ []))
      (record {
        authenticator_data = assertion.authenticator_data;
        client_data_json = assertion.client_data_json;
        signature = signature;
        credential_id = assertion.raw_id;
      })
      (signed challenge).1

written :
    (ix : Instruction) × (build_secp256r1_ix dirty_memory ids compressed_key signature
        webauthn_message
      ≡ some ix)
written =
    let (ix, e, _, _, _) =
      precompile_reads_back dirty_memory ids compressed_key signature webauthn_message refl
        signature_64 message_short in
    (ix, e)

abbrev out : BuildProofResult
out = record {
  secp256r1_ix = written.0;
  record_proof_ix =
      build_record_proof_ix ids guard_id assertion.authenticator_data assertion.client_data_json
        (proof_intent host client args 5).expiry_unix (proof_intent host client args 5).policy_id;
}

built : build_proof host client args ≡ ok out
unfolding build_proof Guard.fetch_registry fetch_nonce find_entry trana.Prelude.Equality.same
built = rw (hashed.1) (rw ((signed challenge).1) (rw (written.1) refl))

build_proof-IsConsistent_example : IsConsistent host client args out
build_proof-IsConsistent_example =
    build_proof-IsConsistent host client args out host-IsSane (omega arith) built

abbrev anchor : Anchor
anchor = record {
  AuthorityRecord = ℕ;
  idl_address = replicate 32 11;
  build = λ program call. record { program_id = program; keys = []; payload = [] };
  find_program_address = λ seeds program. program;
  fetch_record = λ pda. none;
}

abbrev authority_client : Authority.Client
authority_client = record { program_id = guard_id; cluster = devnet; program = replicate 32 11 }

made : new_client anchor plain_keys (some guard_id) none ≡ ok authority_client
unfolding new_client
made = refl

others : guard_id ≢ replicate 32 11
others e = cc

instructions_address_idl_example :
    All
      (λ ix. (ix.program_id ≡ anchor.idl_address) × (ix.program_id ≢ authority_client.program_id))
      (register_ix anchor authority_client wallet guard_id
        ∷ execute_upgrade_ix anchor authority_client wallet guard_id (1 ∷ []) (2 ∷ []) (3 ∷ [])
        ∷ reclaim_authority_ix anchor authority_client wallet guard_id (1 ∷ []) (4 ∷ [])
        ∷ [])
    × (Authority.record_pda anchor authority_client wallet guard_id ≡ guard_id)
instructions_address_idl_example =
    instructions_address_idl anchor plain_keys guard_id none authority_client made
      (λ program c. refl) others wallet guard_id (1 ∷ []) (2 ∷ []) (3 ∷ []) (4 ∷ [])
