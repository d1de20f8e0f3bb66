-- ===== src/Tests/Core.antt =====
-- The intent, its bytes, the two instructions and the hash, on concrete input.
use trana.Prelude.{ℕ, ◌+◌, ◌%◌, ◌<◌, ◌≡◌, refl, arith, List, ◌++◌, some, length, replicate, codes}
use trana.Bytes.Utf8.{utf8}
use trana.Sha256.{sha256_bytes, padded}
use trana.Prelude.{◌<◌, ◌++◌, ◌∷◌}
use trana.Bytes.{be_bytes}
use trana.Sha256.Padding.{zeros}
use trana.Sha256.Unpad.{unpad, unpad-padded}
use trana.Types.{Instruction}
use trana.Intent.{Bound, hash_intent, build_intent, intent_from_instruction, payload}
use trana.Intent.Payload.{read_payload, Fits, read_payload-payload}
use trana.Intent.Build.{approved, hash_intent_binds}
use trana.Secp256r1.{build_secp256r1_ix}
use trana.Secp256r1.Layout.{read_verify, precompile_reads_back}
use trana.Tests.{
  plain_keys, dirty_memory, ids, wallet, guard_id, withdraw, config, compressed_key, low_half,
  message,
}

policy_short : length (utf8 (codes "trana.require")) < 65536
unfolding utf8
policy_short = omega arith

hash_intent_binds_example :
    (bytes : List ℕ) × (hash_intent plain_keys (
        build_intent plain_keys wallet guard_id (intent_from_instruction withdraw) 5 config 1000000)
      ≡ some (sha256_bytes bytes))
    × (read_payload bytes ≡ some (approved wallet guard_id withdraw 5 config 1000000))
hash_intent_binds_example =
    hash_intent_binds plain_keys wallet guard_id withdraw 5 config 1000000 refl refl refl
      (omega arith) (omega arith) policy_short (omega arith) (omega arith)

abbrev bound : Bound
bound = record {
  version = 1;
  domain = codes "trana:v1";
  wallet = wallet;
  guard = guard_id;
  target = replicate 32 3;
  policy = codes "trana.limit";
  discriminator = replicate 8 4;
  accounts = replicate 32 5;
  params = replicate 32 6;
  nonce = 70000;
  expiry = 1700000000;
}

bound-Fits : Fits bound
bound-Fits = record {
  version = omega arith;
  domain = omega arith;
  wallet = refl;
  guard = refl;
  target = refl;
  policy = omega arith;
  discriminator = refl;
  accounts = refl;
  params = refl;
  nonce = omega arith;
  expiry = omega arith;
}

read_payload-payload_example : read_payload (payload bound) ≡ some bound
read_payload-payload_example = read_payload-payload bound bound-Fits

precompile_reads_back_example :
    (ix : Instruction) × (build_secp256r1_ix dirty_memory ids compressed_key
        (low_half ++ low_half)
        message
      ≡ some ix)
    × (ix.program_id ≡ ids.secp256r1_program_id)
    × (length ix.payload ≡ 113 + length message)
    × (read_verify ix.payload
        ≡ some (record {
          signature = low_half ++ low_half;
          public_key = compressed_key;
          message = message;
        }))
precompile_reads_back_example =
    precompile_reads_back dirty_memory ids compressed_key (low_half ++ low_half) message refl refl
      (omega arith)

unpad-padded_example :
    (length (padded (codes "abc")) % 64 ≡ 0)
    × (unpad (padded (codes "abc")) ≡ codes "abc")
    × ((z : ℕ) × (z < 64)
        × (padded (codes "abc")
            ≡ codes "abc" ++ (0x80 ∷ (zeros z ++ (be_bytes 4 0 ++ be_bytes 4 24)))))
unpad-padded_example = unpad-padded (codes "abc") (omega arith)
