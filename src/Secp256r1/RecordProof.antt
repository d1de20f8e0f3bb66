-- ===== src/Secp256r1/RecordProof.antt =====
-- buildRecordProofIx of packages/sdk/src/core/secp256r1.ts against a Borsh reader of the guard's
-- arguments.
use trana.Prelude.{ℕ, ◌^◌, ◌<◌, ◌≡◌, refl, ◌∙◌, arith}
use trana.Prelude.{List, [], ◌∷◌, ◌++◌, Option, some, length, append-nil, append_assoc, length-take}
use trana.Bytes.{le_bytes, le_value, split_at, sized, finish, ◌>>=◌}
use trana.Bytes.Endian.{length-le_bytes, le_value-le_bytes, split_at-append, sized-append}
use trana.Bytes.Utf8.{utf8}
use trana.Sha256.{sha256_bytes}
use trana.Sha256.Shape.{sha256_bytes_shape}
use trana.Secp256r1.{Ids, borsh_bytes, borsh_str, record_proof_disc, build_record_proof_ix}

-- The arguments of `record_proof`, as the guard program declares them.
pub record ProofData : Type 0 where
  pub discriminator : List ℕ
  pub version : ℕ
  pub expiry : ℕ
  pub policy : List ℕ
  pub authenticator_data : List ℕ
  pub client_data_json : List ℕ

-- Borsh, front to back: an 8-byte discriminator, u8, i64, String, Vec<u8>, Vec<u8>, and no more.
unfoldable pub read_proof : List ℕ → Option ProofData
read_proof bytes = do
  (disc, r1) ← split_at 8 bytes
  (version, r2) ← split_at 1 r1
  (expiry, r3) ← split_at 8 r2
  (policy, r4) ← sized 4 r3
  (authenticator_data, r5) ← sized 4 r4
  (client_data_json, r6) ← sized 4 r5
  finish r6 (record {
    discriminator = disc;
    version = le_value version;
    expiry = le_value expiry;
    policy = policy;
    authenticator_data = authenticator_data;
    client_data_json = client_data_json;
  })

length-record_proof_disc : length record_proof_disc ≡ 8
unfolding record_proof_disc
length-record_proof_disc =
    length-take 8 (sha256_bytes _) ∙ omega (arith, (sha256_bytes_shape (utf8 _)).0)

pub sized-borsh_bytes :
    (xs ys : List ℕ) → length xs < 2 ^ 32 → sized 4 (borsh_bytes xs ++ ys) ≡ some (xs, ys)
unfolding borsh_bytes
sized-borsh_bytes xs ys h =
    rw (append_assoc (le_bytes 4 (length xs)) xs ys) (sized-append 4 xs ys h)

-- The guard reads from the data carrier exactly the version 1, the expiry, the policy and the two
-- WebAuthn byte strings that the SDK put in, for an expiry below 2 ^ 64 and strings below 2 ^ 32 bytes.
pub read_proof-build_record_proof_ix :
    (ids : Ids) (guard authenticator_data client_data_json : List ℕ) (expiry : ℕ) (policy : List ℕ)
    → expiry < 2 ^ 64
    → length (utf8 policy) < 2 ^ 32
    → length authenticator_data < 2 ^ 32
    → length client_data_json < 2 ^ 32
    → read_proof
        (build_record_proof_ix ids guard authenticator_data client_data_json expiry policy).payload
      ≡ some (record {
        discriminator = record_proof_disc;
        version = 1;
        expiry = expiry;
        policy = utf8 policy;
        authenticator_data = authenticator_data;
        client_data_json = client_data_json;
      })
unfolding read_proof build_record_proof_ix borsh_str
read_proof-build_record_proof_ix ids guard auth client expiry policy soon short_policy short_auth
      short_client =
    rw (split_at-append record_proof_disc _ 8 length-record_proof_disc) (
      rw (split_at-append (1 ∷ []) _ 1 refl) (
        rw (split_at-append (le_bytes 8 expiry) _ 8 (length-le_bytes 8 expiry)) (
          rw (sized-borsh_bytes (utf8 policy) _ short_policy) (
            rw (sized-borsh_bytes auth _ short_auth) (
              rw (← append-nil (borsh_bytes client), sized-borsh_bytes client [] short_client)
                (rw (le_value-le_bytes 8 expiry soon) (unfold le_value in refl)))))))
