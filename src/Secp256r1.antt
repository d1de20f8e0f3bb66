-- ===== src/Secp256r1.antt =====
-- packages/sdk/src/core/secp256r1.ts: the two instructions that stand before a protected one.
pub mod Layout
pub mod RecordProof
use trana.Prelude.{ℕ, ◌+◌, ◌≡◌, List, [], ◌∷◌, ◌++◌, Option, none, some, false}
use trana.Prelude.{length, take, replicate, codes}
use trana.Bytes.{le_bytes, write_each, put, ◌>>=◌}
use trana.Bytes.Utf8.{utf8}
use trana.Sha256.{sha256_bytes}
use trana.Types.{Instruction, KeyText}

-- `Buffer.allocUnsafe(n)`: a buffer of `n` bytes whose contents are whatever memory held.
pub record Memory : Type 0 where
  pub alloc_unsafe : ℕ → List ℕ
  pub length-alloc_unsafe : (n : ℕ) → length (alloc_unsafe n) ≡ n

-- The ids of programs and sysvars that the SDK names by their base58 text.
pub record Ids : Type 0 where
  pub secp256r1_program_id : List ℕ
  pub sysvar_instructions : List ℕ

abbrev pubkey_off : ℕ
pubkey_off = 16

abbrev sig_off : ℕ
sig_off = 49

abbrev msg_off : ℕ
msg_off = 113

-- The writes of `buildSecp256r1Ix` in program order, each with its offset.
unfoldable pub secp256r1_writes : List ℕ → List ℕ → List ℕ → List (ℕ × List ℕ)
secp256r1_writes pubkey sig message =
    (0, 1 ∷ [])
    ∷ (1, 0 ∷ [])
    ∷ (2, le_bytes 2 sig_off)
    ∷ (4, le_bytes 2 0xffff)
    ∷ (6, le_bytes 2 pubkey_off)
    ∷ (8, le_bytes 2 0xffff)
    ∷ (10, le_bytes 2 msg_off)
    ∷ (12, le_bytes 2 (length message))
    ∷ (14, le_bytes 2 0xffff)
    ∷ (pubkey_off, pubkey)
    ∷ (sig_off, sig)
    ∷ (msg_off, message)
    ∷ []

-- `none` is the RangeError of a key or signature that runs past the end of the buffer.
unfoldable pub build_secp256r1_ix :
    Memory → Ids → (pubkey sig message : List ℕ) → Option Instruction
build_secp256r1_ix memory ids pubkey sig message = do
  bytes ←
      write_each (secp256r1_writes pubkey sig message)
        (memory.alloc_unsafe (msg_off + length message))
  some (record { program_id = ids.secp256r1_program_id; keys = []; payload = bytes })

unfoldable pub build_webauthn_message : (authenticator_data client_data_json : List ℕ) → List ℕ
build_webauthn_message authenticator_data client_data_json =
    let combined = replicate (length authenticator_data + 32) 0 in
    let with_auth = put combined 0 authenticator_data in
    put with_auth (length authenticator_data) (sha256_bytes client_data_json)

-- A Borsh `Vec<u8>`, and a Borsh `String` by its UTF-8 bytes.
unfoldable pub borsh_bytes : List ℕ → List ℕ
borsh_bytes b = le_bytes 4 (length b) ++ b

unfoldable pub borsh_str : List ℕ → List ℕ
borsh_str s = borsh_bytes (utf8 s)

-- The Anchor discriminator of `record_proof`.
unfoldable pub record_proof_disc : List ℕ
record_proof_disc = take 8 (sha256_bytes (utf8 (codes "global:record_proof")))

unfoldable pub build_record_proof_ix :
    Ids
    → (guard authenticator_data client_data_json : List ℕ) → (expiry_unix : ℕ) → (policy : List ℕ)
    → Instruction
build_record_proof_ix ids guard authenticator_data client_data_json expiry_unix policy = record {
  program_id = guard;
  keys = record { pubkey = ids.sysvar_instructions; is_signer = false; is_writable = false } ∷ [];
  payload =
      record_proof_disc
      ++ (1
          ∷ (le_bytes 8 expiry_unix
              ++ (borsh_str policy
                  ++ (borsh_bytes authenticator_data ++ borsh_bytes client_data_json))));
}
