-- ===== src/Secp256r1/Layout.antt =====
-- buildSecp256r1Ix of packages/sdk/src/core/secp256r1.ts against a reader of the layout of SIMD-0075.
use trana.Prelude.{ℕ, ◌+◌, ◌/◌, ◌%◌, ◌<◌, ◌≡◌, refl, sym, ap, ◌∙◌, arith}
use trana.Prelude.{
  List, [], ◌∷◌, ◌++◌, Option, none, some, length, length-append, append-nil, drop, Bool, ◌&&◌,
}
use trana.Prelude.{
  if◌then◌else◌, ◌==◌, take-append, drop-append, drop-drop, take-all, replicate, length-replicate,
  replicate-add, zero,
}
use trana.Bytes.{le_bytes, le_value, slice, put}
use trana.Bytes.Writes.{Contiguous, written, write_each-written, put_middle}
use trana.Sha256.{sha256_bytes}
use trana.Sha256.Shape.{sha256_bytes_shape}
use trana.Types.{Instruction}
use trana.Secp256r1.{Memory, Ids, secp256r1_writes, build_secp256r1_ix, build_webauthn_message}

-- What the precompile takes from an instruction with one signature whose three instruction indices name
-- the instruction itself: the bytes at the offsets that the header gives.
pub record Verify : Type 0 where
  pub signature : List ℕ
  pub public_key : List ℕ
  pub message : List ℕ

abbrev u16_at : List ℕ → ℕ → ℕ
u16_at bytes offset = le_value (slice bytes offset (offset + 2))

-- An instruction index of 0xFFFF: the part is in this very instruction.
abbrev is_here : List ℕ → (offset : ℕ) → Bool
is_here bytes offset = u16_at bytes offset == 0xffff

unfoldable pub read_verify : List ℕ → Option Verify
read_verify bytes =
    let sig_at = u16_at bytes 2 in
    let key_at = u16_at bytes 6 in
    let msg_at = u16_at bytes 10 in
    let msg_size = u16_at bytes 12 in
    if le_value (slice bytes 0 1) == 1 && is_here bytes 4 && is_here bytes 8 && is_here bytes 14
    then some (record {
      signature = slice bytes sig_at (sig_at + 64);
      public_key = slice bytes key_at (key_at + 33);
      message = slice bytes msg_at (msg_at + msg_size);
    })
    else none

-- The two header bytes and the seven offsets, for a message of `n` bytes.
abbrev pub header : ℕ → List ℕ
header n =
    1
    ∷ 0
    ∷ 49
    ∷ 0
    ∷ 255
    ∷ 255
    ∷ 16
    ∷ 0
    ∷ 255
    ∷ 255
    ∷ 113
    ∷ 0
    ∷ (n % 256)
    ∷ (n / 256 % 256)
    ∷ 255
    ∷ 255
    ∷ []

abbrev laid_out : (pubkey sig message : List ℕ) → List ℕ
laid_out pubkey sig message = header (length message) ++ (pubkey ++ (sig ++ message))

module _ (pubkey sig message : List ℕ) (pubkey_33 : length pubkey ≡ 33)
    (sig_64 : length sig ≡ 64) where
  written-secp256r1_writes :
      written (secp256r1_writes pubkey sig message) ≡ laid_out pubkey sig message
  unfolding secp256r1_writes le_bytes
  written-secp256r1_writes =
      ap (λ t. header (length message) ++ (pubkey ++ (sig ++ t))) (append-nil message)

  secp256r1_writes-Contiguous : Contiguous 0 (secp256r1_writes pubkey sig message)
  unfolding secp256r1_writes le_bytes
  secp256r1_writes-Contiguous = omega arith

  length-laid_out : length (laid_out pubkey sig message) ≡ 113 + length message
  length-laid_out = omega (arith, length-append pubkey (sig ++ message), length-append sig message)

  build_secp256r1_ix-laid_out :
      (memory : Memory) (ids : Ids)
      → build_secp256r1_ix memory ids pubkey sig message
        ≡ some (record {
          program_id = ids.secp256r1_program_id;
          keys = [];
          payload = laid_out pubkey sig message;
        })
  unfolding build_secp256r1_ix
  build_secp256r1_ix-laid_out memory ids =
      rw
        (write_each-written (secp256r1_writes pubkey sig message)
          (memory.alloc_unsafe (113 + length message)) secp256r1_writes-Contiguous
          (rw written-secp256r1_writes
            (omega (arith, length-laid_out, memory.length-alloc_unsafe (113 + length message)))))
        (rw written-secp256r1_writes refl)

  read_verify-laid_out :
      length message < 65536
      → read_verify (laid_out pubkey sig message)
        ≡ some (record { signature = sig; public_key = pubkey; message = message })
  unfolding read_verify le_value
  read_verify-laid_out short =
      rw
        (
          drop-append pubkey (sig ++ message) 33 pubkey_33,
          take-append pubkey (sig ++ message) 33 pubkey_33,
          take-append sig message 64 sig_64,
          past_sig,
        )
        (ap (λ t. some (record { signature = sig; public_key = pubkey; message = t }))
          (take-all message _ (omega arith)))
    where
      past_sig : drop 97 (pubkey ++ (sig ++ message)) ≡ message
      past_sig =
          sym (drop-drop 33 64 (pubkey ++ (sig ++ message)))
          ∙ ap (drop 64) (drop-append pubkey (sig ++ message) 33 pubkey_33)
          ∙ drop-append sig message 64 sig_64

-- For a 33-byte key, a 64-byte signature and a message below 2 ^ 16 bytes the instruction is built,
-- whatever the uninitialised buffer held; it is addressed to the precompile, it is 113 bytes longer
-- than the message, and a reader of the precompile's layout, which takes
-- one signature with all three parts in this very instruction, gets the signature, the key and the message from it.
pub precompile_reads_back :
    (memory : Memory) (ids : Ids) (pubkey sig message : List ℕ)
    → length pubkey ≡ 33
    → length sig ≡ 64
    → length message < 65536
    → (ix : Instruction) × (build_secp256r1_ix memory ids pubkey sig message ≡ some ix)
      × (ix.program_id ≡ ids.secp256r1_program_id)
      × (length ix.payload ≡ 113 + length message)
      × (read_verify ix.payload
          ≡ some (record { signature = sig; public_key = pubkey; message = message }))
precompile_reads_back memory ids pubkey sig message h k short = (
  record {
    program_id = ids.secp256r1_program_id;
    keys = [];
    payload = laid_out pubkey sig message;
  },
  build_secp256r1_ix-laid_out pubkey sig message h k memory ids,
  refl,
  length-laid_out pubkey sig message h k,
  read_verify-laid_out pubkey sig message h k short,
)

-- The message for the precompile is the authenticator's bytes followed by the hash of the client data.
pub build_webauthn_message_lem :
    (authenticator_data client_data_json : List ℕ)
    → build_webauthn_message authenticator_data client_data_json
      ≡ authenticator_data ++ sha256_bytes client_data_json
unfolding build_webauthn_message
build_webauthn_message_lem auth client =
    ap (λ t. put (put t 0 auth) (length auth) digest) (replicate-add (length auth) 32 zero)
    ∙ ap (λ t. put t (length auth) digest)
        (put_middle [] (replicate (length auth) zero) (replicate 32 zero) auth 0 refl
          (sym (length-replicate (length auth) zero)))
    ∙ ap (λ t. put (auth ++ t) (length auth) digest) (sym (append-nil (replicate 32 zero)))
    ∙ put_middle auth (replicate 32 zero) [] digest (length auth) refl (sha256_bytes_shape client).0
    ∙ ap (λ t. auth ++ t) (append-nil digest)
  where
    digest : List ℕ
    digest = sha256_bytes client
