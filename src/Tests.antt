-- ===== src/Tests.antt =====
-- Concrete keys, instructions, signatures and a browser, for the tests of packages/sdk/src.
mod Core
mod Signing
mod Clients
mod React
mod Send
mod Rules
mod Landing
mod Page
mod Idl
mod Modal
mod Session
mod Secure
mod Keys
use trana.Prelude.{
  ℕ, ◌≡◌, refl, arith, List, [], ◌∷◌, ◌++◌, Option, none, some, true, false, length, replicate,
  codes,
}
use trana.Prelude.{if◌then◌else◌, ◌==◌, length-replicate, Bool-cases, inl, inr, zero}
use trana.Types.{KeyText, Instruction, AccountMeta}
use trana.Intent.{IntentConfig}
use trana.Secp256r1.{Memory, Ids}

abbrev pub of_text : List ℕ → Option (List ℕ)
of_text text = if length text == 32 then some text else none

pub of_text-whole : (key : List ℕ) → length key ≡ 32 → of_text key ≡ some key
of_text-whole key h = rw h refl

pub length-of_text : (text key : List ℕ) → of_text text ≡ some key → length key ≡ 32
length-of_text text key h = ground arith

-- A text form of keys that is its own inverse.
abbrev pub plain_keys : KeyText
plain_keys = record {
  to_base58 = λ key. key;
  of_base58 = of_text;
  of-to = of_text-whole;
  length-of = length-of_text;
}

abbrev pub dirty_memory : Memory
dirty_memory = record {
  alloc_unsafe = λ n. replicate n 170;
  length-alloc_unsafe = λ n. length-replicate n 170;
}

abbrev pub ids : Ids
ids = record { secp256r1_program_id = replicate 32 6; sysvar_instructions = replicate 32 7 }

abbrev pub wallet : List ℕ
wallet = replicate 32 1

abbrev pub guard_id : List ℕ
guard_id = replicate 32 2

abbrev pub withdraw : Instruction
withdraw = record {
  program_id = replicate 32 3;
  keys = record { pubkey = replicate 32 4; is_signer = false; is_writable = true } ∷ [];
  payload = 1 ∷ 2 ∷ 3 ∷ 4 ∷ 5 ∷ 6 ∷ 7 ∷ 8 ∷ 200 ∷ 0 ∷ [];
}

abbrev pub config : IntentConfig
config = record { policy = codes "trana.require"; expiry_ttl_sec = none }

abbrev pub compressed_key : List ℕ
compressed_key = 2 ∷ replicate 32 9

-- A half of a signature whose first byte is clear, and one above half the order.
abbrev pub low_half : List ℕ
low_half = replicate 32 5

abbrev pub high_half : List ℕ
high_half = 0xff ∷ replicate 31 0

abbrev pub message : List ℕ
message = 1 ∷ 2 ∷ 3 ∷ []
