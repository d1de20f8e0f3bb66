-- ===== src/Intent/Build.antt =====
-- buildIntent and hashIntent of packages/sdk/src/core/intent.ts, from an instruction to its challenge.
use trana.Prelude.{ℕ, ◌+◌, ◌/◌, ◌^◌, ◌≤◌, ◌<◌, ◌≡◌, refl, sym, arith}
use trana.Prelude.{List, [], ◌∷◌, Option, none, some, map, length, take, drop, codes}
use trana.Prelude.{ltb, le→leb, length-take, All-take, take-all, drop-all, Bool-cases}
use trana.Prelude.{inl, inr, if◌then◌else◌}
use trana.Bytes.{IsByte, IsBytes}
use trana.Bytes.Hex.{to_hex, from_hex, from_hex-to_hex}
use trana.Bytes.Decimal.{from_decimal-to_decimal}
use trana.Bytes.Utf8.{utf8}
use trana.Sha256.{sha256_bytes}
use trana.Sha256.Shape.{sha256_bytes_shape}
use trana.Types.{KeyText, Instruction}
use trana.Intent.{IntentConfig, Bound}
use trana.Intent.{empty_hash, hash_hex, accounts_hash, discriminator_hex, target_text}
use trana.Intent.{build_intent, bound_fields, payload, hash_intent, intent_from_instruction}
use trana.Intent.Payload.{read_payload, read_payload-payload}
use mathlib.Core.List.{flatten}
use mathlib.Core.Option.{get_or}

digest_text : (bs : List ℕ) → from_hex (to_hex (sha256_bytes bs)) ≡ sha256_bytes bs
digest_text bs = from_hex-to_hex (sha256_bytes bs) (sha256_bytes_shape bs).1

from_hex-hash_hex : (o : Option (List ℕ)) → from_hex (hash_hex o) ≡ sha256_bytes (get_or o [])
unfolding hash_hex empty_hash
from_hex-hash_hex none = digest_text []
from_hex-hash_hex (some []) = digest_text []
from_hex-hash_hex (some (b ∷ bs)) = digest_text (b ∷ bs)

from_hex-accounts_hash :
    (o : List (List ℕ)) → from_hex (accounts_hash (some o)) ≡ sha256_bytes (flatten o)
unfolding accounts_hash empty_hash flatten
from_hex-accounts_hash [] = digest_text []
from_hex-accounts_hash (a ∷ o) = digest_text (flatten (a ∷ o))

params_of_payload :
    (bs : List ℕ) → get_or (if ltb 8 (length bs) then some (drop 8 bs) else none) [] ≡ drop 8 bs
params_of_payload bs = elim (Bool-cases (ltb 8 (length bs))) [
  | inl more ↦ rw more refl
  | inr less ↦ rw less (sym (drop-all bs 8 (ground arith)))
]

take_twice : (n : ℕ) (bs : List ℕ) → take n (take n bs) ≡ take n bs
take_twice n bs = take-all (take n bs) n (omega (arith, length-take n bs))

-- What the passkey approves, for an instruction with an eight-byte discriminator.
abbrev pub approved : List ℕ → List ℕ → Instruction → ℕ → IntentConfig → ℕ → Bound
approved wallet guard ix nonce config now_ms = record {
  version = 1;
  domain = utf8 (codes "trana:v1");
  wallet = wallet;
  guard = guard;
  target = ix.program_id;
  policy = utf8 config.policy;
  discriminator = take 8 ix.payload;
  accounts = sha256_bytes (flatten (map (λ k. k.pubkey) ix.keys));
  params = sha256_bytes (drop 8 ix.payload);
  nonce = nonce;
  expiry = now_ms / 1000 + get_or config.expiry_ttl_sec 120;
}

length_domain : length (utf8 (codes "trana:v1")) ≡ 8
unfolding utf8
length_domain = refl

module _ (keys : KeyText) (wallet guard : List ℕ) (ix : Instruction) (nonce : ℕ)
    (config : IntentConfig) (now_ms : ℕ) (wallet_32 : length wallet ≡ 32)
    (guard_32 : length guard ≡ 32) (target_32 : length ix.program_id ≡ 32)
    (is_bytes : IsBytes ix.payload) (has_discriminator : 8 ≤ length ix.payload) where
  bound_fields-build_intent :
      bound_fields keys
        (build_intent keys wallet guard (intent_from_instruction ix) nonce config now_ms)
      ≡ some (approved wallet guard ix nonce config now_ms)
  unfolding bound_fields build_intent intent_from_instruction target_text discriminator_hex
  bound_fields-build_intent = rw (le→leb 8 (length ix.payload) has_discriminator) (
      rw
        (
          keys.of-to wallet wallet_32,
          keys.of-to guard guard_32,
          keys.of-to ix.program_id target_32,
          from_decimal-to_decimal nonce,
          from_hex-hash_hex (if ltb 8 (length ix.payload) then some (drop 8 ix.payload) else none),
          params_of_payload ix.payload,
          from_hex-accounts_hash (map (λ k. k.pubkey) ix.keys),
          take_twice 8 ix.payload,
          from_hex-to_hex (take 8 ix.payload) (All-take IsByte 8 ix.payload is_bytes),
        )
        refl)

  -- The challenge for an instruction with a discriminator exists, and it is the hash of bytes that the
  -- documented layout reads back as exactly the wallet, the guard, the program, the policy, the
  -- discriminator, the hashes of the accounts and of the parameters, the nonce and the expiry; the data
  -- of the instruction are bytes, the keys are 32 bytes, the policy is below 2 ^ 16 bytes, and the nonce
  -- and the expiry are below 2 ^ 64.
  pub hash_intent_binds :
      length (utf8 config.policy) < 65536
      → nonce < 2 ^ 64
      → now_ms / 1000 + get_or config.expiry_ttl_sec 120 < 2 ^ 64
      → (bytes : List ℕ) × (hash_intent keys
            (build_intent keys wallet guard (intent_from_instruction ix) nonce config now_ms)
          ≡ some (sha256_bytes bytes))
        × (read_payload bytes ≡ some (approved wallet guard ix nonce config now_ms))
  unfolding hash_intent
  hash_intent_binds short fresh soon = (
    payload (approved wallet guard ix nonce config now_ms),
    rw bound_fields-build_intent refl,
    read_payload-payload (approved wallet guard ix nonce config now_ms) (record {
      version = omega arith;
      domain = omega (arith, length_domain);
      wallet = wallet_32;
      guard = guard_32;
      target = target_32;
      policy = short;
      discriminator = omega (arith, length-take 8 ix.payload);
      accounts = (sha256_bytes_shape _).0;
      params = (sha256_bytes_shape _).0;
      nonce = fresh;
      expiry = soon;
    }),
  )
