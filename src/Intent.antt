-- ===== src/Intent.antt =====
-- packages/sdk/src/core/intent.ts: the intent that a passkey signs, its canonical bytes and their hash.
pub mod Payload
pub mod Build
use trana.Prelude.{ℕ, ◌+◌, ◌-◌, ◌/◌, List, [], ◌∷◌, ◌++◌, Option, none, some, map}
use trana.Prelude.{leb, ltb, ◌&&◌, if◌then◌else◌, length, replicate, drop, codes}
use trana.Bytes.{le_bytes, slice, ◌>>=◌}
use trana.Bytes.Hex.{to_hex, from_hex}
use trana.Bytes.Decimal.{to_decimal, from_decimal}
use trana.Bytes.Utf8.{utf8}
use trana.Sha256.{sha256_bytes}
use trana.Types.{KeyText, Instruction, AccountMeta}
use mathlib.Core.List.{flatten}
use mathlib.Core.Option
use mathlib.Core.Option.{get_or}

-- `PublicKey | string`
pub data KeyOrText : Type 0 where
  key : List ℕ → KeyOrText
  text : List ℕ → KeyOrText

-- `Uint8Array | string`
pub data Discriminator : Type 0 where
  bytes : List ℕ → Discriminator
  hex : List ℕ → Discriminator

pub record IntentInput : Type 0 where
  pub target_program_id : KeyOrText
  pub instruction_discriminator : Option Discriminator
  pub accounts : Option (List (List ℕ))
  pub params : Option (List ℕ)
  pub policy : Option (List ℕ)

pub record TranaIntent : Type 0 where
  pub version : ℕ
  pub domain : List ℕ
  pub wallet : List ℕ
  pub trana_guard_program_id : List ℕ
  pub target_program_id : List ℕ
  pub policy_id : List ℕ
  pub instruction_discriminator : List ℕ
  pub accounts_hash : List ℕ
  pub params_hash : List ℕ
  pub nonce : List ℕ
  pub expiry_unix : ℕ
  pub raw_params_hex : List ℕ
  pub accounts_count : ℕ

pub record IntentConfig : Type 0 where
  pub policy : List ℕ
  pub expiry_ttl_sec : Option ℕ

unfoldable pub empty_hash : List ℕ
empty_hash = to_hex (sha256_bytes [])

-- `toLowerCase()` on ASCII.
abbrev to_lower : ℕ → ℕ
to_lower c = if leb 65 c && leb c 90 then c + 32 else c

-- `padStart(n, "0")`
abbrev pub pad_start : ℕ → List ℕ → List ℕ
pad_start n cs = replicate (n - length cs) 48 ++ cs

-- The zero discriminator stands for an absent one and for the empty text, which is falsy.
unfoldable pub discriminator_hex : Option Discriminator → List ℕ
discriminator_hex none = codes "0000000000000000"
discriminator_hex (some (bytes d)) = to_hex (slice d 0 8)
discriminator_hex (some (hex [])) = codes "0000000000000000"
discriminator_hex (some (hex (c ∷ cs))) = pad_start 16 (map to_lower (c ∷ cs))

-- The hash of an optional list of bytes, where an absent and an empty one are the same.
unfoldable pub hash_hex : Option (List ℕ) → List ℕ
hash_hex none = empty_hash
hash_hex (some []) = empty_hash
hash_hex (some (b ∷ bs)) = to_hex (sha256_bytes (b ∷ bs))

unfoldable pub accounts_hash : Option (List (List ℕ)) → List ℕ
accounts_hash none = empty_hash
accounts_hash (some []) = empty_hash
accounts_hash (some (a ∷ as')) = to_hex (sha256_bytes (flatten (a ∷ as')))

abbrev pub params_text : Option (List ℕ) → List ℕ
params_text none = []
params_text (some bs) = to_hex bs

abbrev pub count_of : Option (List (List ℕ)) → ℕ
count_of none = 0
count_of (some as') = length as'

module _ (keys : KeyText) where
  unfoldable pub target_text : KeyOrText → List ℕ
  target_text (key k) = keys.to_base58 k
  target_text (text t) = t

  -- `now_ms` is `Date.now()`.
  unfoldable pub build_intent :
      (wallet guard : List ℕ)
      → IntentInput
      → (nonce : ℕ) → IntentConfig
      → (now_ms : ℕ) → TranaIntent
  build_intent wallet guard input nonce config now_ms = record {
    version = 1;
    domain = codes "trana:v1";
    wallet = keys.to_base58 wallet;
    trana_guard_program_id = keys.to_base58 guard;
    target_program_id = target_text input.target_program_id;
    policy_id = get_or input.policy config.policy;
    instruction_discriminator = discriminator_hex input.instruction_discriminator;
    accounts_hash = accounts_hash input.accounts;
    params_hash = hash_hex input.params;
    nonce = to_decimal nonce;
    expiry_unix = now_ms / 1000 + get_or config.expiry_ttl_sec 120;
    raw_params_hex = params_text input.params;
    accounts_count = count_of input.accounts;
  }

-- What the fields of an intent stand for in the payload.
pub record Bound : Type 0 where
  pub version : ℕ
  pub domain : List ℕ
  pub wallet : List ℕ
  pub guard : List ℕ
  pub target : List ℕ
  pub policy : List ℕ
  pub discriminator : List ℕ
  pub accounts : List ℕ
  pub params : List ℕ
  pub nonce : ℕ
  pub expiry : ℕ

-- The constants of `hashIntent`; `none` is an exception of `new PublicKey` or of `BigInt`.
unfoldable pub bound_fields : KeyText → TranaIntent → Option Bound
bound_fields keys intent = do
  wallet ← keys.of_base58 intent.wallet
  guard ← keys.of_base58 intent.trana_guard_program_id
  target ← keys.of_base58 intent.target_program_id
  nonce ← from_decimal intent.nonce
  some (record {
    version = intent.version;
    domain = utf8 intent.domain;
    wallet = wallet;
    guard = guard;
    target = target;
    policy = utf8 intent.policy_id;
    discriminator = from_hex intent.instruction_discriminator;
    accounts = from_hex intent.accounts_hash;
    params = from_hex intent.params_hash;
    nonce = nonce;
    expiry = intent.expiry_unix;
  })

-- `payload`, the argument of the last `Buffer.concat`.
unfoldable pub payload : Bound → List ℕ
payload b =
    le_bytes 1 b.version
    ++ (le_bytes 2 (length b.domain)
        ++ (b.domain
            ++ (b.wallet
                ++ (b.guard
                    ++ (b.target
                        ++ (le_bytes 2 (length b.policy)
                            ++ (b.policy
                                ++ (b.discriminator
                                    ++ (b.accounts
                                        ++ (b.params
                                            ++ (le_bytes 8 b.nonce
                                                ++ (le_bytes 8 b.expiry ++ []))))))))))))

unfoldable pub hash_intent : KeyText → TranaIntent → Option (List ℕ)
hash_intent keys intent = do b ← bound_fields keys intent; some (sha256_bytes (payload b))

unfoldable pub intent_from_instruction : Instruction → IntentInput
intent_from_instruction ix = record {
  target_program_id = key ix.program_id;
  instruction_discriminator =
      if leb 8 (length ix.payload) then some (bytes (slice ix.payload 0 8)) else none;
  accounts = some (map (λ k. k.pubkey) ix.keys);
  params = if ltb 8 (length ix.payload) then some (drop 8 ix.payload) else none;
  policy = none;
}
