-- ===== src/React/Intent.antt =====
-- packages/sdk/src/react/intent.ts: the React layer's copy of the intent. Its input has a label.
use trana.Prelude.{
  ℕ, ◌+◌, ◌/◌, ◌≡◌, refl, List, Option, none, some, map, leb, ltb, if◌then◌else◌, length, drop,
  codes,
}
use trana.Bytes.{slice, ◌>>=◌}
use trana.Bytes.Decimal.{to_decimal}
use trana.Sha256.{sha256_bytes}
use trana.Types.{KeyText, Instruction}
use trana.Intent
use trana.Intent.{
  KeyOrText, key, Discriminator, TranaIntent, IntentConfig, target_text, discriminator_hex,
}
use trana.Intent.{accounts_hash, hash_hex, params_text, count_of, bound_fields, payload}
use mathlib.Core.Option.{get_or}

pub record IntentInput : Type 0 where
  pub target_program_id : KeyOrText
  pub instruction_discriminator : Option Discriminator
  pub accounts : Option (List (List ℕ))
  pub params : Option (List ℕ)
  pub policy : Option (List ℕ)
  pub label : Option (List ℕ)

unfoldable pub build_intent :
    KeyText
    → (wallet guard : List ℕ) → IntentInput
    → (nonce : ℕ) → IntentConfig
    → (now_ms : ℕ) → TranaIntent
build_intent keys wallet guard input nonce config now_ms = record {
  version = 1;
  domain = codes "trana:v1";
  wallet = keys.to_base58 wallet;
  trana_guard_program_id = keys.to_base58 guard;
  target_program_id = target_text keys input.target_program_id;
  policy_id = get_or input.policy config.policy;
  instruction_discriminator = discriminator_hex input.instruction_discriminator;
  accounts_hash = accounts_hash input.accounts;
  params_hash = hash_hex input.params;
  nonce = to_decimal nonce;
  expiry_unix = now_ms / 1000 + get_or config.expiry_ttl_sec 120;
  raw_params_hex = params_text input.params;
  accounts_count = count_of input.accounts;
}

unfoldable pub hash_intent : KeyText → TranaIntent → Option (List ℕ)
hash_intent keys intent = do fields ← bound_fields keys intent; some (sha256_bytes (payload fields))

unfoldable pub intent_from_instruction : Instruction → (label : Option (List ℕ)) → IntentInput
intent_from_instruction ix label = record {
  target_program_id = key ix.program_id;
  instruction_discriminator =
      if leb 8 (length ix.payload) then some (Discriminator.bytes (slice ix.payload 0 8)) else none;
  accounts = some (map (λ k. k.pubkey) ix.keys);
  params = if ltb 8 (length ix.payload) then some (drop 8 ix.payload) else none;
  policy = none;
  label = label;
}

-- Whatever the label, the React layer's challenge for an instruction is the core's.
pub hash_intent-agrees :
    (keys : KeyText) (wallet guard : List ℕ) (ix : Instruction) (label : Option (List ℕ))
    (nonce : ℕ) (config : IntentConfig) (now_ms : ℕ)
    → hash_intent keys
        (build_intent keys wallet guard (intent_from_instruction ix label) nonce config now_ms)
      ≡ Intent.hash_intent keys (
          Intent.build_intent keys wallet guard
            (Intent.intent_from_instruction ix)
            nonce
            config
            now_ms)
unfolding hash_intent build_intent intent_from_instruction Intent.hash_intent Intent.build_intent
    Intent.intent_from_instruction
hash_intent-agrees keys wallet guard ix label nonce config now_ms = refl
