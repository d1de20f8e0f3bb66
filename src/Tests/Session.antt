-- ===== src/Tests/Session.antt =====
-- Approvals over time and the test proof of packages/sdk/src, on concrete input.
use trana.Prelude.{ℕ, ◌≡◌, refl, List, [], ◌∷◌, ◌++◌, none, some, true, All, replicate, codes}
use trana.Prelude.Result.{ok}
use trana.Types.{Instruction}
use trana.Intent.{TranaIntent}
use trana.Webauthn.{Assertion, answer, null}
use trana.Webauthn.Der.{der, der_integer}
use trana.React.Hub.{call, ApprovalResult, approved, rejected}
use trana.React.Intent.{build_intent, hash_intent, intent_from_instruction}
use trana.React.Modal.{Env, approve}
use trana.React.Modal.Session
use trana.React.Modal.Session.{fresh_session, Event, asks, presses, answers, dismisses, steps}
use trana.React.Modal.Session.Bound.{
  AreOrderly, IsBacked, IsPressed, steps-IsBacked, late_answer-settles_other,
}
use trana.React.Webauthn
use trana.Testing.{Curve, generate_test_passkey, test_client_data, build_test_proof_ix}
use trana.Testing.Proof.{extract_challenge, build_test_proof_ix-IsProof}
use trana.Bytes.Base64.{from_base64url}
use trana.Bytes.Utf8.{utf8}
use trana.Sha256.{sha256_bytes}
use trana.Intent
use trana.Secp256r1.Layout.{read_verify}
use mathlib.Core.Option
use mathlib.Core.Option.{get_or}
use trana.Tests.{
  plain_keys, wallet, guard_id, withdraw, config, low_half, compressed_key, dirty_memory, ids,
}
use trana.Tests.React.{registry_state}
use trana.Tests.Modal.{env}

abbrev first_intent : TranaIntent
first_intent =
    build_intent plain_keys wallet guard_id (intent_from_instruction withdraw none) 5 config 1000000

abbrev second_intent : TranaIntent
second_intent =
    build_intent plain_keys wallet guard_id (intent_from_instruction withdraw none) 6 config 2000000

abbrev low_assertion : Assertion
low_assertion = record {
  authenticator_data = replicate 37 1;
  client_data_json = codes "{}";
  signature = der 68 (der_integer low_half) (der_integer low_half);
  raw_id = 1 ∷ 2 ∷ [];
}

abbrev low_env : Env
low_env = record env {
  navigator = record {
    has_credentials = true;
    create = λ options. null;
    get = λ options. answer low_assertion;
  };
}

abbrev low_result : ApprovalResult
low_result = record {
  sig = low_half ++ low_half;
  authenticator_data = replicate 37 1;
  client_data_json = codes "{}";
}

was_approved : approve low_env registry_state first_intent ≡ ok low_result
unfolding approve hash_intent build_intent intent_from_instruction Webauthn.do_approval
    Webauthn.der_to_compact Webauthn.der_first Webauthn.der_second Webauthn.low_s
    trana.Intent.bound_fields trana.Intent.target_text trana.Bytes.Decimal.from_decimal
    trana.Bytes.Decimal.to_decimal trana.Webauthn.hex_to_bigint trana.Bytes.Hex.to_hex
    trana.Bytes.Hex.digit_value trana.Bytes.Hex.hex_digit
was_approved = refl

late_answer-settles_other_example :
    let after = steps fresh_session (
      asks first_intent
      ∷ presses low_env registry_state
      ∷ dismisses
      ∷ asks second_intent
      ∷ answers 0
      ∷ []) in
    (after.asked ≡ (1, second_intent) ∷ (0, first_intent) ∷ [])
    × (after.hub.settled ≡ (1, approved low_result) ∷ (0, rejected (codes "Cancelled")) ∷ [])
late_answer-settles_other_example =
    late_answer-settles_other first_intent second_intent low_env registry_state low_result
      was_approved

abbrev orderly_events : List Event
orderly_events =
    asks first_intent
    ∷ presses low_env registry_state
    ∷ answers 0
    ∷ asks second_intent
    ∷ presses low_env registry_state
    ∷ dismisses
    ∷ answers 0
    ∷ []

orderly : AreOrderly fresh_session orderly_events
unfolding Session.step Session.pressed Session.answered call
orderly = (refl, (refl, tt))

steps-IsBacked_example :
    All
      (IsBacked (IsPressed orderly_events) (steps fresh_session orderly_events).asked)
      (steps fresh_session orderly_events).hub.settled
steps-IsBacked_example = steps-IsBacked orderly_events orderly

-- A curve whose every signature is the same.
abbrev curve : Curve
curve = record {
  random_secret_key = replicate 32 1;
  random_16 = replicate 16 2;
  get_public_key = λ secret. compressed_key;
  sign = λ message secret. low_half ++ low_half;
  length-get_public_key = λ secret. refl;
  length-sign = λ message secret. refl;
}

abbrev challenge : List ℕ
challenge = get_or (Intent.hash_intent plain_keys first_intent) []

hashed : Intent.hash_intent plain_keys first_intent ≡ some challenge
unfolding Intent.hash_intent Intent.bound_fields build_intent intent_from_instruction
    trana.Intent.target_text trana.Bytes.Decimal.from_decimal trana.Bytes.Decimal.to_decimal
hashed = refl

build_test_proof_ix-IsProof_example :
    let client = test_client_data challenge (codes "localhost") in
    let message =
      (sha256_bytes (utf8 (codes "localhost")) ++ (0x05 ∷ replicate 4 0)) ++ sha256_bytes client in
    (ix : Instruction) × (build_test_proof_ix dirty_memory ids plain_keys curve first_intent
        (generate_test_passkey curve)
        (codes "localhost")
      ≡ some ix)
    × (ix.program_id ≡ ids.secp256r1_program_id)
    × (read_verify ix.payload
        ≡ some (record {
          signature = low_half ++ low_half;
          public_key = compressed_key;
          message = message;
        }))
    × (Option.map from_base64url (extract_challenge client) ≡ some challenge)
unfolding generate_test_passkey
build_test_proof_ix-IsProof_example =
    build_test_proof_ix-IsProof dirty_memory ids plain_keys curve first_intent (codes "localhost")
      challenge hashed
