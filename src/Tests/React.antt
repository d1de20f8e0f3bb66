-- ===== src/Tests/React.antt =====
-- The React layer, on concrete input.
use trana.Prelude.{
  ℕ, ◌+◌, ◌≤◌, ◌<◌, ◌≡◌, refl, arith, List, [], ◌∷◌, ◌++◌, Option, none, some, true, false, ◌||◌,
  any, length, replicate, codes,
}
use trana.Prelude.Result.{ok}
use trana.Webauthn
use trana.Webauthn.{spki_to_compressed_key}
use trana.Webauthn.Der.{der}
use trana.React.Webauthn.{der_to_compact, extract_pubkey_from_attestation}
use trana.React.Webauthn.Signatures.{der_to_compact-agrees}
use trana.React.Webauthn.Keys.{value, extract_pubkey-agrees}
use trana.React.Registry.{RegistryState, fetched, on_account_change}
use trana.React.Registry.Layout.{on_chain, parse_registry_account-on_chain}
use trana.React.Logs.{
  detect_in_logs, after_simulation, policy_or, policy_of, Chain, Thrown, legacy, needed,
  detect_enforcement, missing_proof, has_secp256r1_ix, includes,
}
use trana.React.Logs.{parse_policy_from_logs}
use trana.React.Logs.Detection.{IsAsked, detect_enforcement-needed}
use trana.Prelude.{◌↔◌}
use trana.React.Hub.{
  Call, fresh_hub, calls, trigger_registration, resolve_approval, reject_pending,
  resolve_registration,
}
use trana.React.Hub.Settling.{IsSound, calls-IsSound, fresh_hub-IsSound}
use trana.Tests.{wallet, guard_id, compressed_key, low_half, high_half}
use trana.Tests.Signing.{p256_header}

der_to_compact-agrees_example :
    (out : List ℕ) × (der_to_compact (der 69 low_half (0 ∷ high_half)) ≡ ok out)
    × (Webauthn.der_to_compact (der 69 low_half (0 ∷ high_half)) ≡ ok out)
der_to_compact-agrees_example =
    der_to_compact-agrees 69 low_half (0 ∷ high_half) (omega arith) (omega arith) (omega arith)

extract_pubkey-agrees_example :
    value (extract_pubkey_from_attestation (some (p256_header ++ (0x04 ∷ replicate 64 9))))
    ≡ value (spki_to_compressed_key (p256_header ++ (0x04 ∷ replicate 64 9)))
extract_pubkey-agrees_example = extract_pubkey-agrees (p256_header ++ (0x04 ∷ replicate 64 9))

abbrev pub registry_state : RegistryState
registry_state = record {
  owner = wallet;
  pubkey = compressed_key;
  credential_id = 1 ∷ 2 ∷ [];
  enabled = true;
  nonce = 7;
}

parse_registry_account-on_chain_example :
    (fetched (some (on_chain (replicate 8 1) wallet 7 1 (0 ∷ 33 ∷ compressed_key))) ≡ none)
    × (on_account_change (on_chain (replicate 8 1) wallet 7 1 (0 ∷ 33 ∷ compressed_key)) ≡ none)
parse_registry_account-on_chain_example =
    parse_registry_account-on_chain (replicate 8 1) wallet (0 ∷ 33 ∷ compressed_key) 7 1 refl refl
      (omega arith) (omega arith) (omega arith) (omega arith)

abbrev pub logged : List (List ℕ)
logged = codes "Program log: TRANA require | policy=trana.limit" ∷ codes "TRANA_MISSING_PROOF" ∷ []

abbrev pub chain : Chain
chain = record {
  secp256r1_program_id = replicate 32 6;
  simulate = λ tx. some (some logged);
  account_data = λ pda. some (some (replicate 60 0));
  find_registry_pda = λ wallet program. program;
}

pub detected :
    detect_enforcement chain (legacy (guard_id ∷ [])) wallet guard_id (codes "trana.require")
    ≡ some (needed missing_proof (codes "trana.limit"))
unfolding detect_enforcement detect_in_logs after_simulation has_secp256r1_ix includes
    parse_policy_from_logs policy_or policy_of trana.Prelude.Equality.same
detected = refl

detect_enforcement-needed_example :
    (detect_enforcement chain (legacy (guard_id ∷ [])) wallet guard_id (codes "trana.require")
      ≡ some (needed missing_proof (codes "trana.limit")))
    ↔ IsAsked chain
        (legacy (guard_id ∷ []))
        wallet
        guard_id
        (codes "trana.require")
        missing_proof
        (codes "trana.limit")
detect_enforcement-needed_example =
    detect_enforcement-needed chain (legacy (guard_id ∷ [])) wallet guard_id (codes "trana.require")
      missing_proof (codes "trana.limit")

detected-IsAsked :
    IsAsked chain
      (legacy (guard_id ∷ []))
      wallet
      guard_id
      (codes "trana.require")
      missing_proof
      (codes "trana.limit")
detected-IsAsked =
    (detect_enforcement-needed chain (legacy (guard_id ∷ [])) wallet guard_id
        (codes "trana.require") missing_proof (codes "trana.limit")).0
      detected

abbrev thrown : Thrown
thrown = record { logs = some logged; message = none }

-- Two triggers, an answer of the wrong kind, an answer, and a late rejection.
abbrev session : List Call
session =
    trigger_registration none
    ∷ trigger_registration none
    ∷ resolve_approval (record { sig = []; authenticator_data = []; client_data_json = [] })
    ∷ resolve_registration
    ∷ reject_pending []
    ∷ []

calls-IsSound_example : IsSound (calls fresh_hub session)
calls-IsSound_example = calls-IsSound fresh_hub session fresh_hub-IsSound
