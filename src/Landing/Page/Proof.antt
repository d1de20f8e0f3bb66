-- ===== src/Landing/Page/Proof.antt =====
-- How the handlers of apps/landing/app/try/page.tsx prove an instruction with a passkey.
use trana.Prelude.{ℕ, List, [], ◌∷◌, Option, none, some, if◌then◌else◌}
use trana.Prelude.Equality.{same}
use trana.Prelude.Result.{or_throw}
use trana.Types.{Instruction, PasskeyHandle}
use trana.Intent.{TranaIntent, build_intent, hash_intent, intent_from_instruction}
use trana.Secp256r1.{build_secp256r1_ix, build_webauthn_message, build_record_proof_ix}
use trana.Webauthn.{SigningResult, sign_intent}
use trana.Landing.Registry.{fetch_all_passkeys, fetch_registry_nonce}
use trana.Landing.Page.{World, Run, ◌>>=◌, ◌>>◌, lift, return, ask, thrown, not_registered}
use trana.Landing.Page.Steps.{value_of}

-- `all.find(e => uint8Equal(e.credentialId, signing.credentialId))`
unfoldable pub find_handle : List ℕ → List PasskeyHandle → Option PasskeyHandle
find_handle id [] = none
find_handle id (e ∷ all) = if same e.credential_id id then some e else find_handle id all

unfoldable pub registered_handle :
    World → (owner : List ℕ) → (credential_id : List ℕ) → Run PasskeyHandle
registered_handle world owner credential_id = do
  all ← ask (λ t. fetch_all_passkeys world.addresses world.programs (world.connection t) owner)
  lift (or_throw (find_handle credential_id all) not_registered)

-- The key of the credential that signed: the stored one if it did, else the registered one; with no
-- credential to compare with, always the registered one.
unfoldable pub signing_handle :
    World → (owner : List ℕ) → Option PasskeyHandle → SigningResult → Run PasskeyHandle
signing_handle world owner none signing = registered_handle world owner signing.credential_id
signing_handle world owner (some handle) signing =
    if same signing.credential_id handle.credential_id
    then return handle
    else registered_handle world owner signing.credential_id

unfoldable pub nonce_of : World → (owner : List ℕ) → Run ℕ
nonce_of world owner =
    ask (λ t. fetch_registry_nonce world.addresses world.programs (world.connection t) owner)

abbrev pub intent_for :
    World
    → (owner : List ℕ) → Instruction
    → (nonce : ℕ) → (policy : List ℕ) → (now : ℕ) → TranaIntent
intent_for world owner ix nonce policy now =
    build_intent world.keys owner world.programs.guard_program (intent_from_instruction ix) nonce
      (record { policy = policy; expiry_ttl_sec = some 120 }) now

abbrev pub credential_of : Option PasskeyHandle → Option (List ℕ)
credential_of none = none
credential_of (some handle) = some handle.credential_id

-- The instruction with the two that prove it in front, from the nonce on; `announce` comes right
-- before the ceremony.
unfoldable pub proven :
    World
    → (owner : List ℕ) → (announce : Run (Unit {0})) → Option PasskeyHandle
    → Instruction
    → (nonce : ℕ) → (policy : List ℕ) → Run (List Instruction)
proven world owner announce handle ix nonce policy = do
  now ← ask (λ t. some (world.now_ms t))
  challenge ←
      lift (or_throw (hash_intent world.keys (intent_for world owner ix nonce policy now)) thrown)
  announce
  signing ←
      ask (λ t.
        value_of (sign_intent (world.navigator t) challenge (credential_of handle) world.rp_id))
  signer ← signing_handle world owner handle signing
  secp256r1_ix ← lift (
      or_throw
        (build_secp256r1_ix world.memory world.programs.ids signer.pubkey_bytes signing.signature
          (build_webauthn_message signing.authenticator_data signing.client_data_json))
        thrown)
  return (
      secp256r1_ix
      ∷ build_record_proof_ix world.programs.ids world.programs.guard_program
          signing.authenticator_data signing.client_data_json
          (intent_for world owner ix nonce policy now).expiry_unix policy
      ∷ ix
      ∷ [])
