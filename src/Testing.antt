-- ===== src/Testing.antt =====
-- packages/sdk/src/testing/index.ts: a software passkey, the proof it makes, and the low-s helper.
pub mod LowS
pub mod Proof
use trana.Prelude.{
  ℕ, ◌≡◌, List, [], ◌∷◌, ◌++◌, Option, none, some, leb, if◌then◌else◌, length, drop, replicate,
  codes,
}
use trana.Bytes.{slice, put, ◌>>=◌}
use trana.Bytes.Base64.{to_base64url}
use trana.Bytes.Json.{json_string}
use trana.Bytes.Utf8.{utf8}
use trana.Sha256.{sha256_bytes}
use trana.Types.{KeyText, Instruction}
use trana.Intent.{TranaIntent, hash_intent}
use trana.Secp256r1.{Memory, Ids, build_secp256r1_ix, build_webauthn_message}
use trana.Webauthn.{hex_to_bigint, half_order}

-- @noble/curves and @noble/hashes: random keys, the compressed public key of a secret key, and the
-- compact form of a signature.
pub record Curve : Type 0 where
  pub random_secret_key : List ℕ
  pub random_16 : List ℕ
  pub get_public_key : (secret : List ℕ) → List ℕ
  pub sign : (message secret : List ℕ) → List ℕ
  pub length-get_public_key : (secret : List ℕ) → length (get_public_key secret) ≡ 33
  pub length-sign : (message secret : List ℕ) → length (sign message secret) ≡ 64

pub record TestPasskeyHandle : Type 0 where
  pub pubkey : List ℕ
  pub priv_key : List ℕ
  pub credential_id : List ℕ

unfoldable pub generate_test_passkey : Curve → TestPasskeyHandle
generate_test_passkey curve = record {
  pubkey = curve.get_public_key curve.random_secret_key;
  priv_key = curve.random_secret_key;
  credential_id = curve.random_16;
}

-- `authData`: 37 bytes with the hash of the relying party and the flags.
unfoldable pub test_authenticator_data : (rp_id : List ℕ) → List ℕ
test_authenticator_data rp_id =
    put (put (replicate 37 0) 0 (sha256_bytes (utf8 rp_id))) 32 (0x05 ∷ [])

-- The argument of the second `TextEncoder`.
unfoldable pub client_data_text : (challenge rp_id : List ℕ) → List ℕ
client_data_text challenge rp_id =
    codes "{\"type\":\"webauthn.get\",\"challenge\":"
    ++ (json_string (to_base64url challenge)
        ++ (codes ",\"origin\":"
            ++ (json_string (codes "http://" ++ rp_id) ++ codes ",\"crossOrigin\":false}")))

unfoldable pub test_client_data : (challenge rp_id : List ℕ) → List ℕ
test_client_data challenge rp_id = utf8 (client_data_text challenge rp_id)

unfoldable pub build_test_proof_ix :
    Memory
    → Ids
    → KeyText
    → Curve
    → TranaIntent
    → TestPasskeyHandle
    → (rp_id : List ℕ) → Option Instruction
build_test_proof_ix memory ids keys curve intent handle rp_id = do
  challenge ← hash_intent keys intent
  let e_value =
      build_webauthn_message (test_authenticator_data rp_id) (test_client_data challenge rp_id)
  build_secp256r1_ix memory ids handle.pubkey (curve.sign e_value handle.priv_key) e_value

-- The bytes of the new s are copied into `Buffer.from(out)`, a copy of `out` that is dropped. `none` is
-- the SyntaxError of `BigInt("0x")`.
unfoldable pub ensure_low_s : List ℕ → Option (List ℕ)
ensure_low_s compact = elim (hex_to_bigint (drop 32 compact)) [
  | none ↦ none
  | some s ↦
      some (if leb s half_order then compact else put (replicate 64 0) 0 (slice compact 0 32))
]
