-- ===== src/Testing/Proof.antt =====
-- buildTestProofIx of packages/sdk/src/testing/index.ts against what the precompile and
-- extract_challenge of programs/trana_guard/src/verify.rs read.
use trana.Prelude.{
  ℕ, ◌<◌, ◌≡◌, refl, ap, replicate, ◌∙◌, arith, List, [], ◌∷◌, ◌++◌, Option, none, some, false, All,
  All-append, append_assoc, ◌==◌, if◌then◌else◌, length, length-append, drop, codes,
}
use trana.Bytes.{IsBytes, put, >>=-eq-some}
use trana.Bytes.Base64.{
  base64_digit, to_base64url, to_base64url-All, from_base64url, from_base64url-to_base64url,
}
use trana.Bytes.Json.{needs_escape, json_string, json_string-plain}
use trana.Bytes.Utf8.{utf8, utf8_ascii, utf8-append}
use trana.React.Logs.{starts_with}
use trana.Bytes.Writes.{put_middle}
use trana.Sha256.{sha256_bytes}
use trana.Sha256.Shape.{sha256_bytes_shape}
use mathlib.Core.Option
use mathlib.Core.Path.{subst}
use trana.Types.{KeyText, Instruction}
use trana.Intent.{TranaIntent, hash_intent, bound_fields, payload}
use trana.Secp256r1.{Memory, Ids, build_webauthn_message}
use trana.Secp256r1.Layout.{read_verify, precompile_reads_back, build_webauthn_message_lem}
use trana.Testing.{
  Curve, generate_test_passkey, build_test_proof_ix, test_authenticator_data, test_client_data,
  client_data_text,
}

-- The bytes behind the first occurrence of a key that is not empty.
unfoldable pub behind : (key : List ℕ) → List ℕ → Option (List ℕ)
behind key [] = none
behind key (c ∷ bytes) =
    let rest = behind key bytes in
    if starts_with key (c ∷ bytes) then some (drop (length key) (c ∷ bytes)) else rest

-- The bytes up to the first quote, which must be there.
unfoldable pub up_to_quote : List ℕ → Option (List ℕ)
up_to_quote [] = none
up_to_quote (c ∷ bytes) =
    let rest = up_to_quote bytes in
    if c == 34 then some [] else Option.map (λ front. c ∷ front) rest

unfoldable pub extract_challenge : (client_data_json : List ℕ) → Option (List ℕ)
extract_challenge bytes = elim (behind (codes "\"challenge\":\"") bytes) [
  | none ↦ none
  | some rest ↦ up_to_quote rest
]

plain_digit : (v : ℕ) → v < 64 → needs_escape (base64_digit v) ≡ false
unfolding base64_digit
plain_digit v h = ground arith

ascii_digit : (v : ℕ) → v < 64 → base64_digit v < 0x80
unfolding base64_digit
ascii_digit v h = ground arith

no_quote_digit : (v : ℕ) → v < 64 → (base64_digit v == 34) ≡ false
unfolding base64_digit
no_quote_digit v h = ground arith

up_to_quote-append :
    (front back : List ℕ)
    → All (λ c. (c == 34) ≡ false) front
    → up_to_quote (front ++ (34 ∷ back)) ≡ some front
unfolding up_to_quote
up_to_quote-append [] back h = refl
up_to_quote-append (c ∷ front) back (other, h) = rw (other, up_to_quote-append front back h) refl

-- What the challenge stands behind, and what stands behind it.
abbrev front : List ℕ
front = codes "{\"type\":\"webauthn.get\",\"challenge\":"

abbrev tail : (rp_id : List ℕ) → List ℕ
tail rp_id =
    codes ",\"origin\":"
    ++ (json_string (codes "http://" ++ rp_id) ++ codes ",\"crossOrigin\":false}")

utf8-front : utf8 front ≡ front
unfolding utf8
utf8-front = refl

module _ (challenge rp_id : List ℕ) (is_bytes : IsBytes challenge) where
  quoted : utf8 (json_string (to_base64url challenge)) ≡ 34 ∷ (to_base64url challenge ++ (34 ∷ []))
  quoted =
      rw
        (json_string-plain (to_base64url challenge)
          (to_base64url-All (λ c. needs_escape c ≡ false) challenge is_bytes plain_digit))
        (utf8_ascii (34 ∷ (to_base64url challenge ++ (34 ∷ []))) (
          omega arith,
          All-append (λ c. c < 0x80) (to_base64url challenge) (34 ∷ [])
              (to_base64url-All (λ c. c < 0x80) challenge is_bytes ascii_digit) (omega arith, tt),
        ))

  test_client_data_parts :
      test_client_data challenge rp_id
      ≡ front ++ (34 ∷ (to_base64url challenge ++ (34 ∷ utf8 (tail rp_id))))
  unfolding test_client_data client_data_text
  test_client_data_parts =
      utf8-append front (json_string (to_base64url challenge) ++ tail rp_id)
      ∙ rw (utf8-append (json_string (to_base64url challenge)) (tail rp_id), quoted, utf8-front)
          (ap (λ t. front ++ (34 ∷ t))
            (append_assoc (to_base64url challenge) (34 ∷ []) (utf8 (tail rp_id))))

  extract_challenge-test_client_data :
      extract_challenge (test_client_data challenge rp_id) ≡ some (to_base64url challenge)
  unfolding extract_challenge behind
  extract_challenge-test_client_data = rw test_client_data_parts (
      up_to_quote-append (to_base64url challenge) (utf8 (tail rp_id))
        (to_base64url-All (λ c. (c == 34) ≡ false) challenge is_bytes no_quote_digit))

-- The hash of the relying party, the flags, and a counter of zero.
test_authenticator_data_parts :
    (rp_id : List ℕ)
    → test_authenticator_data rp_id ≡ sha256_bytes (utf8 rp_id) ++ (0x05 ∷ replicate 4 0)
unfolding test_authenticator_data
test_authenticator_data_parts rp_id =
    ap (λ t. put t 32 (0x05 ∷ []))
      (put_middle [] (replicate 32 0) (replicate 5 0) hash 0 refl
        (sha256_bytes_shape (utf8 rp_id)).0)
    ∙ put_middle hash (0 ∷ []) (replicate 4 0) (0x05 ∷ []) 32 (sha256_bytes_shape (utf8 rp_id)).0
        refl
  where
    hash : List ℕ
    hash = sha256_bytes (utf8 rp_id)

short_message :
    (rp_id client : List ℕ)
    → length (build_webauthn_message (test_authenticator_data rp_id) client) < 65536
short_message rp_id client =
    rw
      (
        build_webauthn_message_lem (test_authenticator_data rp_id) client,
        test_authenticator_data_parts rp_id,
      )
      (omega (
        arith,
        length-append (sha256_bytes (utf8 rp_id) ++ (0x05 ∷ replicate 4 0)) (sha256_bytes client),
        length-append (sha256_bytes (utf8 rp_id)) (0x05 ∷ replicate 4 0),
        (sha256_bytes_shape (utf8 rp_id)).0,
        (sha256_bytes_shape client).0,
      ))

challenge-IsBytes :
    (keys : KeyText) (intent : TranaIntent) (challenge : List ℕ)
    → hash_intent keys intent ≡ some challenge
    → IsBytes challenge
unfolding hash_intent
challenge-IsBytes keys intent challenge h =
    let (fields, _, is_hash) = >>=-eq-some (bound_fields keys intent) _ h in
    subst IsBytes (cc (is_hash)) (sha256_bytes_shape (payload fields)).1

-- For an intent that has a challenge, a generated software passkey makes a proof: the precompile reads
-- from it the passkey's public key, its signature, and the very message that was signed, which is the
-- hash of the relying party, the flags for presence and verification, a counter of zero, and the hash
-- of client data; and the challenge that the guard extracts from these client data decodes to the
-- challenge of the intent.
pub build_test_proof_ix-IsProof :
    (memory : Memory) (ids : Ids) (keys : KeyText) (curve : Curve) (intent : TranaIntent)
    (rp_id challenge : List ℕ)
    → hash_intent keys intent ≡ some challenge
    → let handle = generate_test_passkey curve in
      let client = test_client_data challenge rp_id in
      let message = (sha256_bytes (utf8 rp_id) ++ (0x05 ∷ replicate 4 0)) ++ sha256_bytes client in
      (ix : Instruction) × (build_test_proof_ix memory ids keys curve intent handle rp_id ≡ some ix)
      × (ix.program_id ≡ ids.secp256r1_program_id)
      × (read_verify ix.payload
          ≡ some (record {
            signature = curve.sign message handle.priv_key;
            public_key = handle.pubkey;
            message = message;
          }))
      × (Option.map from_base64url (extract_challenge client) ≡ some challenge)
unfolding build_test_proof_ix generate_test_passkey
build_test_proof_ix-IsProof memory ids keys curve intent rp_id challenge hashed =
    let client = test_client_data challenge rp_id in
    let message = build_webauthn_message (test_authenticator_data rp_id) client in
    let secret = curve.random_secret_key in
    let is_message =
      build_webauthn_message_lem (test_authenticator_data rp_id) client
      ∙ ap (λ t. t ++ sha256_bytes client) (test_authenticator_data_parts rp_id) in
    let is_bytes = challenge-IsBytes keys intent challenge hashed in
    let (ix, built, addressed, _, read) =
      precompile_reads_back memory ids (curve.get_public_key secret) (curve.sign message secret)
        message (curve.length-get_public_key secret) (curve.length-sign message secret)
        (short_message rp_id client) in
    (
      ix,
      rw hashed built,
      addressed,
      read
          ∙ ap
              (λ t. some (record {
                signature = curve.sign t secret;
                public_key = curve.get_public_key secret;
                message = t;
              }))
              is_message,
      rw
          (
            extract_challenge-test_client_data challenge rp_id is_bytes,
            from_base64url-to_base64url challenge is_bytes,
          )
          refl,
    )
