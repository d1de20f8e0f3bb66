-- ===== src/Tests/Signing.antt =====
-- Signatures and keys, on concrete input.
use trana.Prelude.{
  ℕ, ◌≤◌, ◌≡◌, refl, arith, List, [], ◌∷◌, ◌++◌, some, true, length, replicate, codes,
}
use trana.Prelude.Result.{ok}
use trana.Bytes.{be_value, be_from}
use trana.Webauthn.{
  Navigator, Assertion, null, answer, sign_intent, normalize_low_s, der_to_compact,
  spki_to_compressed_key, half_order,
}
use trana.Webauthn.Der.{der, der_integer, der_to_compact-der_integer}
use trana.Webauthn.LowS.{low, normalize_low_s-low}
use trana.Webauthn.Spki.{sec1, spki_to_compressed_key-sec1}
use trana.Webauthn.Ceremony.{sign_intent-low}
use trana.Tests.{low_half, high_half}

normalize_low_s-low_example :
    (t : List ℕ) × (normalize_low_s (low_half ++ high_half) ≡ ok (low_half ++ t))
    × (length t ≡ 32)
    × (be_value t ≡ low (be_value high_half))
    × (be_value t ≤ half_order)
unfolding be_value be_from
normalize_low_s-low_example =
    normalize_low_s-low low_half high_half refl refl (omega arith) (omega arith)

der_to_compact-der_integer_example :
    der_to_compact (der 69 (der_integer low_half) (der_integer high_half))
    ≡ ok (low_half ++ high_half)
der_to_compact-der_integer_example = der_to_compact-der_integer 69 low_half high_half refl refl

-- The header of the SPKI form of a P-256 key.
abbrev pub p256_header : List ℕ
p256_header =
    0x30 ∷ 0x59 ∷ 0x30 ∷ 0x13 ∷ 0x06 ∷ 0x07 ∷ 0x2a ∷ 0x86 ∷ 0x48 ∷ 0xce ∷ 0x3d ∷ 0x02 ∷ 0x01 ∷ 0x06
    ∷ 0x08 ∷ 0x2a ∷ 0x86 ∷ 0x48 ∷ 0xce ∷ 0x3d ∷ 0x03 ∷ 0x01 ∷ 0x07 ∷ 0x03 ∷ 0x42 ∷ 0x00 ∷ []

spki_to_compressed_key-sec1_example :
    spki_to_compressed_key
      (p256_header ++ (0x04 ∷ (replicate 32 9 ++ (replicate 31 8 ++ (7 ∷ [])))))
    ≡ ok (sec1 (replicate 32 9) (replicate 31 8 ++ (7 ∷ [])))
spki_to_compressed_key-sec1_example =
    spki_to_compressed_key-sec1 p256_header (replicate 32 9) (replicate 31 8) [] 7 (ground arith)
      refl refl (omega arith)

abbrev pub assertion : Assertion
assertion = record {
  authenticator_data = replicate 37 1;
  client_data_json = codes "{}";
  signature = der 69 (der_integer low_half) (der_integer high_half);
  raw_id = 1 ∷ 2 ∷ [];
}

abbrev pub navigator : Navigator
navigator = record {
  has_credentials = true;
  create = λ options. null;
  get = λ options. answer assertion;
}

sign_intent-low_example :
    (t : List ℕ) × (sign_intent navigator (replicate 32 3) (some (1 ∷ 2 ∷ [])) (codes "localhost")
      ≡ ok (record {
        authenticator_data = assertion.authenticator_data;
        client_data_json = assertion.client_data_json;
        signature = low_half ++ t;
        credential_id = assertion.raw_id;
      }))
    × (length t ≡ 32)
    × (be_value t ≡ low (be_value high_half))
    × (be_value t ≤ half_order)
unfolding be_value be_from
sign_intent-low_example =
    sign_intent-low navigator (replicate 32 3) (codes "localhost") (some (1 ∷ 2 ∷ [])) assertion 69
      low_half high_half refl refl refl refl refl (omega arith) (omega arith)

-- What the browser's signature comes to, whatever the challenge.
pub signed :
    (challenge : List ℕ)
    → (t : List ℕ) × (sign_intent navigator challenge (some (1 ∷ 2 ∷ [])) (codes "localhost")
        ≡ ok (record {
          authenticator_data = assertion.authenticator_data;
          client_data_json = assertion.client_data_json;
          signature = low_half ++ t;
          credential_id = assertion.raw_id;
        }))
unfolding be_value be_from
signed challenge =
    let (t, e, _, _, _) =
      sign_intent-low navigator challenge (codes "localhost") (some (1 ∷ 2 ∷ [])) assertion 69
        low_half high_half refl refl refl refl refl (omega arith) (omega arith) in
    (t, e)
