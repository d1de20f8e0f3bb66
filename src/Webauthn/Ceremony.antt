-- ===== src/Webauthn/Ceremony.antt =====
-- signIntent of packages/sdk/src/core/webauthn.ts, from the authenticator's answer to its result.
use trana.Prelude.{ℕ, ◌≤◌, ◌<◌, ◌≡◌, refl, List, ◌++◌, Option, true, length, arith}
use trana.Prelude.{length-append}
use trana.Prelude.Result.{ok}
use trana.Bytes.{IsBytes, be_value}
use trana.Webauthn.{
  Navigator, Assertion, answer, allowed, SigningResult, sign_intent, der_to_compact,
  normalize_low_s, curve_order, half_order,
}
use trana.Webauthn.Der.{der, der_integer, der_to_compact-der_integer, der_to_compact-Halves}
use trana.Webauthn.LowS.{low, normalize_low_s-low, normalize_low_s-halves}

-- When the authenticator answers with the DER form of a signature of 32-byte halves r and s, s below
-- the order, signing succeeds: the authenticator's bytes are passed on as they are, and the signature
-- is r followed by 32 bytes for the smaller of s and n - s.
pub sign_intent-low :
    (nav : Navigator) (challenge rp_id : List ℕ) (credential_id : Option (List ℕ)) (a : Assertion)
    (total : ℕ) (r s : List ℕ)
    → nav.has_credentials ≡ true
    → nav.get
        (record { challenge = challenge; rp_id = rp_id; allow_credentials = allowed credential_id })
      ≡ answer a
    → a.signature ≡ der total (der_integer r) (der_integer s)
    → length r ≡ 32
    → length s ≡ 32
    → IsBytes s
    → be_value s < curve_order
    → (t : List ℕ) × (sign_intent nav challenge credential_id rp_id
        ≡ ok (record {
          authenticator_data = a.authenticator_data;
          client_data_json = a.client_data_json;
          signature = r ++ t;
          credential_id = a.raw_id;
        }))
      × (length t ≡ 32)
      × (be_value t ≡ low (be_value s))
      × (be_value t ≤ half_order)
unfolding sign_intent
sign_intent-low nav challenge rp_id credential_id a total r s here answers is_der h k p below =
    let (t, normal, t_32, value, small) = normalize_low_s-low r s h k p below in
    (
      t,
      rw here
          (rw answers (rw is_der (rw (der_to_compact-der_integer total r s h k) (rw normal refl)))),
      t_32,
      value,
      small,
    )

signature_64 :
    (bytes compact low_s : List ℕ)
    → der_to_compact bytes ≡ ok compact
    → normalize_low_s compact ≡ ok low_s
    → length low_s ≡ 64
signature_64 bytes compact low_s converted normal =
    let (r, s, split, h, k) = der_to_compact-Halves bytes converted in
    let (t, same, t_32) = normalize_low_s-halves r s h k (rw split at normal) in
    rw same (omega (arith, length-append r t))

-- Whatever the authenticator answers, a signature that is returned has 64 bytes.
pub length-sign_intent :
    (nav : Navigator) (challenge rp_id : List ℕ) (credential_id : Option (List ℕ))
    (out : SigningResult)
    → sign_intent nav challenge credential_id rp_id ≡ ok out
    → length out.signature ≡ 64
unfolding sign_intent
length-sign_intent nav challenge rp_id credential_id out e = grind (arith, signature_64)
