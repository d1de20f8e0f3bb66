-- ===== src/React/Webauthn.antt =====
-- packages/sdk/src/react/webauthn.ts: the React layer's own conversions of signatures and keys, and its
-- ceremonies. `navigator.credentials` and the round through TextDecoder are parameters.
pub mod Signatures
pub mod Keys
use trana.Prelude.{ℕ, zero, suc, ◌+◌, ◌-◌, ◌*◌, ◌/◌, ◌%◌, bit_and}
use trana.Prelude.{List, [], ◌∷◌, ◌++◌, Option, none, some, Bool, true, false, ltb, leb, ◌==◌}
use trana.Prelude.{if◌then◌else◌, length, take, drop, replicate, get_or, get_elem?, codes}
use trana.Prelude.Result.{Result, ok, err, ◌>>=◌, ◌>>◌, guard}
use trana.Bytes.{slice, put}
use trana.Bytes.Hex.{from_hex}
use trana.Intent.{pad_start}
use trana.Types.{PasskeyHandle}
use trana.Webauthn.{byte_is, hex_to_bigint, difference_text, curve_order, half_order}
use trana.Webauthn.{Navigator, Reply, rejected, null, answer}
use mathlib.Core.Option

-- Each `throw new Error(…)` by its message; `thrown` is any other exception.
pub data Error : Type 0 where
  invalid_der no_public_key no_point wrong_length wrong_prefix cancelled thrown : Error

abbrev pub pad_left : List ℕ → ℕ → List ℕ
pad_left bytes n = replicate (n - length bytes) 0 ++ bytes

-- The index behind the length of the sequence.
abbrev pub after_length : Option ℕ → ℕ
after_length none = 2
after_length (some b) = if ltb 0x80 b then 1 + (b - 0x80) + 1 else 2

-- An integer of `len` bytes at index `i`: one byte is skipped and 32 are taken where it is longer
-- than 32 bytes. An absent length makes the end `NaN`, which `slice` reads as 0.
abbrev pub integer_at : List ℕ → ℕ → Option ℕ → List ℕ
integer_at bytes i none = []
integer_at bytes i (some len) =
    if ltb 32 len then slice bytes (i + 1) (i + 1 + 32) else slice bytes i (i + len)

-- The part of `derToCompact` from the second integer on.
unfoldable pub der_second : List ℕ → List ℕ → ℕ → Result Error (List ℕ)
der_second bytes r i = do
  guard (byte_is bytes i 0x02) invalid_der
  ok (pad_left r 32 ++ pad_left (integer_at bytes (i + 2) (get_elem? bytes (i + 1))) 32)

-- Without a length byte for r the index is `NaN`, at which there is no byte.
unfoldable pub der_first : List ℕ → ℕ → Option ℕ → Result Error (List ℕ)
der_first bytes i none = err invalid_der
der_first bytes i (some r_len) = der_second bytes (integer_at bytes i (some r_len)) (i + r_len)

unfoldable pub der_to_compact : List ℕ → Result Error (List ℕ)
der_to_compact bytes = do
  guard (byte_is bytes 0 0x30) invalid_der
  guard (byte_is bytes (after_length (get_elem? bytes 1)) 0x02) invalid_der
  der_first bytes (after_length (get_elem? bytes 1) + 2)
      (get_elem? bytes (after_length (get_elem? bytes 1) + 1))

unfoldable pub low_s : List ℕ → Result Error (List ℕ)
low_s compact = elim (hex_to_bigint (drop 32 compact)) [
  | none ↦ err thrown
  | some s ↦
      if leb s half_order
      then ok compact
      else ok (
          put (put (replicate 64 0) 0 (slice compact 0 32)) 32
            (from_hex (pad_start 64 (difference_text curve_order s))))
]

-- `bytes.indexOf(b)`
unfoldable pub index_of : ℕ → List ℕ → Option ℕ
index_of b [] = none
index_of b (c ∷ bytes) = if c == b then some 0 else Option.map suc (index_of b bytes)

unfoldable pub compress_p256 : List ℕ → Result Error (List ℕ)
compress_p256 uncompressed = do
  guard (byte_is uncompressed 0 0x04) wrong_prefix
  ok (
      (if bit_and (get_or (slice uncompressed 33 65) 31 0) 1 == 0 then 0x02 else 0x03)
      ∷ slice uncompressed 1 33)

-- The part of `extractPubkeyFromAttestation` from the index of the point on.
unfoldable pub point_at : List ℕ → Option ℕ → Result Error (List ℕ)
point_at spki none = err no_point
point_at spki (some offset) = do
  guard (length (slice spki offset (offset + 65)) == 65) wrong_length
  compress_p256 (slice spki offset (offset + 65))

-- The argument is the result of `getPublicKey()`.
unfoldable pub extract_pubkey_from_attestation : Option (List ℕ) → Result Error (List ℕ)
extract_pubkey_from_attestation none = err no_public_key
extract_pubkey_from_attestation (some spki) = point_at spki (index_of 0x04 spki)

abbrev answered {ℓ} : {A : Type ℓ} → Reply A → Result Error A
answered rejected = err thrown
answered null = err cancelled
answered (answer a) = ok a

-- `challenge` and `user_id` are random bytes; `hostname` is that of the page.
unfoldable pub do_registration :
    Navigator
    → (challenge user_id hostname : List ℕ) → (rp_id : Option (List ℕ)) → Result Error PasskeyHandle
do_registration nav challenge user_id hostname rp_id = do
  credential ← answered (
      nav.create (record {
        challenge = challenge;
        rp_id = Option.get_or rp_id hostname;
        user_id = user_id;
        user_name = codes "trana-user";
      }))
  pubkey ← extract_pubkey_from_attestation credential.spki
  ok (record { pubkey_bytes = pubkey; credential_id = credential.raw_id })

pub record Approval : Type 0 where
  pub sig : List ℕ
  pub authenticator_data : List ℕ
  pub client_data_json : List ℕ

-- `reencode` is `new TextEncoder().encode(new TextDecoder().decode(…))`.
unfoldable pub do_approval :
    Navigator
    → (reencode : List ℕ → List ℕ) → (credential_id payload_hash hostname : List ℕ)
    → (rp_id : Option (List ℕ)) → Result Error Approval
do_approval nav reencode credential_id payload_hash hostname rp_id = do
  credential ← answered (
      nav.get (record {
        challenge = payload_hash;
        rp_id = Option.get_or rp_id hostname;
        allow_credentials = credential_id ∷ [];
      }))
  compact ← der_to_compact credential.signature
  sig ← low_s compact
  ok (record {
    sig = sig;
    authenticator_data = credential.authenticator_data;
    client_data_json = reencode credential.client_data_json;
  })
