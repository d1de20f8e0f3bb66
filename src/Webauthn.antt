-- ===== src/Webauthn.antt =====
-- packages/sdk/src/core/webauthn.ts: registration and signing with a passkey, and the conversions of
-- keys and signatures. The browser's `navigator.credentials` is a parameter.
pub mod Radix
pub mod Der
pub mod LowS
pub mod Spki
pub mod Ceremony
use trana.Prelude.{ℕ, zero, suc, ◌+◌, ◌-◌, ◌*◌, ◌/◌, ◌%◌, ◌^◌, bit_and}
use trana.Prelude.{List, [], ◌∷◌, ◌++◌, Option, none, some, Bool, true, false, not, ltb, leb, ◌==◌}
use trana.Prelude.{if◌then◌else◌, length, take, drop, replicate, get_or, get_elem?}
use trana.Prelude.Result.{Result, ok, err, ◌>>=◌, ◌>>◌, guard}
use trana.Bytes.{slice, put}
use trana.Bytes.Hex.{hex_digit, digit_value, to_hex}
use trana.Intent.{pad_start}
use trana.Types.{PasskeyHandle}

-- `TranaWebAuthnError` by its code; `thrown` is any other exception.
pub data Error : Type 0 where
  unavailable cancelled unsupported invalid_signature thrown : Error

abbrev pub found_is : Option ℕ → ℕ → Bool
found_is none b = false
found_is (some c) b = c == b

-- `bytes[i] === b`; past the end the byte is `undefined`.
abbrev pub byte_is : List ℕ → ℕ → ℕ → Bool
byte_is bytes i b = found_is (get_elem? bytes i) b

-- The compressed form of the point with these coordinates.
unfoldable pub compressed : (x y : List ℕ) → List ℕ
compressed x y = (if bit_and (get_or y 31 0) 1 == 0 then 0x02 else 0x03) ∷ x

-- The loop of `spkiToCompressedKey`, over the bytes from index `i` on.
unfoldable pub spki_to_compressed_key : List ℕ → Result Error (List ℕ)
spki_to_compressed_key [] = err unsupported
spki_to_compressed_key (b ∷ rest) =
    if leb 65 (length (b ∷ rest))
    then if b == 0x04
      then ok (compressed (slice (b ∷ rest) 1 33) (slice (b ∷ rest) 33 65))
      else spki_to_compressed_key rest
    else err unsupported

-- The last 32 bytes at most, right-aligned in 32.
abbrev pub align : List ℕ → List ℕ
align bytes =
    let kept = if ltb 32 (length bytes) then drop (length bytes - 32) bytes else bytes in
    replicate (32 - length kept) 0 ++ kept

-- `slice(offset, offset + len)`; an absent length makes the end `NaN`, which `slice` reads as 0.
abbrev pub slice_len : List ℕ → ℕ → Option ℕ → List ℕ
slice_len bytes offset none = []
slice_len bytes offset (some len) = slice bytes offset (offset + len)

-- The part of `derToCompact` from the second integer on.
unfoldable pub der_second : List ℕ → List ℕ → ℕ → Result Error (List ℕ)
der_second der r offset = do
  guard (byte_is der offset 0x02) invalid_signature
  ok (align r ++ align (slice_len der (offset + 2) (get_elem? der (offset + 1))))

-- Without a length byte for r the offset is `NaN`, at which there is no byte.
unfoldable pub der_first : List ℕ → Option ℕ → Result Error (List ℕ)
der_first der none = err invalid_signature
der_first der (some r_len) = der_second der (slice der 4 (4 + r_len)) (4 + r_len)

unfoldable pub der_to_compact : List ℕ → Result Error (List ℕ)
der_to_compact der = do
  guard (byte_is der 0 0x30) invalid_signature
  guard (byte_is der 2 0x02) invalid_signature
  der_first der (get_elem? der 3)

-- The order of P-256.
abbrev pub curve_order : ℕ
curve_order = 0xffffffff00000000ffffffffffffffffbce6faada7179e84f3b9cac2fc632551

abbrev pub half_order : ℕ
half_order = curve_order / 2

-- `BigInt("0x" + hex)`; a text with no digit is a SyntaxError.
hex_value_from : ℕ → List ℕ → Option ℕ
hex_value_from acc [] = some acc
hex_value_from acc (c ∷ cs) = elim (digit_value c) [
  | none ↦ none
  | some v ↦ hex_value_from (acc * 16 + v) cs
]

unfoldable pub hex_to_bigint : List ℕ → Option ℕ
unfolding hex_value_from
hex_to_bigint [] = none
hex_to_bigint (b ∷ bs) = hex_value_from 0 (to_hex (b ∷ bs))

-- `n.toString(16)`; the fuel bounds the number of digits.
unfoldable pub hex_text_from : ℕ → ℕ → List ℕ → List ℕ
hex_text_from zero n rest = rest
hex_text_from (suc fuel) n rest =
    let last = hex_digit (n % 16) ∷ rest in
    let more = hex_text_from fuel (n / 16) last in if ltb n 16 then last else more

-- `(a - b).toString(16)`, with the sign in front of a negative difference. 64 digits hold each side
-- of a difference of two numbers below 2 ^ 256.
unfoldable pub difference_text : ℕ → ℕ → List ℕ
difference_text a b =
    if leb b a then hex_text_from 64 (a - b) [] else b'-' ∷ hex_text_from 64 (b - a) []

-- `parseInt` of two characters in base 16, stored in a byte: a sign is read, the digits end at the
-- first other character, and no digit is `NaN`, which is stored as 0.
unfoldable pub parse_pair : ℕ → ℕ → ℕ
parse_pair a b =
    if a == b'-'
    then elim (digit_value b) [ none ↦ 0 | some v ↦ (256 - v) % 256 ]
    else elim (digit_value a) [
      | none ↦ 0
      | some hi ↦ elim (digit_value b) [ none ↦ hi | some lo ↦ hi * 16 + lo ]
    ]

-- The loop that stores `n` bytes.
unfoldable pub parse_pairs : ℕ → List ℕ → List ℕ
parse_pairs zero cs = []
parse_pairs (suc n) [] = []
parse_pairs (suc n) (c ∷ []) = []
parse_pairs (suc n) (c ∷ d ∷ cs) = parse_pair c d ∷ parse_pairs n cs

unfoldable pub normalize_low_s : List ℕ → Result Error (List ℕ)
normalize_low_s compact = elim (hex_to_bigint (drop 32 compact)) [
  | none ↦ err thrown
  | some s ↦
      if leb s half_order
      then ok compact
      else ok (
          put (put (replicate 64 0) 0 (slice compact 0 32)) 32
            (parse_pairs 32 (pad_start 64 (difference_text curve_order s))))
]

-- The options of `navigator.credentials.create` and `get` that the SDK fills in.
pub record CreateOptions : Type 0 where
  pub challenge : List ℕ
  pub rp_id : List ℕ
  pub user_id : List ℕ
  pub user_name : List ℕ

pub record GetOptions : Type 0 where
  pub challenge : List ℕ
  pub rp_id : List ℕ
  pub allow_credentials : List (List ℕ)

-- `spki` is the result of `getPublicKey()`.
pub record Attestation : Type 0 where
  pub spki : Option (List ℕ)
  pub raw_id : List ℕ

pub record Assertion : Type 0 where
  pub authenticator_data : List ℕ
  pub client_data_json : List ℕ
  pub signature : List ℕ
  pub raw_id : List ℕ

-- How a call of the browser ends: it rejects, it gives `null`, or it gives a credential.
pub data Reply {ℓ} (A : Type ℓ) : Type ℓ where
  rejected : Reply A
  null : Reply A
  answer : A → Reply A

pub record Navigator : Type 0 where
  pub has_credentials : Bool
  pub create : CreateOptions → Reply Attestation
  pub get : GetOptions → Reply Assertion

-- `await` on a reply, then the test for `null`.
abbrev pub answered {ℓ} : {A : Type ℓ} → Reply A → Result Error A
answered rejected = err thrown
answered null = err cancelled
answered (answer a) = ok a

abbrev pub assert_webauthn_available : Navigator → Result Error (Unit {0})
assert_webauthn_available nav = guard nav.has_credentials unavailable

abbrev pub or_unsupported : Option (List ℕ) → Result Error (List ℕ)
or_unsupported none = err unsupported
or_unsupported (some spki) = ok spki

-- `challenge` is the result of `randomBytes(32)`.
unfoldable pub register_passkey :
    Navigator → (challenge rp_id user_id user_display_name : List ℕ) → Result Error PasskeyHandle
register_passkey nav challenge rp_id user_id user_display_name = do
  assert_webauthn_available nav
  credential ← answered (
      nav.create (record {
        challenge = challenge;
        rp_id = rp_id;
        user_id = user_id;
        user_name = user_display_name;
      }))
  spki ← or_unsupported credential.spki
  pubkey_bytes ← spki_to_compressed_key spki
  ok (record { pubkey_bytes = pubkey_bytes; credential_id = credential.raw_id })

pub record SigningResult : Type 0 where
  pub authenticator_data : List ℕ
  pub client_data_json : List ℕ
  pub signature : List ℕ
  pub credential_id : List ℕ

-- `credentialId?.length ? [credentialId] : []`
abbrev pub allowed : Option (List ℕ) → List (List ℕ)
allowed none = []
allowed (some []) = []
allowed (some (b ∷ bs)) = (b ∷ bs) ∷ []

unfoldable pub sign_intent :
    Navigator
    → (challenge : List ℕ) → (credential_id : Option (List ℕ)) → (rp_id : List ℕ)
    → Result Error SigningResult
sign_intent nav challenge credential_id rp_id = do
  assert_webauthn_available nav
  assertion ← answered (
      nav.get (record {
        challenge = challenge;
        rp_id = rp_id;
        allow_credentials = allowed credential_id;
      }))
  compact ← der_to_compact assertion.signature
  low_s ← normalize_low_s compact
  ok (record {
    authenticator_data = assertion.authenticator_data;
    client_data_json = assertion.client_data_json;
    signature = low_s;
    credential_id = assertion.raw_id;
  })
