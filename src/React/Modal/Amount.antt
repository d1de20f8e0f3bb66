-- ===== src/React/Modal/Amount.antt =====
-- The amount that the confirmation of packages/sdk/src/react/modal.tsx goes by, from the parameters that
-- packages/sdk/src/react/intent.ts puts into the intent.
use trana.Prelude.{
  ℕ, ◌^◌, ◌<◌, ◌≡◌, refl, ap, ◌∙◌, arith, List, ◌++◌, Option, none, some, if◌then◌else◌, length,
  length-append, take-append, take-all, ◌≤◌, drop-append, ltb, lt→ltb, le→not_ltb,
}
use trana.Bytes.{le_bytes, slice}
use trana.Bytes.Endian.{length-le_bytes, le_value-le_bytes, le_bytes-IsBytes}
use trana.Bytes.Hex.{to_hex-append, to_hex, from_hex, from_hex-to_hex, length-to_hex}
use trana.Sha256.{decode_params_u64}
use trana.Types.{KeyText, Instruction}
use trana.Intent.{IntentConfig}
use trana.React.Intent.{build_intent, intent_from_instruction}
use trana.React.Modal.{confirmation_amount}

-- The first 16 digits are the 8 bytes in front.
from_hex-slice :
    (amount : ℕ) (rest : List ℕ)
    → from_hex (slice (to_hex (le_bytes 8 amount ++ rest)) 0 16) ≡ le_bytes 8 amount
from_hex-slice amount rest = rw (to_hex-append (le_bytes 8 amount) rest) (
    ap from_hex (take-append (to_hex (le_bytes 8 amount)) (to_hex rest) 16 sixteen)
    ∙ from_hex-to_hex (le_bytes 8 amount) (le_bytes-IsBytes 8 amount))
  where
    sixteen : length (to_hex (le_bytes 8 amount)) ≡ 16
    sixteen = omega (arith, length-to_hex (le_bytes 8 amount), length-le_bytes 8 amount)

params_read :
    (ix : Instruction) (label : Option (List ℕ)) (disc : List ℕ) (amount : ℕ) (rest : List ℕ)
    → ix.payload ≡ disc ++ (le_bytes 8 amount ++ rest)
    → length disc ≡ 8
    → (intent_from_instruction ix label).params ≡ some (le_bytes 8 amount ++ rest)
unfolding intent_from_instruction
params_read ix label disc amount rest is_data disc_8 = rw is_data (
    rw (lt→ltb 8 (length (disc ++ (le_bytes 8 amount ++ rest))) long)
      (rw (drop-append disc (le_bytes 8 amount ++ rest) 8 disc_8) refl))
  where
    long : 8 < length (disc ++ (le_bytes 8 amount ++ rest))
    long = omega (
      arith,
      length-append disc (le_bytes 8 amount ++ rest),
      length-append (le_bytes 8 amount) rest,
      length-le_bytes 8 amount,
    )

shown :
    (amount : ℕ) (rest : List ℕ)
    → amount < 2 ^ 64
    → (if ltb (length (to_hex (le_bytes 8 amount ++ rest))) 16
        then none
        else decode_params_u64 (from_hex (slice (to_hex (le_bytes 8 amount ++ rest)) 0 16)))
      ≡ some amount
unfolding decode_params_u64
shown amount rest small = rw (le→not_ltb 16 (length (to_hex (le_bytes 8 amount ++ rest))) long) (
    rw (from_hex-slice amount rest) (
      rw (length-le_bytes 8 amount, take-all (le_bytes 8 amount) 8 eight)
        (ap some (le_value-le_bytes 8 amount small))))
  where
    eight : length (le_bytes 8 amount) ≤ 8
    eight = omega (arith, length-le_bytes 8 amount)

    long : 16 ≤ length (to_hex (le_bytes 8 amount ++ rest))
    long = omega (
      arith,
      length-to_hex (le_bytes 8 amount ++ rest),
      length-append (le_bytes 8 amount) rest,
      length-le_bytes 8 amount,
    )

-- For an instruction whose data are a discriminator of 8 bytes, an amount below 2 ^ 64 in 8 bytes and
-- whatever else, the lamports that the confirmation of the intent made from it hands to its formatting
-- are exactly that amount, whatever the label, the nonce, the configuration and the time.
pub confirmation_amount-build_intent :
    (keys : KeyText) (wallet guard : List ℕ) (ix : Instruction) (label : Option (List ℕ))
    (nonce : ℕ) (config : IntentConfig) (now_ms : ℕ) (disc : List ℕ) (amount : ℕ) (rest : List ℕ)
    → ix.payload ≡ disc ++ (le_bytes 8 amount ++ rest)
    → length disc ≡ 8
    → amount < 2 ^ 64
    → confirmation_amount
        (build_intent keys wallet guard (intent_from_instruction ix label) nonce config now_ms)
      ≡ some amount
unfolding confirmation_amount build_intent
confirmation_amount-build_intent keys wallet guard ix label nonce config now_ms disc amount rest
      is_data disc_8 small =
    rw (params_read ix label disc amount rest is_data disc_8) (shown amount rest small)
