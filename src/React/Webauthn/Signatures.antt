-- ===== src/React/Webauthn/Signatures.antt =====
-- derToCompact and lowS of packages/sdk/src/react/webauthn.ts against core/webauthn.ts.
use trana.Prelude.{ℕ, suc, ◌+◌, ◌-◌, ◌≤◌, ◌<◌, ◌≡◌, refl, sym, ap, ap₂, ◌∙◌, arith}
use trana.Prelude.{List, [], ◌∷◌, ◌++◌, some, Bool-cases, inl, inr, leb, ltb}
use trana.Prelude.{
  length, length-append, take, drop, replicate, append-nil, append_assoc, ltb→lt, zero, false,
}
use trana.Prelude.Result.{ok}
use trana.Bytes.{IsBytes, slice, be_value}
use trana.Webauthn
use trana.Webauthn.{curve_order, half_order, align, difference_text}
use trana.Webauthn.LowS.{put_halves, read_s, normalize_low_s-keeps, normalize_low_s-flips}
use trana.Webauthn.Radix.{difference_bytes}
use trana.Bytes.{be_bytes, put}
use trana.Bytes.Endian.{length-be_bytes, be_bytes-IsBytes}
use trana.Bytes.Hex.{from_hex, from_hex-to_hex}
use trana.Intent.{pad_start}
use trana.Prelude.{take-append}
use trana.Bytes.Writes.{slice-middle}
use trana.Webauthn.Der.{der, der_to_compact-der, second_tag, second_length}
use trana.React.Webauthn.{der_to_compact, der_first, der_second, integer_at, low_s, pad_left}

-- An integer of at most 33 bytes is taken as the core takes it.
integer_at-align :
    (bytes front xs after : List ℕ) (i : ℕ)
    → bytes ≡ front ++ (xs ++ after)
    → i ≡ length front
    → length xs ≤ 33
    → pad_left (integer_at bytes i (some (length xs))) 32 ≡ align xs
integer_at-align bytes front [] after i e at h =
    ap (λ t. replicate (32 - length t) 0 ++ t)
      (ap (λ t. take t (drop i bytes)) {y = zero} (omega arith))
integer_at-align bytes front (x ∷ xs) after i e at h =
    elim (Bool-cases (ltb 32 (suc (length xs)))) [
      | inl long ↦ rw long (
          ap (λ t. replicate (32 - length t) 0 ++ t)
            (ap (λ t. slice t (i + 1) (i + 1 + 32))
                (e ∙ sym (append_assoc front (x ∷ []) (xs ++ after)))
              ∙ slice-middle (front ++ (x ∷ [])) xs after (i + 1) (i + 1 + 32)
                  (omega (arith, length-append front (x ∷ [])))
                  (omega (arith, ltb→lt 32 (suc (length xs)) long))
              ∙ ap (λ t. drop t (x ∷ xs)) {x = suc zero}
                  (omega (arith, ltb→lt 32 (suc (length xs)) long))))
      | inr whole ↦ rw whole (
          ap (λ t. replicate (32 - length t) 0 ++ t)
            (ap (λ t. slice t i (i + suc (length xs))) e
              ∙ slice-middle front (x ∷ xs) after i (i + suc (length xs)) (sym at) refl))
    ]

-- A DER signature in short form, with integers of at most 33 bytes, converts to the same 64 bytes in
-- the React layer as in the core.
pub der_to_compact-agrees :
    (total : ℕ) (r s : List ℕ)
    → total ≤ 0x80
    → length r ≤ 33
    → length s ≤ 33
    → (out : List ℕ) × (der_to_compact (der total r s) ≡ ok out)
      × (Webauthn.der_to_compact (der total r s) ≡ ok out)
unfolding der_to_compact der_first der_second
der_to_compact-agrees total r s short h k =
    (align r ++ align s, converted, der_to_compact-der total r s)
  where
    front : List ℕ
    front = 0x30 ∷ total ∷ 0x02 ∷ length r ∷ (r ++ (0x02 ∷ length s ∷ []))

    no_long : ltb 0x80 total ≡ false
    no_long = ground arith

    split : der total r s ≡ front ++ (s ++ [])
    split = simp (append_assoc, append-nil)

    first : pad_left (integer_at (der total r s) 4 (some (length r))) 32 ≡ align r
    first =
        integer_at-align (der total r s) (0x30 ∷ total ∷ 0x02 ∷ length r ∷ []) r
          (0x02 ∷ length s ∷ s) 4 refl refl h

    second : pad_left (integer_at (der total r s) (4 + length r + 2) (some (length s))) 32 ≡ align s
    second =
        integer_at-align (der total r s) front s [] (4 + length r + 2) split
          (omega (arith, length-append r (0x02 ∷ length s ∷ []))) k

    converted : der_to_compact (der total r s) ≡ ok (align r ++ align s)
    converted = rw no_long (
        rw (second_tag total r s)
          (rw (second_length total r s) (ap ok (ap₂ (λ x y. x ++ y) first second))))

-- A signature of two 32-byte halves whose s is below the order has the same low-s form in the React
-- layer as in the core.
pub low_s-agrees :
    (r s : List ℕ)
    → length r ≡ 32
    → length s ≡ 32
    → IsBytes s
    → be_value s < curve_order
    → (out : List ℕ) × (low_s (r ++ s) ≡ ok out) × (Webauthn.normalize_low_s (r ++ s) ≡ ok out)
unfolding low_s
low_s-agrees r s h k p below = elim (Bool-cases (leb (be_value s) half_order)) [
  | inl small ↦
      (r ++ s, rw (read_s r s h k p, low_s) (rw small refl), normalize_low_s-keeps r s h k p small)
  | inr high ↦ (
    r ++ flipped,
    rw (read_s r s h k p, low_s)
        (rw high (
          ap ok (
            ap₂ (λ xs ys. put (put (replicate 64 0) 0 xs) 32 ys) (take-append r s 32 h) read
            ∙ put_halves r flipped h (length-be_bytes 32 _)))),
    normalize_low_s-flips r s h k p below high,
  )
]
  where
    flipped : List ℕ
    flipped = be_bytes 32 (curve_order - be_value s)

    read :
        from_hex (pad_start 64 (difference_text curve_order (be_value s)))
        ≡ be_bytes 32 (curve_order - be_value s)
    read =
        ap from_hex (difference_bytes curve_order (be_value s) (omega arith) (omega arith))
        ∙ from_hex-to_hex flipped (be_bytes-IsBytes 32 (curve_order - be_value s))
