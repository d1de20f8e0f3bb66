-- ===== src/Webauthn/Spki.antt =====
-- spkiToCompressedKey of packages/sdk/src/core/webauthn.ts.
use trana.Prelude.{ℕ, ◌+◌, ◌%◌, ◌<◌, ◌≡◌, ◌≢◌, refl, sym, ap, ap₂, ◌∙◌, arith}
use trana.Prelude.{
  List, [], ◌∷◌, ◌++◌, append_assoc, le→leb, ◌==◌, if◌then◌else◌, All, bit_and, false,
}
use trana.Prelude.{length, length-append, take, drop, get_or, take-append, drop-append}
use trana.Bytes.{be_value}
use trana.Bytes.Endian.{be_from-append}
use trana.Bytes.Bits.{bit_and-one}
use trana.Prelude.Result.{ok}
use trana.Webauthn.{compressed, spki_to_compressed_key}

get_or-append : (xs : List ℕ) (b : ℕ) → get_or (xs ++ (b ∷ [])) (length xs) 0 ≡ b
get_or-append [] b = refl
get_or-append (x ∷ xs) b = get_or-append xs b

-- The SEC1 form: the prefix says whether y is odd, and x follows.
abbrev pub sec1 : (x y : List ℕ) → List ℕ
sec1 x y = (2 + be_value y % 2) ∷ x

compressed-sec1 :
    (x y : List ℕ) (b : ℕ)
    → length y ≡ 31
    → b < 256
    → compressed x (y ++ (b ∷ [])) ≡ sec1 x (y ++ (b ∷ []))
unfolding compressed be_value
compressed-sec1 x y b h byte =
    ap (λ t. t ∷ x)
      (ap (λ t. if bit_and (get_or (y ++ (b ∷ [])) t 0) 1 == 0 then 2 else 3) (sym h)
        ∙ ground (arith, get_or-append y b, bit_and-one b byte, be_from-append 0 y b))

not_four : (c : ℕ) → c ≢ 4 → (c == 4) ≡ false
not_four c p = ground arith

-- In SPKI bytes whose header has no 0x04 the point is found, and its SEC1 form is the key.
pub spki_to_compressed_key-sec1 :
    (header x y after : List ℕ) (b : ℕ)
    → All (λ c. c ≢ 0x04) header
    → length x ≡ 32
    → length y ≡ 31
    → b < 256
    → spki_to_compressed_key (header ++ (0x04 ∷ (x ++ (y ++ (b ∷ after)))))
      ≡ ok (sec1 x (y ++ (b ∷ [])))
unfolding spki_to_compressed_key
spki_to_compressed_key-sec1 [] x y after b p h k byte =
    rw
      (le→leb 65 (length (0x04 ∷ (x ++ (y ++ (b ∷ after)))))
        (omega (arith, length-append x (y ++ (b ∷ after)), length-append y (b ∷ after))))
      (ap ok (
        ap₂ compressed (take-append x (y ++ (b ∷ after)) 32 h) second
        ∙ compressed-sec1 x y b k byte))
  where
    second : take 32 (drop 32 (x ++ (y ++ (b ∷ after)))) ≡ y ++ (b ∷ [])
    second =
        ap (take 32) (drop-append x (y ++ (b ∷ after)) 32 h ∙ sym (append_assoc y (b ∷ []) after))
        ∙ take-append (y ++ (b ∷ [])) after 32 (omega (arith, length-append y (b ∷ [])))
spki_to_compressed_key-sec1 (c ∷ header) x y after b (p, ps) h k byte =
    rw
      (le→leb 65 (length (c ∷ (header ++ (0x04 ∷ (x ++ (y ++ (b ∷ after))))))) (
        omega (
          arith,
          length-append header (0x04 ∷ (x ++ (y ++ (b ∷ after)))),
          length-append x (y ++ (b ∷ after)),
          length-append y (b ∷ after),
        )))
      (rw (not_four c p) (spki_to_compressed_key-sec1 header x y after b ps h k byte))
