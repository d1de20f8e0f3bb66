-- ===== src/Webauthn/Radix.antt =====
-- Numbers in hexadecimal text: what `toString(16)`, `padStart` and `parseInt` do to a number that
-- fits, and what `BigInt("0x" + hex)` reads.
use trana.Prelude.{
  ℕ, zero, suc, ◌+◌, ◌-◌, ◌*◌, ◌/◌, ◌%◌, ◌^◌, ◌≤◌, ◌<◌, ◌≡◌, refl, sym, ap, ap₂, ◌∙◌, arith,
}
use trana.Prelude.{List, [], ◌∷◌, ◌++◌, append_assoc, some, ltb}
use trana.Prelude.{
  length, replicate, replicate-add, Bool-cases, inl, inr, lt→ltb, ltb→lt, le→leb, append-nil,
}
use native.Mathlib.Nat.{pow-suc}
use trana.Bytes.{IsBytes, be_bytes, be_from, be_value}
use trana.Bytes.Hex.{to_hex-append, hex_digit, digit_value, digit_value-hex_digit, to_hex}
use trana.Intent.{pad_start}
use trana.Webauthn.{
  hex_value_from, hex_to_bigint, hex_text_from, parse_pair, parse_pairs, difference_text,
}

-- The `k` lowest hexadecimal digits of a number.
abbrev pub fixed : ℕ → ℕ → List ℕ
fixed zero n = []
fixed (suc k) n = fixed k (n / 16) ++ (hex_digit (n % 16) ∷ [])

abbrev forty_eight : ℕ
forty_eight = 48

fixed-zero : (k : ℕ) → fixed k 0 ≡ replicate k 48
unfolding hex_digit
fixed-zero zero = refl
fixed-zero (suc k) =
    ap (λ t. t ++ (48 ∷ [])) (fixed-zero k)
    ∙ sym (replicate-add k 1 forty_eight)
    ∙ ap (λ t. replicate t 48) {y = suc k} (omega arith)

pad_digit :
    (k d : ℕ) (rest : List ℕ) → pad_start (suc k + length rest) (d ∷ rest) ≡ fixed k 0 ++ (d ∷ rest)
pad_digit k d rest =
    ap (λ t. replicate t 48 ++ (d ∷ rest)) (omega arith)
    ∙ ap (λ t. t ++ (d ∷ rest)) (sym (fixed-zero k))

pad_small :
    (k n : ℕ) (rest : List ℕ)
    → n < 16
    → pad_start (suc k + length rest) (hex_digit (n % 16) ∷ rest) ≡ fixed (suc k) n ++ rest
pad_small k n rest h =
    pad_digit k (hex_digit (n % 16)) rest
    ∙ ap (λ t. fixed k t ++ (hex_digit (n % 16) ∷ rest)) {x = 0} {y = n / 16} (omega arith)
    ∙ sym (append_assoc (fixed k (n / 16)) (hex_digit (n % 16) ∷ []) rest)

-- Padding the shortest text to `k + 1` digits gives the `k + 1` lowest digits.
pub pad-hex_text_from :
    (fuel k n : ℕ) (rest : List ℕ)
    → k < fuel
    → n < 16 ^ suc k
    → pad_start (suc k + length rest) (hex_text_from fuel n rest) ≡ fixed (suc k) n ++ rest
unfolding hex_text_from
pad-hex_text_from zero k n rest f h = absurd (omega arith)
pad-hex_text_from (suc fuel) zero n rest f h =
    rw (lt→ltb n 16 (omega arith)) (pad_small zero n rest (omega arith))
pad-hex_text_from (suc fuel) (suc k) n rest f h = elim (Bool-cases (ltb n 16)) [
  | inl small ↦ rw small (pad_small (suc k) n rest (ltb→lt n 16 small))
  | inr big ↦ rw big (
      ap (λ t. pad_start t (hex_text_from fuel (n / 16) (hex_digit (n % 16) ∷ rest)))
        {y = suc k + length (hex_digit (n % 16) ∷ rest)} (omega arith)
      ∙ pad-hex_text_from fuel k (n / 16) (hex_digit (n % 16) ∷ rest) (omega arith)
          (omega (arith, pow-suc 16 (suc k)))
      ∙ sym (append_assoc (fixed (suc k) (n / 16)) (hex_digit (n % 16) ∷ []) rest))
]

parse_pair-hex_digit :
    (hi lo : ℕ) → hi < 16 → lo < 16 → parse_pair (hex_digit hi) (hex_digit lo) ≡ hi * 16 + lo
unfolding parse_pair hex_digit digit_value
parse_pair-hex_digit hi lo p q = ground arith

-- Reading the bytes of a hexadecimal text two by two.
pub parse_pairs-to_hex :
    (bs : List ℕ) (n : ℕ) → IsBytes bs → length bs ≡ n → parse_pairs n (to_hex bs) ≡ bs
unfolding parse_pairs to_hex
parse_pairs-to_hex [] zero p h = refl
parse_pairs-to_hex [] (suc n) p h = refl
parse_pairs-to_hex (b ∷ bs) zero p h = absurd (omega arith)
parse_pairs-to_hex (b ∷ bs) (suc n) (p, ps) h =
    ap₂ (λ x xs. x ∷ xs)
      (parse_pair-hex_digit (b / 16) (b % 16) (omega arith) (omega arith) ∙ omega arith)
      (parse_pairs-to_hex bs n ps (omega arith))

hex_value_from-to_hex :
    (acc : ℕ) (bs : List ℕ) → IsBytes bs → hex_value_from acc (to_hex bs) ≡ some (be_from acc bs)
unfolding hex_value_from to_hex be_from
hex_value_from-to_hex acc [] p = refl
hex_value_from-to_hex acc (b ∷ bs) (p, ps) = ground (
  arith,
  digit_value-hex_digit (b / 16) (omega arith),
  digit_value-hex_digit (b % 16) (omega arith),
  hex_value_from-to_hex (acc * 256 + b) bs ps,
)

-- Reading bytes as a number through their hexadecimal text.
pub hex_to_bigint_lem :
    (b : ℕ) (bs : List ℕ) → IsBytes (b ∷ bs) → hex_to_bigint (b ∷ bs) ≡ some (be_value (b ∷ bs))
unfolding hex_to_bigint be_value
hex_to_bigint_lem b bs p = hex_value_from-to_hex 0 (b ∷ bs) p

-- The digits of a number are those of its bytes.
pub fixed-be_bytes : (k n : ℕ) → fixed (2 * k) n ≡ to_hex (be_bytes k n)
unfolding be_bytes
fixed-be_bytes zero n = unfold to_hex in refl
fixed-be_bytes (suc k) n =
    ap (λ t. fixed t n) {x = 2 * suc k} {y = suc (suc (2 * k))} (omega arith)
    ∙ append_assoc (fixed (2 * k) (n / 16 / 16)) (hex_digit (n / 16 % 16) ∷ [])
        (hex_digit (n % 16) ∷ [])
    ∙ ap₂ (λ xs t. xs ++ t)
        (ap (fixed (2 * k)) {x = n / 16 / 16} {y = n / 256} (omega arith)
          ∙ fixed-be_bytes k (n / 256))
        last_byte
    ∙ sym (to_hex-append (be_bytes k (n / 256)) (n % 256 ∷ []))
  where
    last_byte :
        ◌≡◌ {A = List ℕ} (hex_digit (n / 16 % 16) ∷ hex_digit (n % 16) ∷ []) (to_hex (n % 256 ∷ []))
    last_byte =
        unfold to_hex in
        ap₂ (λ x y. hex_digit x ∷ hex_digit y ∷ []) {x = n / 16 % 16} {y = n % 256 / 16}
          (omega arith) (omega arith)

-- 64 padded digits of a difference are its 32 bytes.
pub difference_bytes :
    (a b : ℕ)
    → b ≤ a
    → a < 2 ^ 256
    → pad_start 64 (difference_text a b) ≡ to_hex (be_bytes 32 (a - b))
unfolding difference_text
difference_bytes a b h small = rw (le→leb b a h) (
    rw (← append-nil (to_hex (be_bytes 32 (a - b))), ← fixed-be_bytes 32 (a - b))
      (pad-hex_text_from 64 63 (a - b) [] (omega arith) (omega arith)))
