-- ===== src/Webauthn/Der.antt =====
-- derToCompact of packages/sdk/src/core/webauthn.ts against an encoder of DER signatures.
use trana.Prelude.{ℕ, zero, suc, ◌+◌, ◌-◌, ◌≤◌, ◌<◌, ◌≡◌, refl, sym, ap, ap₂, ◌∙◌, arith}
use trana.Prelude.{
  List, [], ◌∷◌, ◌++◌, append-nil, append_assoc, Option, none, some, leb, ltb, if◌then◌else◌,
}
use trana.Prelude.{length, length-append, length-replicate, length-drop, drop, replicate}
use trana.Prelude.{get_elem?, replicate-add, ltb→lt, Bool, Bool-cases, inl, inr, false}
use trana.Bytes.{slice}
use trana.Bytes.Writes.{slice-middle}
use trana.Prelude.Result.{ok, guard, >>=-eq-ok}
use trana.Webauthn.{
  invalid_signature, align, slice_len, byte_is, der_second, der_first, der_to_compact,
}

-- A signature with these contents of its two integers.
abbrev pub der : (total : ℕ) → (r s : List ℕ) → List ℕ
der total r s = 0x30 ∷ total ∷ 0x02 ∷ length r ∷ (r ++ (0x02 ∷ length s ∷ s))

pub get_elem?-append :
    (xs ys : List ℕ) (i : ℕ) → get_elem? (xs ++ ys) (i + length xs) ≡ get_elem? ys i
get_elem?-append [] ys i = ap (get_elem? ys) (omega arith)
get_elem?-append (x ∷ xs) ys i =
    ap (get_elem? (x ∷ (xs ++ ys))) {y = suc (i + length xs)} (omega arith)
    ∙ get_elem?-append xs ys i

module _ (total : ℕ) (r s : List ℕ) where
  pub second_tag : get_elem? (der total r s) (4 + length r) ≡ some 0x02
  second_tag =
      ap (get_elem? (der total r s)) {y = suc (suc (suc (suc (0 + length r))))} (omega arith)
      ∙ get_elem?-append r (0x02 ∷ length s ∷ s) 0

  pub second_length : get_elem? (der total r s) (4 + length r + 1) ≡ some (length s)
  second_length =
      ap (get_elem? (der total r s)) {y = suc (suc (suc (suc (1 + length r))))} (omega arith)
      ∙ get_elem?-append r (0x02 ∷ length s ∷ s) 1

  slice_r : slice (der total r s) 4 (4 + length r) ≡ r
  slice_r =
      slice-middle (0x30 ∷ total ∷ 0x02 ∷ length r ∷ []) r (0x02 ∷ length s ∷ s) 4 (4 + length r)
        refl refl

  slice_s : slice (der total r s) (4 + length r + 2) (4 + length r + 2 + length s) ≡ s
  slice_s =
      ap (λ t. slice t (4 + length r + 2) (4 + length r + 2 + length s)) split
      ∙ slice-middle front s [] (4 + length r + 2) (4 + length r + 2 + length s)
          (omega (arith, length-append r (0x02 ∷ length s ∷ []))) refl
    where
      front : List ℕ
      front = 0x30 ∷ total ∷ 0x02 ∷ length r ∷ (r ++ (0x02 ∷ length s ∷ []))

      split : der total r s ≡ front ++ (s ++ [])
      split = simp (append_assoc, append-nil)

  -- Any two integers in a signature, whatever its total length says, come out right-aligned.
  pub der_to_compact-der : der_to_compact (der total r s) ≡ ok (align r ++ align s)
  unfolding der_to_compact der_first der_second
  der_to_compact-der = rw (slice_r, der_second) (rw second_tag (rw second_length (rw slice_s refl)))

-- The DER contents of a number given by bytes: no leading zeros, and a zero byte in front where the
-- top bit would read as a sign.
abbrev strip : List ℕ → List ℕ
strip [] = []
strip (zero ∷ bs) = strip bs
strip (suc b ∷ bs) = suc b ∷ bs

abbrev signed : List ℕ → List ℕ
signed [] = 0 ∷ []
signed (b ∷ bs) = if leb 128 b then 0 ∷ b ∷ bs else b ∷ bs

abbrev pub der_integer : List ℕ → List ℕ
der_integer bs = signed (strip bs)

pad_zero :
    (bs : List ℕ)
    → length bs < 32
    → replicate (32 - length bs) 0 ++ bs ≡ replicate (32 - suc (length bs)) 0 ++ (0 ∷ bs)
pad_zero bs h =
    ap (λ t. replicate t 0 ++ bs) {y = 32 - suc (length bs) + 1} (omega arith)
    ∙ ap (λ t. t ++ bs) (replicate-add (32 - suc (length bs)) 1 zero)
    ∙ append_assoc (replicate (32 - suc (length bs)) zero) (zero ∷ []) bs

align-strip :
    (bs : List ℕ)
    → length bs ≤ 32
    → replicate (32 - length (strip bs)) 0 ++ strip bs ≡ replicate (32 - length bs) 0 ++ bs
align-strip [] h = refl
align-strip (zero ∷ bs) h = align-strip bs (omega arith) ∙ pad_zero bs h
align-strip (suc b ∷ bs) h = refl

length-strip : (bs : List ℕ) → length (strip bs) ≤ length bs
length-strip [] = omega arith
length-strip (zero ∷ bs) = omega (arith, length-strip bs)
length-strip (suc b ∷ bs) = omega arith

align_whole : (bs : List ℕ) → length bs ≤ 32 → align bs ≡ replicate (32 - length bs) 0 ++ bs
align_whole bs h = ap aligned {y = false} (ground arith)
  where
    aligned : Bool → List ℕ
    aligned b =
        let kept = if b then drop (length bs - 32) bs else bs in
        replicate (32 - length kept) 0 ++ kept

align-zero : (bs : List ℕ) → length bs ≤ 32 → align (0 ∷ bs) ≡ replicate (32 - length bs) 0 ++ bs
align-zero bs h = elim (Bool-cases (ltb (length bs) 32)) [
  | inl short ↦
      align_whole (0 ∷ bs) (ltb→lt (length bs) 32 short)
      ∙ sym (pad_zero bs (ltb→lt (length bs) 32 short))
  | inr full ↦ let e : length bs ≡ 32 = ground arith in rw e (rw e refl)
]

align-signed :
    (bs : List ℕ) → length bs ≤ 32 → align (signed bs) ≡ replicate (32 - length bs) 0 ++ bs
align-signed [] h = refl
align-signed (b ∷ bs) h = elim (Bool-cases (leb 128 b)) [
  | inl top ↦ rw top (align-zero (b ∷ bs) h)
  | inr clear ↦ rw clear (align_whole (b ∷ bs) h)
]

-- The DER form of a signature of two 32-byte halves converts back to those halves.
pub der_to_compact-der_integer :
    (total : ℕ) (r s : List ℕ)
    → length r ≡ 32
    → length s ≡ 32
    → der_to_compact (der total (der_integer r) (der_integer s)) ≡ ok (r ++ s)
der_to_compact-der_integer total r s h k =
    der_to_compact-der total (der_integer r) (der_integer s)
    ∙ ap ok (ap₂ (λ x y. x ++ y) (whole r h) (whole s k))
  where
    whole : (bs : List ℕ) → length bs ≡ 32 → align (der_integer bs) ≡ bs
    whole bs e =
        align-signed (strip bs) (omega (arith, length-strip bs))
        ∙ align-strip bs (omega arith)
        ∙ ap (λ t. replicate (32 - t) 0 ++ bs) e

length-align : (bs : List ℕ) → length (align bs) ≡ 32
length-align bs = elim (Bool-cases (ltb 32 (length bs))) [
  | inl long ↦ rw long (
      sides (drop (length bs - 32) bs)
        (omega (arith, length-drop (length bs - 32) bs, ltb→lt 32 (length bs) long)))
  | inr short ↦ rw short (sides bs (ground arith))
]
  where
    sides :
        (kept : List ℕ) → length kept ≤ 32 → length (replicate (32 - length kept) 0 ++ kept) ≡ 32
    sides kept h =
        length-append (replicate (32 - length kept) 0) kept
        ∙ omega (arith, length-replicate (32 - length kept) zero)

abbrev pub Halves : List ℕ → Type 0
Halves out = (r : List ℕ) × (s : List ℕ) × (out ≡ r ++ s) × (length r ≡ 32) × (length s ≡ 32)

der_second-Halves :
    (bytes r : List ℕ) (offset : ℕ) {out : List ℕ} → der_second bytes r offset ≡ ok out → Halves out
unfolding der_second
der_second-Halves bytes r offset h =
    let (_, _, e) = >>=-eq-ok (guard (byte_is bytes offset 0x02) invalid_signature) _ h in
    let second = slice_len bytes (offset + 2) (get_elem? bytes (offset + 1)) in
    (align r, align second, cc, length-align r, length-align second)

der_first-Halves :
    (bytes : List ℕ) (o : Option ℕ) {out : List ℕ} → der_first bytes o ≡ ok out → Halves out
unfolding der_first
der_first-Halves bytes none h = cc
der_first-Halves bytes (some n) h = der_second-Halves bytes (slice bytes 4 (4 + n)) (4 + n) h

-- Whatever the bytes, a conversion that succeeds gives two halves of 32 bytes.
pub der_to_compact-Halves :
    (bytes : List ℕ) {out : List ℕ} → der_to_compact bytes ≡ ok out → Halves out
unfolding der_to_compact
der_to_compact-Halves bytes h =
    let (_, _, h1) = >>=-eq-ok (guard (byte_is bytes 0 0x30) invalid_signature) _ h in
    let (_, _, h2) = >>=-eq-ok (guard (byte_is bytes 2 0x02) invalid_signature) _ h1 in
    der_first-Halves bytes (get_elem? bytes 3) h2
