-- ===== src/Sha256/Padding.antt =====
-- The padded message of packages/sdk/src/core/sha256.ts: its form and its length.
use trana.Prelude.{ℕ, zero, ◌+◌, ◌-◌, ◌*◌, ◌/◌, ◌%◌, ◌^◌, ◌<◌, ◌≡◌, refl, sym, ap, ◌∙◌, arith}
use trana.Prelude.{List, [], ◌∷◌, ◌++◌, append-nil, append_assoc}
use trana.Prelude.{length, replicate, length-append, length-replicate, replicate-add}
use trana.Bytes.{put, be_bytes}
use trana.Bytes.Endian.{length-be_bytes}
use trana.Bytes.Writes.{put_middle}
use trana.Sha256.{word_mod, pad_length, padded}

abbrev pub zeros : ℕ → List ℕ
zeros n = replicate n 0

zeros-add : (m n : ℕ) → zeros (m + n) ≡ zeros m ++ zeros n
zeros-add m n = replicate-add m n zero

-- The zeros between the marker and the bit length.
abbrev pub gap : ℕ → ℕ
gap length = pad_length length - length - 9

gap_fits : (n : ℕ) → n < 2 ^ 31 - 72 → pad_length n ≡ n + (1 + (gap n + (4 + 4)))
gap_fits n small = omega arith

-- Five runs of bytes, and the writes of the source onto one of them.
module _ (r1 r2 r3 r4 r5 : List ℕ) where
  abbrev runs : List ℕ
  runs = r1 ++ (r2 ++ (r3 ++ (r4 ++ r5)))

runs_of_zeros :
    (n : ℕ)
    → n < 2 ^ 31 - 72
    → zeros (pad_length n) ≡ runs (zeros n) (zeros 1) (zeros (gap n)) (zeros 4) (zeros 4)
runs_of_zeros n small =
    ap zeros (gap_fits n small)
    ∙ zeros-add n (1 + (gap n + (4 + 4)))
    ∙ ap (λ t. zeros n ++ t)
        (zeros-add 1 (gap n + (4 + 4))
          ∙ ap (λ t. zeros 1 ++ t)
              (zeros-add (gap n) (4 + 4) ∙ ap (λ t. zeros (gap n) ++ t) (zeros-add 4 4)))

module _ (r1 r2 r3 r4 r5 xs : List ℕ) where
  put_last :
      (offset : ℕ)
      → length r1 + length r2 + length r3 + length r4 ≡ offset
      → length xs ≡ length r5
      → put (runs r1 r2 r3 r4 r5) offset xs ≡ runs r1 r2 r3 r4 xs
  put_last offset h k =
      ap (λ t. put t offset xs) (regroup r5)
      ∙ put_middle front r5 [] xs offset (omega (arith, length_front)) k
      ∙ sym (regroup xs)
    where
      front : List ℕ
      front = r1 ++ (r2 ++ (r3 ++ r4))

      regroup : (t : List ℕ) → runs r1 r2 r3 r4 t ≡ front ++ (t ++ [])
      regroup t = simp (append_assoc, append-nil)

      length_front : length front ≡ length r1 + length r2 + length r3 + length r4
      length_front = omega (
        arith,
        length-append r1 (r2 ++ (r3 ++ r4)),
        length-append r2 (r3 ++ r4),
        length-append r3 r4,
      )

  put_fourth :
      (offset : ℕ)
      → length r1 + length r2 + length r3 ≡ offset
      → length xs ≡ length r4
      → put (runs r1 r2 r3 r4 r5) offset xs ≡ runs r1 r2 r3 xs r5
  put_fourth offset h k =
      ap (λ t. put t offset xs) (regroup r4)
      ∙ put_middle front r4 r5 xs offset (omega (arith, length_front)) k
      ∙ sym (regroup xs)
    where
      front : List ℕ
      front = r1 ++ (r2 ++ r3)

      regroup : (t : List ℕ) → runs r1 r2 r3 t r5 ≡ front ++ (t ++ r5)
      regroup t = simp append_assoc

      length_front : length front ≡ length r1 + length r2 + length r3
      length_front = omega (arith, length-append r1 (r2 ++ r3), length-append r2 r3)

pub padded_form :
    (msg : List ℕ)
    → length msg < 2 ^ 31 - 72
    → padded msg
      ≡ runs msg
          (0x80 ∷ [])
          (zeros (gap (length msg)))
          (be_bytes 4 (length msg * 8 / 2 ^ 32))
          (be_bytes 4 (length msg * 8 % word_mod))
unfolding padded
padded_form msg small =
    ap (λ t. put (put (put (put t 0 msg) n mark) (p - 4) lo) (p - 8) hi) (runs_of_zeros n small)
    ∙ ap (λ t. put (put (put t n mark) (p - 4) lo) (p - 8) hi)
        (put_middle [] (zeros n) _ msg 0 refl (sym (length-replicate n 0)))
    ∙ ap (λ t. put (put t (p - 4) lo) (p - 8) hi) (put_middle msg (zeros 1) _ mark n refl refl)
    ∙ ap (λ t. put t (p - 8) hi)
        (put_last msg mark (zeros (gap n)) (zeros 4) (zeros 4) lo (p - 4)
          (omega (arith, gap_fits n small, length-replicate (gap n) (zero_byte)))
          (length-be_bytes 4 _))
    ∙ put_fourth msg mark (zeros (gap n)) (zeros 4) lo hi (p - 8)
        (omega (arith, gap_fits n small, length-replicate (gap n) (zero_byte)))
        (length-be_bytes 4 _)
  where
    n : ℕ
    n = length msg

    p : ℕ
    p = pad_length n

    zero_byte : ℕ
    zero_byte = 0

    mark : List ℕ
    mark = 0x80 ∷ []

    lo : List ℕ
    lo = be_bytes 4 (n * 8 % word_mod)

    hi : List ℕ
    hi = be_bytes 4 (n * 8 / 2 ^ 32)

-- The padded buffer is a whole number of 64-byte blocks.
pub length-padded :
    (msg : List ℕ) → length msg < 2 ^ 31 - 72 → length (padded msg) ≡ pad_length (length msg)
length-padded msg small = ap length (padded_form msg small) ∙ length_runs
  where
    n : ℕ
    n = length msg

    lo : List ℕ
    lo = be_bytes 4 (n * 8 % word_mod)

    hi : List ℕ
    hi = be_bytes 4 (n * 8 / 2 ^ 32)

    zero_byte : ℕ
    zero_byte = 0

    length_runs : length (runs msg (0x80 ∷ []) (zeros (gap n)) hi lo) ≡ pad_length n
    length_runs = omega (
      arith,
      length-append msg (0x80 ∷ (zeros (gap n) ++ (hi ++ lo))),
      length-append (zeros (gap n)) (hi ++ lo),
      length-append hi lo,
      length-be_bytes 4 (n * 8 % word_mod),
      length-be_bytes 4 (n * 8 / 2 ^ 32),
      length-replicate (gap n) zero_byte,
    )
