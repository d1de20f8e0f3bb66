-- ===== src/Sha256/Unpad.antt =====
-- The padding of packages/sdk/src/core/sha256.ts, read back by the bit length at its end.
use trana.Prelude.{ℕ, ◌+◌, ◌-◌, ◌*◌, ◌/◌, ◌%◌, ◌^◌, ◌<◌, ◌≡◌, refl, sym, ap, ap₂, ◌∙◌, arith}
use trana.Prelude.{List, ◌∷◌, ◌++◌, append_assoc}
use trana.Prelude.{length, take, drop, length-append, take-append, drop-append}
use trana.Bytes.{be_bytes, be_value}
use trana.Bytes.Endian.{length-be_bytes, be_value-be_bytes}
use trana.Sha256.{word_mod, padded}
use trana.Sha256.Padding.{zeros, gap, padded_form, length-padded}

-- The bit length that a padded buffer ends in.
abbrev pub bit_length : List ℕ → ℕ
bit_length ps =
    be_value (take 4 (drop (length ps - 8) ps)) * 2 ^ 32 + be_value (drop (length ps - 4) ps)

abbrev pub unpad : List ℕ → List ℕ
unpad ps = take (bit_length ps / 8) ps

drop_tail :
    (front tail : List ℕ) (n : ℕ)
    → length tail ≡ n
    → drop (length (front ++ tail) - n) (front ++ tail) ≡ tail
drop_tail front tail n h =
    drop-append front tail (length (front ++ tail) - n) (omega (arith, length-append front tail))

bit_length-append :
    (front : List ℕ) (hi lo : ℕ)
    → hi < 2 ^ 32
    → lo < 2 ^ 32
    → bit_length (front ++ (be_bytes 4 hi ++ be_bytes 4 lo)) ≡ hi * 2 ^ 32 + lo
bit_length-append front hi lo p q = ap₂ (λ (x y : ℕ). x * 2 ^ 32 + y) high low
  where
    h : List ℕ
    h = be_bytes 4 hi

    l : List ℕ
    l = be_bytes 4 lo

    ps : List ℕ
    ps = front ++ (h ++ l)

    high : be_value (take 4 (drop (length ps - 8) ps)) ≡ hi
    high =
        ap (λ t. be_value (take 4 t))
          (drop_tail front (h ++ l) 8
            (omega (arith, length-append h l, length-be_bytes 4 hi, length-be_bytes 4 lo)))
        ∙ ap be_value (take-append h l 4 (length-be_bytes 4 hi))
        ∙ be_value-be_bytes 4 hi (omega arith)

    low : be_value (drop (length ps - 4) ps) ≡ lo
    low =
        ap (λ t. be_value (drop (length t - 4) t)) (sym (append_assoc front h l))
        ∙ ap be_value (drop_tail (front ++ h) l 4 (length-be_bytes 4 lo))
        ∙ be_value-be_bytes 4 lo (omega arith)

-- The padded buffer is a whole number of 64-byte blocks that starts with the message, and the
-- message is read back from the bit length that the buffer ends in; between the two stand the marker
-- 0x80 and fewer than 64 zeros; for messages below 2 ^ 31 - 72 bytes, where the 32-bit operation of the
-- source does not overflow.
pub unpad-padded :
    (msg : List ℕ)
    → length msg < 2 ^ 31 - 72
    → (length (padded msg) % 64 ≡ 0)
      × (unpad (padded msg) ≡ msg)
      × ((z : ℕ) × (z < 64)
          × (padded msg
              ≡ msg
                ++ (0x80
                    ∷ (zeros z
                        ++ (be_bytes 4 (length msg * 8 / 2 ^ 32)
                            ++ be_bytes 4 (length msg * 8 % 2 ^ 32))))))
unpad-padded msg h = (
  rw (length-padded msg h) (omega arith),
  ap unpad (padded_form msg h) ∙ ap (λ t. take t whole) eighth ∙ take-append msg _ n refl,
  (gap n, omega arith, padded_form msg h),
)
  where
    n : ℕ
    n = length msg

    front : List ℕ
    front = msg ++ (0x80 ∷ zeros (gap n))

    ends : List ℕ
    ends = be_bytes 4 (n * 8 / 2 ^ 32) ++ be_bytes 4 (n * 8 % word_mod)

    whole : List ℕ
    whole = msg ++ (0x80 ∷ (zeros (gap n) ++ ends))

    eighth : bit_length whole / 8 ≡ n
    eighth =
        ap (λ t. bit_length t / 8) (sym (append_assoc msg (0x80 ∷ zeros (gap n)) ends))
        ∙ ap (λ t. t / 8)
            (bit_length-append front (n * 8 / 2 ^ 32) (n * 8 % word_mod) (omega arith)
              (omega arith))
        ∙ omega arith
