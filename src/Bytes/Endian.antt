-- ===== src/Bytes/Endian.antt =====
-- Numbers in bytes: what was written is read back.
use trana.Prelude.{ℕ, zero, suc, ◌+◌, ◌*◌, ◌/◌, ◌%◌, ◌^◌, ◌<◌, ◌≡◌, refl, ap, ◌∙◌, arith}
use trana.Prelude.{List, [], ◌∷◌, ◌++◌, length, length-append, All-append}
use trana.Prelude.{le→leb, take-append, drop-append, some}
use trana.Bytes.{IsByte, IsBytes, le_bytes, le_value, be_bytes, be_from, be_value, split_at, sized}
use native.Mathlib.Nat.{pow-suc}

pub length-le_bytes : (k n : ℕ) → length (le_bytes k n) ≡ k
unfolding le_bytes
length-le_bytes zero n = refl
length-le_bytes (suc k) n = ap suc (length-le_bytes k (n / 256))

pub le_bytes-IsBytes : (k n : ℕ) → IsBytes (le_bytes k n)
unfolding le_bytes
le_bytes-IsBytes zero n = tt
le_bytes-IsBytes (suc k) n = (omega arith, le_bytes-IsBytes k (n / 256))

-- A number below 256 ^ k survives its `k` bytes.
pub le_value-le_bytes : (k n : ℕ) → n < 256 ^ k → le_value (le_bytes k n) ≡ n
unfolding le_bytes le_value
le_value-le_bytes zero n h = omega arith
le_value-le_bytes (suc k) n h =
    omega (arith, le_value-le_bytes k (n / 256) (omega (arith, pow-suc 256 k)))

pub length-be_bytes : (k n : ℕ) → length (be_bytes k n) ≡ k
unfolding be_bytes
length-be_bytes zero n = refl
length-be_bytes (suc k) n =
    length-append (be_bytes k (n / 256)) (n % 256 ∷ []) ∙ omega (arith, length-be_bytes k (n / 256))

pub be_bytes-IsBytes : (k n : ℕ) → IsBytes (be_bytes k n)
unfolding be_bytes
be_bytes-IsBytes zero n = tt
be_bytes-IsBytes (suc k) n =
    All-append IsByte (be_bytes k (n / 256)) (n % 256 ∷ []) (be_bytes-IsBytes k (n / 256))
      (omega arith, tt)

pub be_from-append :
    (acc : ℕ) (xs : List ℕ) (b : ℕ) → be_from acc (xs ++ (b ∷ [])) ≡ be_from acc xs * 256 + b
unfolding be_from
be_from-append acc [] b = refl
be_from-append acc (x ∷ xs) b = be_from-append (acc * 256 + x) xs b

pub be_value-be_bytes : (k n : ℕ) → n < 256 ^ k → be_value (be_bytes k n) ≡ n
unfolding be_bytes be_value
be_value-be_bytes zero n h = omega arith
be_value-be_bytes (suc k) n h =
    be_from-append 0 (be_bytes k (n / 256)) (n % 256)
    ∙ omega (arith, be_value-be_bytes k (n / 256) (omega (arith, pow-suc 256 k)))

-- Splitting at the end of a known front gives the front back.
pub split_at-append :
    (xs ys : List ℕ) (n : ℕ) → length xs ≡ n → split_at n (xs ++ ys) ≡ some (xs, ys)
unfolding split_at
split_at-append xs ys n h =
    rw (le→leb n (length (xs ++ ys)) (omega (arith, length-append xs ys)))
      (rw (take-append xs ys n h, drop-append xs ys n h) refl)

pub sized-append :
    (k : ℕ) (xs ys : List ℕ)
    → length xs < 256 ^ k
    → sized k (le_bytes k (length xs) ++ (xs ++ ys)) ≡ some (xs, ys)
unfolding sized
sized-append k xs ys h =
    rw (split_at-append (le_bytes k (length xs)) (xs ++ ys) k (length-le_bytes k (length xs)))
      (rw (le_value-le_bytes k (length xs) h) (split_at-append xs ys (length xs) refl))
