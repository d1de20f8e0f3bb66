-- ===== src/React/Registry/Fields.antt =====
-- packages/sdk/src/react/registry.ts: fields of a number at an offset.
use trana.Prelude.{ℕ, zero, ◌+◌, ◌^◌, ◌<◌, ◌≡◌, refl, ap, ◌∙◌, arith}
use trana.Prelude.{List, ◌∷◌, ◌++◌, none, some, false, length, length-append, get_elem?}
use trana.Prelude.{leb, le→leb, lt→not_leb}
use trana.Bytes.{le_bytes, le_value}
use trana.Bytes.Endian.{length-le_bytes, le_value-le_bytes}
use trana.Bytes.Writes.{slice-middle}
use trana.Webauthn.Der.{get_elem?-append}
use trana.React.Registry.{uint_at}

pub uint_at-middle :
    (bytes front xs back : List ℕ) (offset k : ℕ)
    → bytes ≡ front ++ (xs ++ back)
    → length front ≡ offset
    → length xs ≡ k
    → uint_at bytes offset k ≡ some (le_value xs)
unfolding uint_at
uint_at-middle bytes front xs back offset k e h j = rw e (
    rw
      (le→leb (offset + k) (length (front ++ (xs ++ back)))
        (omega (arith, length-append front (xs ++ back), length-append xs back)))
      (ap (λ t. some (le_value t))
        (slice-middle front xs back offset (offset + k) h (omega arith))))

pub uint_at-le_bytes :
    (bytes front back : List ℕ) (offset k n : ℕ)
    → bytes ≡ front ++ (le_bytes k n ++ back)
    → length front ≡ offset
    → n < 256 ^ k
    → uint_at bytes offset k ≡ some n
uint_at-le_bytes bytes front back offset k n e h small =
    uint_at-middle bytes front (le_bytes k n) back offset k e h (length-le_bytes k n)
    ∙ ap some (le_value-le_bytes k n small)

pub uint_at-past :
    (bytes : List ℕ) (offset k : ℕ) → length bytes < offset + k → uint_at bytes offset k ≡ none
unfolding uint_at
uint_at-past bytes offset k h = rw (past) refl
  where
    past : leb (offset + k) (length bytes) ≡ false
    past = lt→not_leb (length bytes) (offset + k) h

-- A byte behind a front, by its index.
pub byte-middle :
    (bytes front back : List ℕ) (b i : ℕ)
    → bytes ≡ front ++ (b ∷ back)
    → length front ≡ i
    → get_elem? bytes i ≡ some b
byte-middle bytes front back b i e h =
    ap (λ t. get_elem? t i) e
    ∙ ap (get_elem? (front ++ (b ∷ back))) {y = zero + length front} (omega arith)
    ∙ get_elem?-append front (b ∷ back) zero
