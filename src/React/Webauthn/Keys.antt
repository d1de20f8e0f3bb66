-- ===== src/React/Webauthn/Keys.antt =====
-- extractPubkeyFromAttestation of packages/sdk/src/react/webauthn.ts against core/webauthn.ts.
use trana.Prelude.{ℕ, zero, suc, ◌+◌, ◌-◌, ◌≤◌, ◌<◌, ◌≡◌, refl, ap, ap₂, ◌∙◌, arith}
use trana.Prelude.{List, [], ◌∷◌, Option, none, some, Bool-cases, inl, inr, leb, leb→le, ◌==◌}
use trana.Prelude.{length, take, drop, length-drop, length-take, true, false}
use trana.Prelude.Result.{Result, ok, err, guard, ◌>>◌}
use trana.Bytes.{slice}
use trana.Webauthn.{spki_to_compressed_key, compressed}
use trana.React.Webauthn.{
  wrong_length, index_of, point_at, compress_p256, extract_pubkey_from_attestation,
}
use mathlib.Core.Option

-- The value of a result, without its error.
abbrev pub value {κ} : {E : Type 0} {A : Type κ} → Result E A → Option A
value (ok a) = some a
value (err e) = none

take-take : (m n : ℕ) (xs : List ℕ) → m ≤ n → take m (take n xs) ≡ take m xs
take-take zero n xs h = refl
take-take (suc m) zero xs h = absurd (omega arith)
take-take (suc m) (suc n) [] h = refl
take-take (suc m) (suc n) (x ∷ xs) h = ap (λ t. x ∷ t) (take-take m n xs (omega arith))

drop-take : (m n k : ℕ) (xs : List ℕ) → k ≡ m + n → drop m (take k xs) ≡ take n (drop m xs)
drop-take zero n k xs h = ap (λ t. take t xs) {y = n} (omega arith)
drop-take (suc m) n zero xs h = absurd (omega arith)
drop-take (suc m) zero (suc k) [] h = refl
drop-take (suc m) (suc n) (suc k) [] h = refl
drop-take (suc m) n (suc k) (x ∷ xs) h = drop-take m n k xs (omega arith)

-- Cutting the point out first changes nothing.
slice-take :
    (b : ℕ) (rest : List ℕ)
    → compressed (slice (take 65 (b ∷ rest)) 1 33) (slice (take 65 (b ∷ rest)) 33 65)
      ≡ compressed (slice (b ∷ rest) 1 33) (slice (b ∷ rest) 33 65)
slice-take b rest =
    ap₂ compressed (take-take 32 64 rest (omega arith))
      (ap (take 32) (drop-take 32 32 64 rest refl) ∙ take-take 32 32 (drop 32 rest) (omega arith))

whole :
    (b : ℕ) (rest : List ℕ)
    → leb 65 (length (b ∷ rest)) ≡ true
    → (suc (length (take 64 rest)) == 65) ≡ true
whole b rest h =
    ap (λ t. t == 65) {y = 65} (omega (arith, length-take 64 rest, leb→le 65 (length (b ∷ rest)) h))

point_at-suc :
    (c : ℕ) (rest : List ℕ) (o : Option ℕ)
    → point_at (c ∷ rest) (Option.map suc o) ≡ point_at rest o
unfolding point_at
point_at-suc c rest none = refl
point_at-suc c rest (some i) =
    ap
      (λ t.
        guard (length (take t (drop i rest)) == 65) wrong_length
        >> compress_p256 (take t (drop i rest)))
      {x = suc i + 65 - suc i} {y = i + 65 - i} (omega arith)

point_at-short : (spki : List ℕ) (o : Option ℕ) → length spki < 65 → value (point_at spki o) ≡ none
unfolding point_at
point_at-short spki none h = refl
point_at-short spki (some i) h = rw (cut) refl
  where
    cut : (length (slice spki i (i + 65)) == 65) ≡ false
    cut = ground (arith, length-take (i + 65 - i) (drop i spki), length-drop i spki)

-- For every SPKI encoding the React layer extracts the key that the core extracts, and fails where the
-- core fails.
pub extract_pubkey-agrees :
    (spki : List ℕ)
    → value (extract_pubkey_from_attestation (some spki)) ≡ value (spki_to_compressed_key spki)
unfolding extract_pubkey_from_attestation spki_to_compressed_key index_of point_at compress_p256
extract_pubkey-agrees [] = refl
extract_pubkey-agrees (b ∷ rest) = elim (Bool-cases (leb 65 (length (b ∷ rest)))) [
  | inl long ↦ elim (Bool-cases (b == 4)) [
    | inl four ↦ rw long (
        rw four
          (rw (whole b rest long) (unfold compressed in rw four (ap some (slice-take b rest)))))
    | inr other ↦
        rw long
          (rw other (ap value (point_at-suc b rest (index_of 4 rest)) ∙ extract_pubkey-agrees rest))
  ]
  | inr short ↦ rw short (point_at-short (b ∷ rest) (index_of 4 (b ∷ rest)) (ground arith))
]
