-- ===== src/Bytes/Base64.antt =====
-- `toString("base64url")` and `Buffer.from(…, "base64url")`, on text as its code points.
use trana.Prelude.{
  ℕ, ◌+◌, ◌-◌, ◌*◌, ◌/◌, ◌%◌, ◌<◌, ◌≡◌, refl, arith, List, [], ◌∷◌, Option, none, some, ◌&&◌, ltb,
  leb, ◌==◌, if◌then◌else◌, All, false, ap₂,
}
use trana.Bytes.{IsBytes}

-- The character of a number below 64.
unfoldable pub base64_digit : ℕ → ℕ
base64_digit v =
    if ltb v 26
    then v + 65
    else if ltb v 52
    then v + 71
    else if ltb v 62
    then v - 4
    else if v == 62
    then 45
    else 95

-- Decoding takes the characters of both alphabets.
unfoldable pub base64_value : ℕ → Option ℕ
base64_value c =
    if leb 65 c && leb c 90
    then some (c - 65)
    else if leb 97 c && leb c 122
    then some (c - 71)
    else if leb 48 c && leb c 57
    then some (c + 4)
    else if c == 45
    then some 62
    else if c == 43
    then some 62
    else if c == 95
    then some 63
    else if c == 47
    then some 63
    else none

-- Six bits each; the last number is filled with zeros.
unfoldable pub sextets : List ℕ → List ℕ
sextets [] = []
sextets (a ∷ []) = (a / 4) ∷ (a % 4 * 16) ∷ []
sextets (a ∷ b ∷ []) = (a / 4) ∷ (a % 4 * 16 + b / 16) ∷ (b % 16 * 4) ∷ []
sextets (a ∷ b ∷ c ∷ bs) =
    (a / 4) ∷ (a % 4 * 16 + b / 16) ∷ (b % 16 * 4 + c / 64) ∷ (c % 64) ∷ sextets bs

-- The whole bytes of the numbers; bits that are left over are dropped.
unfoldable pub octets : List ℕ → List ℕ
octets [] = []
octets (p ∷ []) = []
octets (p ∷ q ∷ []) = (p * 4 + q / 16) ∷ []
octets (p ∷ q ∷ r ∷ []) = (p * 4 + q / 16) ∷ (q % 16 * 16 + r / 4) ∷ []
octets (p ∷ q ∷ r ∷ s ∷ rest) =
    (p * 4 + q / 16) ∷ (q % 16 * 16 + r / 4) ∷ (r % 4 * 64 + s) ∷ octets rest

abbrev digits : List ℕ → List ℕ
digits [] = []
digits (v ∷ vs) = base64_digit v ∷ digits vs

unfoldable pub to_base64url : List ℕ → List ℕ
to_base64url bs = digits (sextets bs)

-- Up to a `=`; other characters are passed over.
unfoldable pub base64_values : List ℕ → List ℕ
base64_values [] = []
base64_values (c ∷ cs) =
    let rest = base64_values cs in
    if c == 61 then [] else elim (base64_value c) [ none ↦ rest | some v ↦ v ∷ rest ]

unfoldable pub from_base64url : List ℕ → List ℕ
from_base64url text = octets (base64_values text)

base64_value-base64_digit : (v : ℕ) → v < 64 → base64_value (base64_digit v) ≡ some v
unfolding base64_value base64_digit
base64_value-base64_digit v h = ground arith

base64_digit-other : (v : ℕ) → v < 64 → (base64_digit v == 61) ≡ false
unfolding base64_digit
base64_digit-other v h = ground arith

sextets-small : (bs : List ℕ) → IsBytes bs → All (λ v. v < 64) (sextets bs)
unfolding sextets
sextets-small [] h = tt
sextets-small (a ∷ []) h = (omega arith, (omega arith, tt))
sextets-small (a ∷ b ∷ []) (p, (q, h)) = (omega arith, (omega arith, (omega arith, tt)))
sextets-small (a ∷ b ∷ c ∷ bs) (p, (q, (r, h))) =
    (omega arith, (omega arith, (omega arith, (omega arith, sextets-small bs h))))

base64_values-digits : (vs : List ℕ) → All (λ v. v < 64) vs → base64_values (digits vs) ≡ vs
unfolding base64_values
base64_values-digits [] h = refl
base64_values-digits (v ∷ vs) (small, h) =
    rw (base64_digit-other v small, base64_value-base64_digit v small, base64_values-digits vs h)
      refl

first_byte : (a b : ℕ) → b < 256 → a / 4 * 4 + (a % 4 * 16 + b / 16) / 16 ≡ a
first_byte a b small = omega arith

second_byte :
    (a b c : ℕ)
    → b < 256
    → c < 256
    → (a % 4 * 16 + b / 16) % 16 * 16 + (b % 16 * 4 + c / 64) / 4 ≡ b
second_byte a b c small_b small_c = omega arith

third_byte : (b c : ℕ) → c < 256 → (b % 16 * 4 + c / 64) % 4 * 64 + c % 64 ≡ c
third_byte b c small = omega arith

cons_eq : {x y : ℕ} {xs ys : List ℕ} → x ≡ y → xs ≡ ys → x ∷ xs ≡ y ∷ ys
cons_eq head tail = ap₂ (λ z zs. z ∷ zs) head tail

octets-sextets : (bs : List ℕ) → IsBytes bs → octets (sextets bs) ≡ bs
unfolding octets sextets
octets-sextets [] h = refl
octets-sextets (a ∷ []) (p, h) = cons_eq (omega arith) refl
octets-sextets (a ∷ b ∷ []) (p, (q, h)) = cons_eq (first_byte a b q) (cons_eq (omega arith) refl)
octets-sextets (a ∷ b ∷ c ∷ bs) (p, (q, (r, h))) =
    cons_eq (first_byte a b q)
      (cons_eq (second_byte a b c q r) (cons_eq (third_byte b c r) (octets-sextets bs h)))

pub from_base64url-to_base64url : (bs : List ℕ) → IsBytes bs → from_base64url (to_base64url bs) ≡ bs
unfolding from_base64url to_base64url
from_base64url-to_base64url bs h =
    rw (base64_values-digits (sextets bs) (sextets-small bs h)) (octets-sextets bs h)

digits-All :
    (P : ℕ → Type 0) (vs : List ℕ)
    → ((v : ℕ) → v < 64 → P (base64_digit v))
    → All (λ v. v < 64) vs
    → All P (digits vs)
digits-All P [] each h = tt
digits-All P (v ∷ vs) each (small, h) = (each v small, digits-All P vs each h)

-- What holds of every character of the alphabet holds of all of a text.
pub to_base64url-All :
    (P : ℕ → Type 0) (bs : List ℕ)
    → IsBytes bs
    → ((v : ℕ) → v < 64 → P (base64_digit v))
    → All P (to_base64url bs)
unfolding to_base64url
to_base64url-All P bs h each = digits-All P (sextets bs) each (sextets-small bs h)
