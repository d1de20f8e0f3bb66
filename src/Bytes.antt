-- ===== src/Bytes.antt =====
-- Byte arrays as lists of numbers below 256, with what the SDK uses of `Uint8Array`, `Buffer` and
-- `DataView`: slices, writes at an offset, little- and big-endian numbers, concatenation.
pub mod Endian
pub mod Writes
pub mod Hex
pub mod Base64
pub mod Json
pub mod Decimal
pub mod Utf8
pub mod Bits
use trana.Prelude.{ℕ, zero, suc, ◌+◌, ◌-◌, ◌*◌, ◌/◌, ◌%◌, ◌<◌, ◌≡◌, refl}
use trana.Prelude.{List, [], ◌∷◌, ◌++◌, Option, none, some, leb, if◌then◌else◌}
use trana.Prelude.{length, take, drop, All}

abbrev pub IsByte : ℕ → Type 0
IsByte b = b < 256

abbrev pub IsBytes : List ℕ → Type 0
IsBytes bs = All IsByte bs

-- `DataView.setUint16(…, true)` and its kin: the low `k` bytes of a number, lowest first.
unfoldable pub le_bytes : ℕ → ℕ → List ℕ
le_bytes zero n = []
le_bytes (suc k) n = n % 256 ∷ le_bytes k (n / 256)

-- `DataView.getUint16(…, true)` and its kin, on exactly the bytes of the field.
unfoldable pub le_value : List ℕ → ℕ
le_value [] = 0
le_value (b ∷ bs) = b + 256 * le_value bs

-- `DataView.setUint32(…, false)`: the low `k` bytes, highest first.
unfoldable pub be_bytes : ℕ → ℕ → List ℕ
be_bytes zero n = []
be_bytes (suc k) n = be_bytes k (n / 256) ++ (n % 256 ∷ [])

unfoldable pub be_from : ℕ → List ℕ → ℕ
be_from acc [] = acc
be_from acc (b ∷ bs) = be_from (acc * 256 + b) bs

-- The number that bytes stand for, highest first.
unfoldable pub be_value : List ℕ → ℕ
unfolding be_from
be_value bs = be_from 0 bs

-- `bytes.slice(from, to)` for `from` and `to` that are not negative.
abbrev pub slice : List ℕ → ℕ → ℕ → List ℕ
slice bs from to = take (to - from) (drop from bs)

-- `bytes.set(xs, offset)` in bounds.
abbrev pub put : List ℕ → ℕ → List ℕ → List ℕ
put bs offset xs = take offset bs ++ (xs ++ drop (offset + length xs) bs)

-- `bytes.set(xs, offset)`; `none` is the RangeError of a write that does not fit.
abbrev pub write : List ℕ → ℕ → List ℕ → Option (List ℕ)
write bs offset xs = if leb (offset + length xs) (length bs) then some (put bs offset xs) else none

infixl 5 ◌>>=◌
abbrev pub ◌>>=◌ {ℓ κ} : {A : Type ℓ} {B : Type κ} → Option A → (A → Option B) → Option B
none >>= f = none
some a >>= f = f a

-- What a chain that gave a value went through.
pub >>=-eq-some {ℓ κ} :
    {A : Type ℓ} {B : Type κ} (first : Option A) (next : A → Option B) {out : B}
    → (first >>= next) ≡ some out
    → (a : A) × (first ≡ some a) × (next a ≡ some out)
>>=-eq-some none next h = cc
>>=-eq-some (some a) next h = (a, refl, h)

-- Writes in program order, each at its offset.
unfoldable pub write_each : List (ℕ × List ℕ) → List ℕ → Option (List ℕ)
write_each [] bs = some bs
write_each ((offset, xs) ∷ rest) bs = do bs' ← write bs offset xs; write_each rest bs'

-- The first `n` bytes and the rest, if there are so many.
unfoldable pub split_at : ℕ → List ℕ → Option (List ℕ × List ℕ)
split_at n bs = if leb n (length bs) then some (take n bs, drop n bs) else none

-- A field of `k` bytes for its length, then that many bytes.
unfoldable pub sized : ℕ → List ℕ → Option (List ℕ × List ℕ)
sized k bs = do (front, rest) ← split_at k bs; split_at (le_value front) rest

-- The end of a reader: nothing may be left.
abbrev pub finish {ℓ} : {A : Type ℓ} → List ℕ → A → Option A
finish [] a = some a
finish (x ∷ xs) a = none
