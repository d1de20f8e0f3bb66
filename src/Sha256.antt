-- ===== src/Sha256.antt =====
-- packages/sdk/src/core/sha256.ts: SHA-256 in plain TypeScript. A 32-bit word is its bit pattern, a
-- number below 2 ^ 32: every signed intermediate of the source is taken to that pattern by `>>> 0`,
-- by a store in a `Uint32Array` or by the next bit operation.
pub mod Padding
pub mod Unpad
pub mod Shape
use trana.Prelude.{ℕ, zero, suc, ◌+◌, ◌-◌, ◌*◌, ◌/◌, ◌%◌, ◌^◌, bit_and, bit_or, bit_xor}
use trana.Prelude.{List, [], ◌∷◌, ◌++◌, Option, none, some, ltb, if◌then◌else◌}
use trana.Prelude.{length, take, drop, get_or, replicate}
use trana.Bytes.{be_bytes, be_value, le_value, slice, put}
use trana.Bytes.Utf8.{utf8}

abbrev pub word_mod : ℕ
word_mod = 2 ^ 32

abbrev k_words : List ℕ
k_words =
    0x428a2f98 ∷ 0x71374491 ∷ 0xb5c0fbcf ∷ 0xe9b5dba5 ∷ 0x3956c25b ∷ 0x59f111f1 ∷ 0x923f82a4
    ∷ 0xab1c5ed5 ∷ 0xd807aa98 ∷ 0x12835b01 ∷ 0x243185be ∷ 0x550c7dc3 ∷ 0x72be5d74 ∷ 0x80deb1fe
    ∷ 0x9bdc06a7 ∷ 0xc19bf174 ∷ 0xe49b69c1 ∷ 0xefbe4786 ∷ 0x0fc19dc6 ∷ 0x240ca1cc ∷ 0x2de92c6f
    ∷ 0x4a7484aa ∷ 0x5cb0a9dc ∷ 0x76f988da ∷ 0x983e5152 ∷ 0xa831c66d ∷ 0xb00327c8 ∷ 0xbf597fc7
    ∷ 0xc6e00bf3 ∷ 0xd5a79147 ∷ 0x06ca6351 ∷ 0x14292967 ∷ 0x27b70a85 ∷ 0x2e1b2138 ∷ 0x4d2c6dfc
    ∷ 0x53380d13 ∷ 0x650a7354 ∷ 0x766a0abb ∷ 0x81c2c92e ∷ 0x92722c85 ∷ 0xa2bfe8a1 ∷ 0xa81a664b
    ∷ 0xc24b8b70 ∷ 0xc76c51a3 ∷ 0xd192e819 ∷ 0xd6990624 ∷ 0xf40e3585 ∷ 0x106aa070 ∷ 0x19a4c116
    ∷ 0x1e376c08 ∷ 0x2748774c ∷ 0x34b0bcb5 ∷ 0x391c0cb3 ∷ 0x4ed8aa4a ∷ 0x5b9cca4f ∷ 0x682e6ff3
    ∷ 0x748f82ee ∷ 0x78a5636f ∷ 0x84c87814 ∷ 0x8cc70208 ∷ 0x90befffa ∷ 0xa4506ceb ∷ 0xbef9a3f7
    ∷ 0xc67178f2 ∷ []

-- `(x >>> n) | (x << (32 - n))`, for 0 < n < 32
rotr : ℕ → ℕ → ℕ
rotr x n = bit_or (x / 2 ^ n) (x * 2 ^ (32 - n) % word_mod)

-- The eight working variables `a` to `h`, and the hash words `H`.
pub record Words : Type 0 where
  pub a : ℕ
  pub b : ℕ
  pub c : ℕ
  pub d : ℕ
  pub e : ℕ
  pub f : ℕ
  pub g : ℕ
  pub h : ℕ

abbrev initial_words : Words
initial_words = record {
  a = 0x6a09e667;
  b = 0xbb67ae85;
  c = 0x3c6ef372;
  d = 0xa54ff53a;
  e = 0x510e527f;
  f = 0x9b05688c;
  g = 0x1f83d9ab;
  h = 0x5be0cd19;
}

-- `padLength`: `& ~63` takes its operand to 32 bits and clears the low six. From 2 ^ 31 - 72 bytes on
-- the source's value is negative or too small for the message, and the source throws at `new Uint8Array`
-- or at `set`; the bit pattern here says nothing of such messages.
abbrev pub pad_length : ℕ → ℕ
pad_length length = (length + 9 + 63) % word_mod / 64 * 64

-- The buffer `padded`: the message, the marker byte and the two halves of the bit length, written in
-- the source's order over zeros.
unfoldable pub padded : List ℕ → List ℕ
padded msg =
    let zeros = replicate (pad_length (length msg)) 0 in
    let with_msg = put zeros 0 msg in
    let with_mark = put with_msg (length msg) (0x80 ∷ []) in
    let with_low =
      put with_mark (pad_length (length msg) - 4) (be_bytes 4 (length msg * 8 % word_mod)) in
    put with_low (pad_length (length msg) - 8) (be_bytes 4 (length msg * 8 / 2 ^ 32))

-- `view.getUint32(offset, false)`
word_at : List ℕ → ℕ → ℕ
word_at bytes offset = be_value (slice bytes offset (offset + 4))

first_words : ℕ → List ℕ → ℕ → List ℕ
unfolding word_at
first_words zero bytes offset = []
first_words (suc n) bytes offset = word_at bytes offset ∷ first_words n bytes (offset + 4)

-- `W[i]` for 16 ≤ i, from the words before it.
next_word : List ℕ → ℕ → ℕ
unfolding rotr
next_word w i =
    let w15 = get_or w (i - 15) 0 in
    let w2 = get_or w (i - 2) 0 in
    let s0 = bit_xor (bit_xor (rotr w15 7) (rotr w15 18)) (w15 / 2 ^ 3) in
    let s1 = bit_xor (bit_xor (rotr w2 17) (rotr w2 19)) (w2 / 2 ^ 10) in
    (get_or w (i - 16) 0 + s0 + get_or w (i - 7) 0 + s1) % word_mod

extend : ℕ → List ℕ → ℕ → List ℕ
unfolding next_word
extend zero w i = w
extend (suc n) w i = extend n (w ++ (next_word w i ∷ [])) (i + 1)

-- The array `W` for the block at `offset`.
schedule : List ℕ → ℕ → List ℕ
unfolding first_words extend
schedule bytes offset = extend 48 (first_words 16 bytes offset) 16

-- One round of the inner loop, on `K[i]` and `W[i]`.
round : Words → ℕ → ℕ → Words
unfolding rotr
round s k w =
    let big_s1 = bit_xor (bit_xor (rotr s.e 6) (rotr s.e 11)) (rotr s.e 25) in
    let ch = bit_xor (bit_and s.e s.f) (bit_and (word_mod - 1 - s.e) s.g) in
    let temp1 = (s.h + big_s1 + ch + k + w) % word_mod in
    let big_s0 = bit_xor (bit_xor (rotr s.a 2) (rotr s.a 13)) (rotr s.a 22) in
    let maj = bit_xor (bit_xor (bit_and s.a s.b) (bit_and s.a s.c)) (bit_and s.b s.c) in
    let temp2 = (big_s0 + maj) % word_mod in
    record {
      a = (temp1 + temp2) % word_mod;
      b = s.a;
      c = s.b;
      d = s.c;
      e = (s.d + temp1) % word_mod;
      f = s.e;
      g = s.f;
      h = s.g;
    }

rounds : List ℕ → List ℕ → Words → Words
unfolding round
rounds [] ws s = s
rounds (k ∷ ks) [] s = s
rounds (k ∷ ks) (w ∷ ws) s = rounds ks ws (round s k w)

-- `H[0] = (H[0] + a) >>> 0` and so on to `H[7]`.
add_words : Words → Words → Words
add_words s t = record {
  a = (s.a + t.a) % word_mod;
  b = (s.b + t.b) % word_mod;
  c = (s.c + t.c) % word_mod;
  d = (s.d + t.d) % word_mod;
  e = (s.e + t.e) % word_mod;
  f = (s.f + t.f) % word_mod;
  g = (s.g + t.g) % word_mod;
  h = (s.h + t.h) % word_mod;
}

-- The outer loop, over the blocks that are left.
blocks : ℕ → List ℕ → ℕ → Words → Words
blocks zero bytes offset hash = hash
blocks (suc n) bytes offset hash =
    blocks n bytes (offset + 64) (add_words hash (rounds k_words (schedule bytes offset) hash))

-- The loop of `out.setUint32`, over the eight words.
digest : Words → List ℕ
digest s =
    be_bytes 4 s.a
    ++ (be_bytes 4 s.b
        ++ (be_bytes 4 s.c
            ++ (be_bytes 4 s.d
                ++ (be_bytes 4 s.e ++ (be_bytes 4 s.f ++ (be_bytes 4 s.g ++ be_bytes 4 s.h))))))

pub pure_sha256 : List ℕ → List ℕ
pure_sha256 msg = digest (blocks (pad_length (length msg) / 64) (padded msg) 0 initial_words)

pub sha256_bytes : List ℕ → List ℕ
sha256_bytes input = pure_sha256 input

-- Over a text, as its code points.
pub sha256 : List ℕ → List ℕ
sha256 input = pure_sha256 (utf8 input)

-- A test that runs the hash unfolds this.
unfoldable pub runs_sha256 : Unit {0}
unfolding sha256 sha256_bytes pure_sha256 padded blocks schedule rounds add_words digest utf8
    be_bytes be_value
runs_sha256 = tt

-- `none` is the source's `null`.
unfoldable pub decode_params_u64 : List ℕ → Option ℕ
decode_params_u64 params =
    if ltb (length params) 8 then none else some (le_value (slice params 0 8))
