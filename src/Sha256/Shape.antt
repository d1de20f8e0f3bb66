-- ===== src/Sha256/Shape.antt =====
-- The length of the digest of packages/sdk/src/core/sha256.ts, and a test vector.
use trana.Prelude.{ℕ, ◌+◌, ◌≡◌, refl, List, ◌++◌, arith, length, length-append, All-append, codes}
use trana.Bytes.{IsByte, IsBytes, be_bytes}
use trana.Bytes.Hex.{to_hex, hex_digit}
use trana.Bytes.Endian.{length-be_bytes, be_bytes-IsBytes}
use trana.Sha256.{Words, digest, pure_sha256, sha256_bytes, sha256, runs_sha256}

append_shape :
    (xs ys : List ℕ) (m n : ℕ)
    → (length xs ≡ m) × IsBytes xs
    → (length ys ≡ n) × IsBytes ys
    → (length (xs ++ ys) ≡ m + n) × IsBytes (xs ++ ys)
append_shape xs ys m n (h, p) (k, q) =
    (omega (arith, length-append xs ys), All-append IsByte xs ys p q)

word_shape : (w : ℕ) → (length (be_bytes 4 w) ≡ 4) × IsBytes (be_bytes 4 w)
word_shape w = (length-be_bytes 4 w, be_bytes-IsBytes 4 w)

digest_shape : (s : Words) → (length (digest s) ≡ 32) × IsBytes (digest s)
unfolding digest
digest_shape s =
    let tail_shape = append_shape _ _ 4 4 (word_shape s.g) (word_shape s.h) in
    let from_f = append_shape _ _ 4 8 (word_shape s.f) tail_shape in
    let from_e = append_shape _ _ 4 12 (word_shape s.e) from_f in
    let from_d = append_shape _ _ 4 16 (word_shape s.d) from_e in
    let from_c = append_shape _ _ 4 20 (word_shape s.c) from_d in
    let from_b = append_shape _ _ 4 24 (word_shape s.b) from_c in
    append_shape _ _ 4 28 (word_shape s.a) from_b

-- Whatever the message, its digest is 32 bytes.
pub sha256_bytes_shape :
    (msg : List ℕ) → (length (sha256_bytes msg) ≡ 32) × IsBytes (sha256_bytes msg)
unfolding sha256_bytes pure_sha256
sha256_bytes_shape msg = digest_shape _

sha256_abc :
    to_hex (sha256 (codes "abc"))
    ≡ codes "ba7816bf8f01cfea414140de5dae2223b00361a396177a9cb410ff61f20015ad"
unfolding runs_sha256 to_hex hex_digit
sha256_abc = refl
