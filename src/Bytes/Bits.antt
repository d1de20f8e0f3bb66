-- ===== src/Bytes/Bits.antt =====
-- `& 1` on a byte is its remainder by two: a table of 256 entries, checked by evaluation.
use trana.Prelude.{
  ℕ, zero, suc, ◌%◌, ◌<◌, ◌≡◌, refl, arith, bit_and, Bool, true, ◌&&◌, ◌==◌, ==_iff,
}

all_below : ℕ → (ℕ → Bool) → Bool
all_below zero p = true
all_below (suc n) p = p n && all_below n p

all_below_holds : (n : ℕ) (p : ℕ → Bool) (x : ℕ) → all_below n p ≡ true → x < n → p x ≡ true
unfolding all_below
all_below_holds zero p x h lt = elim lt [ ]
all_below_holds (suc n) p x h lt = ground (arith, all_below_holds n p x)

parity_table : all_below 256 (λ b. bit_and b 1 == b % 2) ≡ true
unfolding all_below
parity_table = refl

pub bit_and-one : (b : ℕ) → b < 256 → bit_and b 1 ≡ b % 2
bit_and-one b h = (==_iff _ _).0 (all_below_holds 256 _ b parity_table h)
