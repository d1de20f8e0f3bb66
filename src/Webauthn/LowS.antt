-- ===== src/Webauthn/LowS.antt =====
-- normalizeLowS of packages/sdk/src/core/webauthn.ts.
use trana.Prelude.{ℕ, zero, suc, ◌-◌, ◌*◌, ◌≤◌, ◌<◌, ◌≡◌, refl, ap, ap₂, ◌∙◌, arith}
use trana.Prelude.{List, [], ◌∷◌, ◌++◌, append-nil, some, leb, leb→le, true, false, if◌then◌else◌}
use trana.Prelude.{
  length, length-append, length-replicate, drop, replicate, take-append, drop-append, Bool-cases,
  Option-cases, inl, inr,
}
use trana.Bytes.{IsBytes, be_bytes, be_value, put}
use trana.Bytes.Endian.{length-be_bytes, be_value-be_bytes, be_bytes-IsBytes}
use trana.Bytes.Writes.{put_middle}
use trana.Prelude.Result.{Result, ok}
use trana.Webauthn.{
  Error, hex_to_bigint, normalize_low_s, parse_pairs, difference_text, curve_order, half_order,
}
use trana.Intent.{pad_start}
use trana.Webauthn.Radix.{hex_to_bigint_lem, difference_bytes, parse_pairs-to_hex}

-- What normalisation should make of the number s: the smaller of s and n - s.
abbrev pub low : ℕ → ℕ
low s = if leb s half_order then s else curve_order - s

hex_to_bigint-IsBytes :
    (s : List ℕ) → IsBytes s → length s ≡ 32 → hex_to_bigint s ≡ some (be_value s)
hex_to_bigint-IsBytes [] p h = absurd (omega arith)
hex_to_bigint-IsBytes (b ∷ s) p h = hex_to_bigint_lem b s p

pub put_halves :
    (r s : List ℕ) → length r ≡ 32 → length s ≡ 32 → put (put (replicate 64 0) 0 r) 32 s ≡ r ++ s
put_halves r s h k =
    ap (λ t. put t 32 s) (put_middle [] (replicate 32 0) (replicate 32 0) r 0 refl h)
    ∙ put_middle r (replicate 32 0) [] s 32 h k
    ∙ ap (λ t. r ++ t) (append-nil s)

module _ (r s : List ℕ) (r_32 : length r ≡ 32) (s_32 : length s ≡ 32) (s_bytes : IsBytes s) where
  pub read_s : hex_to_bigint (drop 32 (r ++ s)) ≡ some (be_value s)
  read_s = ap hex_to_bigint (drop-append r s 32 r_32) ∙ hex_to_bigint-IsBytes s s_bytes s_32

  pub normalize_low_s-keeps :
      leb (be_value s) half_order ≡ true → normalize_low_s (r ++ s) ≡ ok (r ++ s)
  unfolding normalize_low_s
  normalize_low_s-keeps small = rw (read_s, normalize_low_s) (rw small refl)

  pub normalize_low_s-flips :
      be_value s < curve_order
      → leb (be_value s) half_order ≡ false
      → normalize_low_s (r ++ s) ≡ ok (r ++ be_bytes 32 (curve_order - be_value s))
  unfolding normalize_low_s
  normalize_low_s-flips below high =
      rw (read_s, normalize_low_s)
        (rw high (
          ap ok (
            ap₂ (λ xs ys. put (put (replicate 64 0) 0 xs) 32 ys) (take-append r s 32 r_32) parsed
            ∙ put_halves r (be_bytes 32 (curve_order - be_value s)) r_32 (length-be_bytes 32 _))))
    where
      flipped : List ℕ
      flipped = be_bytes 32 (curve_order - be_value s)

      parsed :
          parse_pairs 32 (pad_start 64 (difference_text curve_order (be_value s)))
          ≡ be_bytes 32 (curve_order - be_value s)
      parsed =
          ap (parse_pairs 32)
            (difference_bytes curve_order (be_value s) (omega arith) (omega arith))
          ∙ parse_pairs-to_hex flipped 32 (be_bytes-IsBytes 32 (curve_order - be_value s))
              (length-be_bytes 32 (curve_order - be_value s))

-- A signature of two 32-byte halves whose s is below the order keeps its r, and its new s is the
-- smaller of s and n - s: 32 bytes, at most half the order.
pub normalize_low_s-low :
    (r s : List ℕ)
    → length r ≡ 32
    → length s ≡ 32
    → IsBytes s
    → be_value s < curve_order
    → (t : List ℕ) × (normalize_low_s (r ++ s) ≡ ok (r ++ t))
      × (length t ≡ 32)
      × (be_value t ≡ low (be_value s))
      × (be_value t ≤ half_order)
normalize_low_s-low r s h k p below = elim (Bool-cases (leb (be_value s) half_order)) [
  | inl small ↦ (
    s,
    normalize_low_s-keeps r s h k p small,
    k,
    rw small refl,
    leb→le (be_value s) half_order small,
  )
  | inr high ↦
      let value = be_value-be_bytes 32 (curve_order - be_value s) (omega arith) in
      (
        be_bytes 32 (curve_order - be_value s),
        normalize_low_s-flips r s h k p below high,
        length-be_bytes 32 _,
        rw high value,
        ground arith,
      )
]

length-parse_pairs : (n : ℕ) (cs : List ℕ) → 2 * n ≤ length cs → length (parse_pairs n cs) ≡ n
unfolding parse_pairs
length-parse_pairs zero cs h = refl
length-parse_pairs (suc n) [] h = absurd (omega arith)
length-parse_pairs (suc n) (c ∷ []) h = absurd (omega arith)
length-parse_pairs (suc n) (c ∷ d ∷ cs) h = ap suc (length-parse_pairs n cs (omega arith))

length-pad_start : (n : ℕ) (cs : List ℕ) → n ≤ length (pad_start n cs)
length-pad_start n cs = omega (
  arith,
  length-append (replicate (n - length cs) 48) cs,
  length-replicate {0} {A = ℕ} (n - length cs) 48,
)

ok_inj : {a b : List ℕ} → ◌≡◌ {A = Result Error (List ℕ)} (ok a) (ok b) → b ≡ a
ok_inj e = cc

-- Normalisation never changes the length or the first half, also for a number above the order.
pub normalize_low_s-halves :
    (r s : List ℕ) {out : List ℕ}
    → length r ≡ 32
    → length s ≡ 32
    → normalize_low_s (r ++ s) ≡ ok out
    → (t : List ℕ) × (out ≡ r ++ t) × (length t ≡ 32)
unfolding normalize_low_s
normalize_low_s-halves r s h k e = elim (Option-cases (hex_to_bigint (drop 32 (r ++ s)))) [
  | inl unread ↦ let failed = rw (unread, normalize_low_s) at e in cc failed
  | inr (v, read) ↦ elim (Bool-cases (leb v half_order)) [
    | inl small ↦ let kept = rw (small) at (rw (read, normalize_low_s) at e) in (s, cc kept, k)
    | inr high ↦
        let flipped = rw (high) at (rw (read, normalize_low_s) at e) in
        let t = parse_pairs 32 (pad_start 64 (difference_text curve_order v)) in
        let t_32 = length-parse_pairs 32 _ (length-pad_start 64 (difference_text curve_order v)) in
        (
          t,
          ok_inj flipped
              ∙ ap (λ x. put (put (replicate 64 0) 0 x) 32 t) (take-append r s 32 h)
              ∙ put_halves r t h t_32,
          t_32,
        )
  ]
]
