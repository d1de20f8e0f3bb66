-- ===== src/Testing/LowS.antt =====
-- ensureLowS of packages/sdk/src/testing/index.ts.
use trana.Prelude.{ℕ, ◌≡◌, refl, ap, ◌∙◌, List, ◌++◌, some, leb, length, replicate, take-append}
use trana.Bytes.{IsBytes, be_value, put}
use trana.Bytes.Writes.{put_middle}
use trana.Prelude.{[], if◌then◌else◌}
use trana.Webauthn.{half_order}
use trana.Webauthn.LowS.{read_s}
use trana.Testing.{ensure_low_s}

-- A signature of two 32-byte halves is kept when its s is at most half the order, and otherwise its s
-- half becomes 32 zero bytes.
pub ensure_low_s-halves :
    (r s : List ℕ)
    → length r ≡ 32
    → length s ≡ 32
    → IsBytes s
    → (ensure_low_s (r ++ s)
        ≡ some (if leb (be_value s) half_order then r ++ s else r ++ replicate 32 0))
unfolding ensure_low_s
ensure_low_s-halves r s h k p =
    rw (read_s r s h k p, ensure_low_s)
      (ap (λ t. some (if leb (be_value s) half_order then r ++ s else t))
        (ap (put (replicate 64 0) 0) (take-append r s 32 h)
          ∙ put_middle [] (replicate 32 0) (replicate 32 0) r 0 refl h))
