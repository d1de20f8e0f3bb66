-- ===== src/Bytes/Utf8.antt =====
-- `TextEncoder.encode`: the UTF-8 bytes of a text, given as its code points.
use trana.Prelude.{ℕ, ◌+◌, ◌/◌, ◌%◌, ◌<◌, ◌≡◌, refl, arith}
use trana.Prelude.{List, [], ◌∷◌, ◌++◌, ltb, if◌then◌else◌, All, sym, append_assoc}

utf8_char : ℕ → List ℕ
utf8_char c =
    if ltb c 0x80
    then c ∷ []
    else if ltb c 0x800
    then (c / 64 + 0xc0) ∷ (c % 64 + 0x80) ∷ []
    else if ltb c 0x10000
    then (c / 4096 + 0xe0) ∷ (c / 64 % 64 + 0x80) ∷ (c % 64 + 0x80) ∷ []
    else (c / 262144 + 0xf0) ∷ (c / 4096 % 64 + 0x80) ∷ (c / 64 % 64 + 0x80) ∷ (c % 64 + 0x80) ∷ []

unfoldable pub utf8 : List ℕ → List ℕ
unfolding utf8_char
utf8 [] = []
utf8 (c ∷ cs) = utf8_char c ++ utf8 cs

-- ASCII text is its own encoding.
pub utf8_ascii : (cs : List ℕ) → All (λ c. c < 0x80) cs → utf8 cs ≡ cs
unfolding utf8
utf8_ascii [] h = refl
utf8_ascii (c ∷ cs) (p, h) = ground (arith, utf8_ascii cs h)

pub utf8-append : (xs ys : List ℕ) → utf8 (xs ++ ys) ≡ utf8 xs ++ utf8 ys
unfolding utf8
utf8-append [] ys = refl
utf8-append (x ∷ xs) ys = rw (utf8-append xs ys) (sym (append_assoc _ (utf8 xs) (utf8 ys)))
