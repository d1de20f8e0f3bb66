-- ===== src/Bytes/Json.antt =====
-- `JSON.stringify` of a text, on code points.
use trana.Prelude.{
  ℕ, ◌/◌, ◌%◌, ◌≡◌, refl, List, [], ◌∷◌, ◌++◌, ◌&&◌, ◌||◌, ltb, leb, ◌==◌, if◌then◌else◌, All, Bool,
  false,
}
use trana.Bytes.Hex.{hex_digit}

-- `\u` and four digits.
abbrev escaped : ℕ → List ℕ
escaped c =
    92
    ∷ 117
    ∷ hex_digit (c / 4096)
    ∷ hex_digit (c / 256 % 16)
    ∷ hex_digit (c / 16 % 16)
    ∷ hex_digit (c % 16)
    ∷ []

-- Control characters, a quote, a backslash, and a surrogate without its other half.
abbrev pub needs_escape : ℕ → Bool
needs_escape c = ltb c 32 || (c == 34) || (c == 92) || (leb 0xd800 c && leb c 0xdfff)

unfoldable pub json_char : ℕ → List ℕ
json_char c =
    if needs_escape c
    then if c == 8
      then 92 ∷ 98 ∷ []
      else if c == 9
      then 92 ∷ 116 ∷ []
      else if c == 10
      then 92 ∷ 110 ∷ []
      else if c == 12
      then 92 ∷ 102 ∷ []
      else if c == 13
      then 92 ∷ 114 ∷ []
      else if c == 34
      then 92 ∷ 34 ∷ []
      else if c == 92
      then 92 ∷ 92 ∷ []
      else escaped c
    else c ∷ []

abbrev json_chars : List ℕ → List ℕ
json_chars [] = []
json_chars (c ∷ cs) = json_char c ++ json_chars cs

unfoldable pub json_string : List ℕ → List ℕ
json_string text = 34 ∷ (json_chars text ++ (34 ∷ []))

json_chars-plain : (cs : List ℕ) → All (λ c. needs_escape c ≡ false) cs → json_chars cs ≡ cs
unfolding json_char
json_chars-plain [] h = refl
json_chars-plain (c ∷ cs) (plain, h) = rw (plain, json_chars-plain cs h) refl

-- A text without a character to escape is put in quotes as it is.
pub json_string-plain :
    (cs : List ℕ) → All (λ c. needs_escape c ≡ false) cs → json_string cs ≡ 34 ∷ (cs ++ (34 ∷ []))
unfolding json_string
json_string-plain cs h = rw (json_chars-plain cs h) refl
