-- ===== src/Utf8.antt =====
-- Go's `[]byte(s)`: the UTF-8 bytes of a string of code points, and their way back.
use mathlib.Core.Path.{ap₂}
use knode.Prelude.{
  sym, ◌≢◌, ℕ, ◌+◌, ◌/◌, ◌%◌, ◌<◌, ◌≡◌, refl, List, [], ◌∷◌, ◌++◌, ltb, if◌then◌else◌, arith, All,
}
use knode.Text.{Str, lit}

abbrev Bytes : Type 0
Bytes = List ℕ

-- A continuation byte.
abbrev tail_byte : ℕ → ℕ
tail_byte c = 0x80 + c % 64

unfoldable pub utf8_rune : ℕ → Bytes
utf8_rune c =
    if ltb c 0x80
    then c ∷ []
    else if ltb c 0x800
    then (0xc0 + c / 64) ∷ tail_byte c ∷ []
    else if ltb c 0x10000
    then (0xe0 + c / 4096) ∷ tail_byte (c / 64) ∷ tail_byte c ∷ []
    else (0xf0 + c / 262144) ∷ tail_byte (c / 4096) ∷ tail_byte (c / 64) ∷ tail_byte c ∷ []

unfoldable pub utf8 : Str → Bytes
utf8 [] = []
utf8 (c ∷ s) = utf8_rune c ++ utf8 s

-- A code point, by the range of its number.
abbrev pub IsText : Str → Type 0
IsText = All (λ c. c < 0x110000)

utf8_rune-injective :
    (c d : ℕ) (s t : Bytes)
    → c < 0x110000
    → d < 0x110000
    → utf8_rune c ++ s ≡ utf8_rune d ++ t
    → (c ≡ d) × (s ≡ t)
unfolding utf8_rune
utf8_rune-injective c d s t h k e = ground arith

utf8_rune-ne-nil : (c : ℕ) (s : Bytes) → utf8_rune c ++ s ≢ []
unfolding utf8_rune
utf8_rune-ne-nil c s e = ground arith

-- Different texts have different bytes.
pub utf8-injective : (s t : Str) → IsText s → IsText t → utf8 s ≡ utf8 t → s ≡ t
unfolding utf8
utf8-injective [] [] h k e = refl
utf8-injective [] (d ∷ t) h k e = absurd (utf8_rune-ne-nil d (utf8 t) (sym e))
utf8-injective (c ∷ s) [] h k e = absurd (utf8_rune-ne-nil c (utf8 s) e)
utf8-injective (c ∷ s) (d ∷ t) (hc, h) (kd, k) e =
    let (same, rest) = utf8_rune-injective c d (utf8 s) (utf8 t) hc kd e in
    ap₂ ◌∷◌ same (utf8-injective s t h k rest)

utf8_tests : (utf8 (0x20ac ∷ []) ≡ 0xe2 ∷ 0x82 ∷ 0xac ∷ []) × (utf8 (lit "é") ≡ 0xc3 ∷ 0xa9 ∷ [])
unfolding utf8 utf8_rune
utf8_tests = (refl, refl)
