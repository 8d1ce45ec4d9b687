-- ===== src/Text.antt =====
-- Go's `string` and the functions of packages `strings` and `unicode` that the program calls, over
-- lists of code points. A Go string that is not valid UTF-8 is outside the model.
pub mod Equality
pub mod Trim
pub mod Lower
use Prim.Native.Char.{code}
use Prim.Native.String
use knode.Prelude.{
  ℕ, ◌+◌, String, Bool, true, false, ◌&&◌, ◌||◌, List, [], ◌∷◌, ◌++◌, ltb, leb, ◌==◌, if◌then◌else◌,
  is_empty,
}

abbrev pub Str : Type 0
Str = List ℕ

-- A string literal.
abbrev pub lit : String → Str
lit String.[] = []
lit (String.◌∷◌ c s) = code c ∷ lit s

-- The text of lines, each with its end.
abbrev pub lines : List String → Str
lines [] = []
lines (l ∷ ls) = lit l ++ (lit "\n" ++ lines ls)

-- `a == b` on strings.
unfoldable pub str_eq : Str → Str → Bool
str_eq [] [] = true
str_eq (x ∷ xs) (y ∷ ys) = x == y && str_eq xs ys
str_eq _ _ = false

-- `unicode.IsSpace`: the White_Space property.
unfoldable pub is_space : ℕ → Bool
is_space c =
    leb 9 c && leb c 13
    || c == 32
    || c == 0x85
    || c == 0xa0
    || c == 0x1680
    || leb 0x2000 c && leb c 0x200a
    || c == 0x2028
    || c == 0x2029
    || c == 0x202f
    || c == 0x205f
    || c == 0x3000

-- `strings.TrimLeftFunc`.
unfoldable pub trim_left : (ℕ → Bool) → Str → Str
trim_left p [] = []
trim_left p (c ∷ s) = if p c then trim_left p s else c ∷ s

-- `strings.TrimRightFunc`: a character goes when it is in the set and nothing after it stays.
unfoldable pub trim_right : (ℕ → Bool) → Str → Str
trim_right p [] = []
trim_right p (c ∷ s) = let r = trim_right p s in if p c && is_empty r then [] else c ∷ r

-- `strings.TrimSpace`.
unfoldable pub trim_space : Str → Str
trim_space s = trim_right is_space (trim_left is_space s)

-- `strings.HasPrefix s prefix`.
unfoldable pub has_prefix : Str → Str → Bool
has_prefix s [] = true
has_prefix [] (_ ∷ _) = false
has_prefix (c ∷ s) (d ∷ t) = c == d && has_prefix s t

-- `strings.Join parts sep`.
unfoldable pub join : List Str → Str → Str
join [] sep = []
join (s ∷ []) sep = s
join (s ∷ t ∷ rest) sep = s ++ (sep ++ join (t ∷ rest) sep)

-- `unicode.ToLower` outside ASCII is a table of the Unicode standard; the program uses two of its
-- properties.
pub record Unicode : Type 0 where
  pub to_lower : ℕ → ℕ

-- `unicode.ToLower`.
unfoldable pub lower_rune : Unicode → ℕ → ℕ
lower_rune u c =
    if ltb c 128 then (if leb b'A' c && leb c b'Z' then c + 32 else c) else u.to_lower c

-- `strings.ToLower`.
unfoldable pub to_lower : Unicode → Str → Str
to_lower u [] = []
to_lower u (c ∷ s) = lower_rune u c ∷ to_lower u s
