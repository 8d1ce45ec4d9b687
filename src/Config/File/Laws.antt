-- ===== src/Config/File/Laws.antt =====
-- internal/config/config.go: the directory of a path, and what `Load` gives.
use mathlib.Core.Option
use knode.Prelude.{
  ℕ, ◌≡◌, refl, ap, Bool, true, false, ◌||◌, ◌&&◌, none, some, [], ◌∷◌, ◌++◌, ◌==◌, All, arith,
}
use knode.Text.{Str, lit}
use knode.Config.File.{before_last_separator, parent_dir}

abbrev pub IsNameChar : ℕ → Type 0
IsNameChar c = ((c == b'/') || (c == b'\\')) ≡ false

-- A path with no separator, or one split at its last separator.
pub before_last_separator-none :
    (path : Str) → All IsNameChar path → before_last_separator path ≡ none
unfolding before_last_separator
before_last_separator-none [] h = refl
before_last_separator-none (c ∷ s) (p, h) = ground (arith, before_last_separator-none s h)

pub before_last_separator-append :
    (dir name : Str) (c : ℕ)
    → ((c == b'/') || (c == b'\\')) ≡ true
    → All IsNameChar name
    → before_last_separator (dir ++ c ∷ name) ≡ some dir
unfolding before_last_separator
before_last_separator-append [] name c sep h = ground (arith, before_last_separator-none name h)
before_last_separator-append (d ∷ dir) name c sep h =
    ground (arith, before_last_separator-append dir name c sep h)

-- The directory of a file is what stands in front of the last separator; without one it is `.`.
pub parent_dir-append :
    (dir name : Str)
    → All IsNameChar name
    → (parent_dir (dir ++ (lit "/" ++ name)) ≡ dir) × (parent_dir name ≡ lit ".")
unfolding parent_dir
parent_dir-append dir name h = (
  ap (λ o. Option.get_or o (lit ".")) (before_last_separator-append dir name b'/' refl h),
  ap (λ o. Option.get_or o (lit ".")) (before_last_separator-none name h),
)

-- The separators of `parentDir`, on every system.
unfoldable pub is_separator : ℕ → Bool
is_separator c = (c == b'/') || (c == b'\\')

unfoldable pub ends_element : Str → Bool
ends_element [] = true
ends_element (c ∷ s) = is_separator c

-- The path starts with the element `..`.
unfoldable pub starts_up : Str → Bool
starts_up (c ∷ (d ∷ s)) = ((c == b'.') && (d == b'.')) && ends_element s
starts_up _ = false

-- An element `..` stands behind a separator.
unfoldable pub goes_up_later : Str → Bool
goes_up_later [] = false
goes_up_later (c ∷ s) = (is_separator c && starts_up s) || goes_up_later s

-- The path has an element `..`.
unfoldable pub goes_up : Str → Bool
goes_up path = starts_up path || goes_up_later path

goes_up_tests :
    (goes_up (lit "new/../knode.json") ≡ true)
    × (goes_up (lit "..") ≡ true)
    × (goes_up (lit "a..b/...") ≡ false)
unfolding goes_up goes_up_later starts_up ends_element is_separator
goes_up_tests = (refl, refl, refl)
