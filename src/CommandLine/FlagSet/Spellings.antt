-- ===== src/CommandLine/FlagSet/Spellings.antt =====
-- cmd/knode/main.go: the spellings of `-config`.
use knode.Prelude.{◌≡◌, refl, Bool, List, ◌∷◌, ◌++◌}
use knode.Text.{Str, lit, str_eq}
use knode.CommandLine.FlagSet.{
  str_eq, Flags, parse_loop, argument, dashed_argument, named_argument, flag_argument,
  config_argument, cut_equals,
}

-- The ways to give a path as the value of `-config`.
pub data Spelling : Type 0 where
  separate separate_double joined joined_double : Spelling

abbrev pub spelled : Spelling → Str → List Str → List Str
spelled separate path rest = lit "-config" ∷ (path ∷ rest)
spelled separate_double path rest = lit "--config" ∷ (path ∷ rest)
spelled joined path rest = (lit "-config=" ++ path) ∷ rest
spelled joined_double path rest = (lit "--config=" ++ path) ∷ rest

-- Every spelling sets the path, whatever characters it has, and goes on with the arguments behind it.
pub parse_loop-spelled :
    (has_version : Bool) (way : Spelling) (f : Flags) (path : Str) (rest : List Str)
    → parse_loop has_version Bool.false f (spelled way path rest)
      ≡ parse_loop has_version Bool.false (record f { config = path }) rest
unfolding parse_loop argument dashed_argument named_argument flag_argument config_argument
    cut_equals str_eq
parse_loop-spelled has_version separate f path rest = refl
parse_loop-spelled has_version separate_double f path rest = refl
parse_loop-spelled has_version joined f path rest = refl
parse_loop-spelled has_version joined_double f path rest = refl
