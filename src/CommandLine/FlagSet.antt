-- ===== src/CommandLine/FlagSet.antt =====
-- cmd/knode/main.go: the flag sets of the commands. `Parse` is the Go library's, with `ExitOnError`: a
-- wrong flag ends the program with 2, and a request for help with 0.
pub mod Spellings
use knode.Prelude.{
  ℕ, ◌≡◌, refl, ◌⊎◌, inl, inr, Bool, true, false, not, ◌&&◌, ◌||◌, Option, none, some, List, [],
  ◌∷◌, ◌==◌, if◌then◌else◌,
}
use knode.Text.{Str, lit, str_eq}

-- The values of `-config` and `-version`.
pub record Flags : Type 0 where
  pub config : Str
  pub show_version : Bool

abbrev pub default_flags : Flags
default_flags = record { config = lit "knode.json"; show_version = false }

pub data Parsed : Type 0 where
  parsed : Flags → Parsed
  exits : ℕ → Parsed

-- An argument: `stop` ends the flags, and `needs_value` takes the next argument.
pub data Argument : Type 0 where
  stop bad help needs_value : Argument
  config_value : Str → Argument
  version_value : Bool → Argument

-- `strconv.ParseBool`.
unfoldable pub parse_bool : Str → Option Bool
parse_bool s =
    if str_eq s (lit "1")
      || (str_eq s (lit "t")
          || (str_eq s (lit "T")
              || (str_eq s (lit "TRUE") || (str_eq s (lit "true") || str_eq s (lit "True")))))
    then some true
    else if str_eq s (lit "0")
        || (str_eq s (lit "f")
            || (str_eq s (lit "F")
                || (str_eq s (lit "FALSE") || (str_eq s (lit "false") || str_eq s (lit "False")))))
    then some false
    else none

-- The name in front of the first `=`, and the value behind it.
unfoldable pub cut_equals : Str → Str × Option Str
cut_equals [] = ([], none)
cut_equals (c ∷ s) =
    let (name, value) = cut_equals s in if c == b'=' then ([], some s) else (c ∷ name, value)

unfoldable pub bool_argument : Option Bool → Argument
bool_argument none = Argument.bad
bool_argument (some b) = Argument.version_value b

unfoldable pub version_argument : Option Str → Argument
version_argument none = Argument.version_value true
version_argument (some text) = bool_argument (parse_bool text)

unfoldable pub config_argument : Option Str → Argument
config_argument none = Argument.needs_value
config_argument (some path) = Argument.config_value path

-- A flag by its name, in a set with or without `-version`.
unfoldable pub flag_argument : Bool → Str → Option Str → Argument
flag_argument has_version name value =
    if str_eq name (lit "config")
    then config_argument value
    else if has_version && str_eq name (lit "version")
    then version_argument value
    else if str_eq name (lit "help") || str_eq name (lit "h")
    then Argument.help
    else Argument.bad

-- What stands behind the dashes.
unfoldable pub named_argument : Bool → Str → Argument
named_argument has_version [] = Argument.bad
named_argument has_version (c ∷ s) =
    let (name, value) = cut_equals s in
    if (c == b'-') || (c == b'=') then Argument.bad else flag_argument has_version (c ∷ name) value

unfoldable pub dashed_argument : Bool → Str → Argument
dashed_argument has_version [] = Argument.stop
dashed_argument has_version (c ∷ s) =
    if not (c == b'-')
    then named_argument has_version (c ∷ s)
    else elim s [ [] ↦ Argument.stop | d ∷ t ↦ named_argument has_version (d ∷ t) ]

unfoldable pub argument : Bool → Str → Argument
argument has_version [] = Argument.stop
argument has_version (c ∷ s) =
    if not (c == b'-') then Argument.stop else dashed_argument has_version s

-- The loop of `Parse`. The second argument is set while `-config` waits for its value.
unfoldable pub parse_loop : Bool → Bool → Flags → List Str → Parsed
parse_loop has_version true f [] = Parsed.exits 2
parse_loop has_version true f (value ∷ rest) =
    parse_loop has_version false (record f { config = value }) rest
parse_loop has_version false f [] = Parsed.parsed f
parse_loop has_version false f (arg ∷ rest) = elim (argument has_version arg) [
  | stop ↦ Parsed.parsed f
  | bad ↦ Parsed.exits 2
  | help ↦ Parsed.exits 0
  | needs_value ↦ parse_loop has_version true f rest
  | config_value value ↦ parse_loop has_version false (record f { config = value }) rest
  | version_value b ↦ parse_loop has_version false (record f { show_version = b }) rest
]

-- `fs.Parse`.
unfoldable pub parse_flags : Bool → List Str → Parsed
parse_flags has_version args = parse_loop has_version false default_flags args

pub Parsed-cases :
    (p : Parsed) → ((code : ℕ) × (p ≡ Parsed.exits code)) ⊎ ((f : Flags) × (p ≡ Parsed.parsed f))
Parsed-cases (Parsed.exits code) = inl (code, refl)
Parsed-cases (Parsed.parsed f) = inr (f, refl)
