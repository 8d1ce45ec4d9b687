-- ===== src/Config/File.antt =====
-- internal/config/config.go: reading the configuration and writing the sample, and the look up of an
-- upstream. The files of the operating system and the JSON decoder are parameters.
pub mod Laws
use mathlib.Core.Option
use knode.Prelude.{
  ℕ, Bool, ◌||◌, Option, none, some, List, [], ◌∷◌, Result, ok, err, ◌==◌, if◌then◌else◌, ◌>>=◌,
}
use knode.Text.{Str, lit, str_eq}
use knode.Config.{UpstreamConfig, Config}
use knode.Config.Sample.{sample_json}
use knode.Config.System.{System}
use knode.Config.Validate.{validate}

-- The calls of package os: `read_file` is `Open` and the text of the file, and `exists` is a `Stat`
-- without an error. The number is the mode of a new file or directory.
pub record FileSystem : Type 1 where
  pub State : Type 0
  pub read_file : State → Str → Result Str
  pub exists : State → Str → Bool
  pub mkdir_all : State → Str → ℕ → State × Result (Unit {0})
  pub write_file : State → Str → Str → ℕ → State × Result (Unit {0})

abbrev pub default_config_file_mode : ℕ
default_config_file_mode = 0o600

abbrev pub default_config_directory : ℕ
default_config_directory = 0o755

-- `strings.LastIndexAny` and the cut at the index that it finds.
unfoldable pub before_last_separator : Str → Option Str
before_last_separator [] = none
before_last_separator (c ∷ s) = elim (before_last_separator s) [
  | some t ↦ some (c ∷ t)
  | none ↦ if (c == b'/') || (c == b'\\') then some [] else none
]

unfoldable pub parent_dir : Str → Str
parent_dir path = Option.get_or (before_last_separator path) (lit ".")

-- `UpstreamByName`.
unfoldable pub upstream_by_name : List UpstreamConfig → Str → Option UpstreamConfig
upstream_by_name [] name = none
upstream_by_name (u ∷ us) name = if str_eq u.name name then some u else upstream_by_name us name

module _ (fs : FileSystem) where
  -- `Load`; `decode` is the decoder that refuses unknown fields.
  unfoldable pub load : System → (Str → Result Config) → fs.State → Str → Result Config
  load sys decode s path = do text ← fs.read_file s path; cfg ← decode text; validate sys cfg

  -- `WriteSample`.
  unfoldable pub write_sample : fs.State → Str → fs.State × Result (Unit {0})
  write_sample s path =
      let (s1, made) = fs.mkdir_all s (parent_dir path) default_config_directory in
      elim made [
        | err e ↦ (s1, err e)
        | ok done ↦ fs.write_file s1 path sample_json default_config_file_mode
      ]
