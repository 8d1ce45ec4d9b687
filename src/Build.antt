-- ===== src/Build.antt =====
-- internal/node/build.go: the version of the program. The global variable is passed along.
use knode.Prelude.{[], ◌++◌, if◌then◌else◌}
use knode.Text.{Str, lit, str_eq, trim_space}

-- `SetBuildInfo`: the new value of `buildVersion`.
unfoldable pub set_build_info : Str → Str
set_build_info version = if str_eq (trim_space version) [] then lit "dev" else trim_space version

unfoldable pub backend_version : Str → Str
backend_version build_version = lit "knode-" ++ build_version
