-- ===== src/Tests/Commands.antt =====
-- The commands on files that are a map from paths to texts.
use knode.Prelude.{
  ◌≡◌, refl, Bool, true, false, Option, none, some, List, [], ◌∷◌, Error, Result, ok, err, arith,
  if◌then◌else◌, is_empty,
}
use knode.Text.{Str, lit, str_eq}
use knode.Text.Equality.{str_eq_refl, str_eq_iff}
use knode.Dict.{Dict, lookup, insert}
use knode.Dict.Lookup.{lookup-insert}
use knode.Config.{Config}
use knode.Config.File.{before_last_separator, parent_dir, FileSystem, default_config_directory}
use knode.Config.File.Laws.{goes_up, goes_up_later, starts_up, ends_element, is_separator}
use knode.CommandLine.FlagSet.{
  parse_flags, parse_loop, argument, dashed_argument, named_argument, cut_equals, flag_argument,
  config_argument,
}
use knode.Config.Sample.{sample_json, sample_config}
use knode.Service.{Service}
use knode.Service.Run.{Stop, run_service}
use knode.CommandLine.{World, BuildInfo, dispatch, ends, exit_code, service_result}
use knode.CommandLine.FlagSet.Spellings.{Spelling, spelled}
use knode.CommandLine.Files.{FileLaws, written_path, dispatch-keeps_files}
use knode.CommandLine.Usage.{has_usage, asks_help, has_usage-dispatch}
use knode.CommandLine.Init.{dispatch-init_refused}
use knode.CommandLine.Root.{init-fails_at_root}
use knode.CommandLine.Serve.{dispatch-serves}
use knode.Tests.Fixtures.{system, config, plain_laws}
use knode.Tests.Configs.{checked, config-valid, config_settled}
use knode.Tests.Services.{network}

abbrev missing : Error
missing = Error.ext 2

abbrev found : Option Str → Bool
found none = false
found (some text) = true

abbrev text_of : Option Str → Result Str
text_of none = err missing
text_of (some text) = ok text

-- No directory has the empty path; any other can be made.
abbrev files : FileSystem
files = record {
  State = Dict Str;
  read_file = λ s path. text_of (lookup path s);
  exists = λ s path. found (lookup path s);
  mkdir_all = λ s dir mode. (s, if is_empty dir then err missing else ok tt);
  write_file = λ s path text mode. (insert path text s, ok tt);
}

write_new :
    (s : Dict Str) (new path text : Str)
    → found (lookup new s) ≡ false
    → found (lookup path s) ≡ true
    → text_of (lookup path (insert new text s)) ≡ text_of (lookup path s)
write_new s new path text absent file =
    ground (arith, lookup-insert new path text s, str_eq_iff new path)

write_same : (s : Dict Str) (path text : Str) → text_of (lookup path (insert path text s)) ≡ ok text
write_same s path text = ground (arith, lookup-insert path path text s, str_eq_refl path)

file_laws : FileLaws files
file_laws = record {
  is_file = λ s path. found (lookup path s);
  exists-file = λ s path h. h;
  is_file-mkdir_all = λ s dir path mode h. h;
  is_file-mkdir_parent = λ s path mode plain h. h;
  read_file-mkdir_all = λ s dir path mode h. refl;
  read_file-write_new = λ s new path text mode. write_new s new path text;
  read_file-write_file = λ s path text mode h. write_same s path text;
}

-- A decoder that knows two texts.
abbrev decode : Str → Result Config
decode text =
    if str_eq text sample_json
    then ok sample_config
    else if str_eq text (lit "{}")
    then ok config
    else err (Error.text "no JSON")

abbrev world : World
world = record {
  sys = system;
  fs = files;
  decode = decode;
  net = network;
  now = 0;
  manager_path = [];
  run_manager = λ path. ok tt;
  server_identity = ok (1 ∷ [], 2 ∷ []);
  client_secret = ok (3 ∷ []);
  encode_key = λ key. key;
  listen = λ closers address. ok address;
  stop = Stop.cancelled;
  finish = none;
}

abbrev build : BuildInfo
build = record { version = lit "1.2"; commit = lit "abc"; date = lit "today" }

abbrev disk : Dict Str
disk = (lit "etc/node.json", lit "{}") ∷ []

has_usage-dispatch_example :
    has_usage (dispatch world build disk (lit "help" ∷ [])).output ≡ asks_help (lit "help" ∷ [])
has_usage-dispatch_example = has_usage-dispatch world build disk (lit "help" ∷ [])

abbrev init_args : List Str
init_args = lit "init" ∷ (lit "-config" ∷ (lit "etc/node.json" ∷ []))

node_path_is_plain : goes_up (written_path init_args) ≡ false
unfolding goes_up goes_up_later starts_up ends_element is_separator str_eq parse_flags parse_loop
    argument dashed_argument named_argument cut_equals flag_argument config_argument
node_path_is_plain = refl

node_file : file_laws.is_file disk (lit "etc/node.json") ≡ true
unfolding file_laws lookup str_eq
node_file = refl

dispatch-keeps_files_example :
    files.read_file (dispatch world build disk init_args).state (lit "etc/node.json")
    ≡ files.read_file disk (lit "etc/node.json")
dispatch-keeps_files_example =
    dispatch-keeps_files world file_laws build disk init_args (lit "etc/node.json")
      node_path_is_plain node_file

new_file : found (lookup (lit "etc/new.json") disk) ≡ false
unfolding lookup str_eq
new_file = refl

directory_made :
    (files.mkdir_all disk (parent_dir (lit "etc/new.json")) default_config_directory).1 ≡ ok tt
unfolding parent_dir before_last_separator
directory_made = refl

sample_decoded : decode sample_json ≡ ok sample_config
sample_decoded = rw (str_eq_refl sample_json) refl

dispatch-init_refused_example :
    let made =
      dispatch world build disk (lit "init" ∷ spelled Spelling.joined (lit "etc/new.json") []) in
    (exit_code made.ending ≡ 0)
    × (exit_code
          (dispatch world build made.state
            (lit "check" ∷ spelled Spelling.separate (lit "etc/new.json") [])).ending
        ≡ 1)
    × (exit_code
          (dispatch world build made.state
            (lit "run" ∷ spelled Spelling.separate (lit "etc/new.json") [])).ending
        ≡ 1)
dispatch-init_refused_example =
    dispatch-init_refused world file_laws build disk Spelling.joined Spelling.separate
      (lit "etc/new.json") new_file (directory_made, refl) sample_decoded

root_absent : found (lookup (lit "/node.json") disk) ≡ false
unfolding lookup str_eq
root_absent = refl

init-fails_at_root_example :
    dispatch world build disk (lit "init" ∷ spelled Spelling.separate (lit "/node.json") [])
    ≡ ends disk [] (err missing)
init-fails_at_root_example =
    init-fails_at_root world build disk Spelling.separate (lit "node.json") {e = missing}
      (refl, (refl, (refl, (refl, (refl, (refl, (refl, (refl, (refl, tt))))))))) refl root_absent

node_read : files.read_file disk (lit "etc/node.json") ≡ ok (lit "{}")
unfolding lookup str_eq
node_read = refl

node_decoded : decode (lit "{}") ≡ ok config
unfolding str_eq sample_json
node_decoded = refl

dispatch-serves_example :
    (svc : Service) × (svc.cfg ≡ checked)
    × (dispatch world build disk (lit "run" ∷ spelled Spelling.separate (lit "etc/node.json") [])
        ≡ ends disk []
            (service_result (run_service system world.listen world.stop world.finish svc).error))
    × (dispatch world build disk (spelled Spelling.separate (lit "etc/node.json") [])
        ≡ ends disk []
            (service_result (run_service system world.listen world.stop world.finish svc).error))
dispatch-serves_example =
    dispatch-serves world plain_laws build disk Spelling.separate (lit "etc/node.json")
      {raw = config} {c = checked} config_settled node_read node_decoded config-valid
