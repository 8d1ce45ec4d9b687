-- ===== src/CommandLine/Printing.antt =====
-- cmd/knode/main.go: the texts that the commands print.
use knode.Prelude.{[], ◌∷◌, ◌++◌}
use knode.Text.{Str, lit, lines}
use knode.CommandLine.{Output}

-- `printUsage`.
unfoldable pub usage_text : Str
usage_text = lines (
    "Knode node backend" ∷ "" ∷ "Usage:" ∷ "  knode" ∷ "  knode menu"
    ∷ "  knode run -config knode.json" ∷ "  knode check -config knode.json"
    ∷ "  knode check-upstreams -config knode.json" ∷ "  knode init -config knode.json"
    ∷ "  knode gen-keys" ∷ "  knode version" ∷ [])

-- `name=value`, on a line of its own.
unfoldable pub key_line : Str → Str → Str
key_line name value = name ++ (lit "=" ++ (value ++ lit "\n"))

unfoldable pub text_of_output : Output → Str
text_of_output (Output.version_line b) =
    lit "knode "
    ++ (b.version ++ (lit " commit=" ++ (b.commit ++ (lit " date=" ++ (b.date ++ lit "\n")))))
text_of_output Output.config_ok = lit "config: ok\n"
text_of_output (Output.created path) = lit "created " ++ (path ++ lit "\n")
text_of_output (Output.keys public private secret) =
    key_line (lit "server_signing_public") public
    ++ (key_line (lit "server_signing_private") private ++ key_line (lit "client_secret") secret)
text_of_output Output.usage = usage_text
