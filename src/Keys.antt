-- ===== src/Keys.antt =====
-- internal/config/config.go, `decodeKey`: keys in any of four base64 encodings, and the copy of a
-- key's public half.
pub mod RoundTrip
use knode.Prelude.{
  ℕ, Bool, ◌||◌, Option, none, some, List, [], ◌∷◌, ◌==◌, if◌then◌else◌, drop, Error, Result, ok,
  err,
}
use knode.Text.{Str, str_eq, trim_space}
use knode.Base64.{
  Bytes, Encoding, raw_std_encoding, std_encoding, raw_url_encoding, url_encoding, decode_string,
}

-- The blanks that `strings.Map` drops.
unfoldable pub strip_blanks : Str → Str
strip_blanks [] = []
strip_blanks (c ∷ s) =
    if c == b' ' || c == 9 || c == 10 || c == 13 then strip_blanks s else c ∷ strip_blanks s

abbrev pub encodings : List Encoding
encodings = raw_std_encoding ∷ std_encoding ∷ raw_url_encoding ∷ url_encoding ∷ []

-- `base64.CorruptInputError`, without its offset.
abbrev pub corrupt_input : Error
corrupt_input = Error.text "illegal base64 data"

-- `if firstErr == nil { firstErr = err }`.
abbrev keep_first : Option Error → Option Error
keep_first none = some corrupt_input
keep_first (some first) = some first

-- The loop over the encodings; the error is that of the first one.
unfoldable pub try_encodings : List Encoding → Str → Option Error → Result Bytes
try_encodings [] text none = ok []
try_encodings [] text (some first) = err first
try_encodings (e ∷ es) text first = elim (decode_string e text) [
  | some out ↦ ok out
  | none ↦ try_encodings es text (keep_first first)
]

unfoldable pub decode_key : Str → Result Bytes
unfolding try_encodings strip_blanks
decode_key text = try_encodings encodings (strip_blanks (trim_space text)) none

-- `bytes.Equal`.
abbrev pub bytes_equal : Bytes → Bytes → Bool
bytes_equal = str_eq

-- `ed25519.PublicKeySize` and `ed25519.PrivateKeySize`.
abbrev pub public_key_size : ℕ
public_key_size = 32

abbrev pub private_key_size : ℕ
private_key_size = 64

-- `publicMatchesPrivate`: an ed25519 private key carries its public key in its second half.
unfoldable pub public_matches_private : Bytes → Bytes → Bool
public_matches_private public private = bytes_equal public (drop public_key_size private)
