-- ===== src/Dialer/Headers.antt =====
-- internal/node/dialer.go: `headerFromMap`, with the canonical keys of the Go library.
use knode.Prelude.{ℕ, ◌+◌, ◌-◌, Bool, true, false, ◌&&◌, ◌||◌, [], ◌∷◌, leb, ◌==◌, if◌then◌else◌}
use knode.Text.{Str, lit}
use knode.Dict.{Dict, insert}

unfoldable pub is_mark : ℕ → Str → Bool
is_mark c [] = false
is_mark c (d ∷ marks) = c == d || is_mark c marks

-- A character of a header key in RFC 7230.
unfoldable pub is_token : ℕ → Bool
is_token c =
    (leb b'a' c && leb c b'z')
    || (leb b'A' c && leb c b'Z')
    || (leb b'0' c && leb c b'9')
    || is_mark c (lit "!#$%&'*+-.^_`|~")

unfoldable pub is_key : Str → Bool
is_key [] = true
is_key (c ∷ s) = is_token c && is_key s

unfoldable pub letter_case : Bool → ℕ → ℕ
letter_case true c = if leb b'a' c && leb c b'z' then c - 32 else c
letter_case false c = if leb b'A' c && leb c b'Z' then c + 32 else c

-- The letters of a key; `upper` at its start and behind a dash.
unfoldable pub canonical_case : Bool → Str → Str
canonical_case upper [] = []
canonical_case upper (c ∷ s) = letter_case upper c ∷ canonical_case (c == b'-') s

-- `textproto.CanonicalMIMEHeaderKey`.
unfoldable pub canonical_key : Str → Str
canonical_key key = if is_key key then canonical_case true key else key

-- The loop of `headerFromMap`, in one of the orders that Go may choose.
unfoldable pub set_headers : Dict Str → Dict Str → Dict Str
set_headers headers [] = headers
set_headers headers ((key, value) ∷ values) =
    set_headers (insert (canonical_key key) value headers) values

unfoldable pub header_from_map : Dict Str → Dict Str
header_from_map values = set_headers [] values
