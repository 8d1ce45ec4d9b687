-- ===== src/Base64.antt =====
-- The four encodings of Go's encoding/base64 that the program decodes keys with, in their lenient
-- mode: line breaks are skipped, and the unused bits of a last quantum are ignored. An error has
-- no offset here.
pub mod RoundTrip
use knode.Prelude.{
  ℕ, ◌+◌, ◌-◌, ◌*◌, ◌/◌, ◌%◌, Bool, true, false, ◌&&◌, ◌||◌, Option, none, some, List, [], ◌∷◌, ltb,
  leb, ◌==◌, if◌then◌else◌, is_empty,
}
use knode.Text.{Str}

abbrev pub Bytes : Type 0
Bytes = List ℕ

pub record Encoding : Type 0 where
  pub url : Bool
  pub padded : Bool

abbrev pub raw_std_encoding : Encoding
raw_std_encoding = record { url = false; padded = false }

abbrev pub std_encoding : Encoding
std_encoding = record { url = false; padded = true }

abbrev pub raw_url_encoding : Encoding
raw_url_encoding = record { url = true; padded = false }

abbrev pub url_encoding : Encoding
url_encoding = record { url = true; padded = true }

-- The character of a six-bit value in the URL alphabet.
unfoldable pub url_char : ℕ → ℕ
url_char v =
    if ltb v 26
    then b'A' + v
    else if ltb v 52
    then b'a' + (v - 26)
    else if ltb v 62
    then b'0' + (v - 52)
    else if v == 62
    then b'-'
    else b'_'

-- The value of a character, if the alphabet has it.
unfoldable pub char_value : Bool → ℕ → Option ℕ
char_value url c =
    if leb b'A' c && leb c b'Z'
    then some (c - b'A')
    else if leb b'a' c && leb c b'z'
    then some (c - b'a' + 26)
    else if leb b'0' c && leb c b'9'
    then some (c - b'0' + 52)
    else if c == (if url then b'-' else b'+')
    then some 62
    else if c == (if url then b'_' else b'/')
    then some 63
    else none

infixl 5 ◌>>=◌
abbrev ◌>>=◌ {ℓ κ} : {A : Type ℓ} {B : Type κ} → Option A → (A → Option B) → Option B
none >>= f = none
some a >>= f = f a

-- The bytes of a quantum of two, three or four values.
abbrev pub first_byte : ℕ → ℕ → ℕ
first_byte a b = a * 4 + b / 16

abbrev pub second_byte : ℕ → ℕ → ℕ
second_byte b c = b % 16 * 16 + c / 4

abbrev pub third_byte : ℕ → ℕ → ℕ
third_byte c d = c % 4 * 64 + d

unfoldable pub quantum_2 : Encoding → ℕ → ℕ → Option Bytes
quantum_2 e a b = do va ← char_value e.url a; vb ← char_value e.url b; some (first_byte va vb ∷ [])

unfoldable pub quantum_3 : Encoding → ℕ → ℕ → ℕ → Option Bytes
quantum_3 e a b c = do
  va ← char_value e.url a
  vb ← char_value e.url b
  vc ← char_value e.url c
  some (first_byte va vb ∷ second_byte vb vc ∷ [])

unfoldable pub quantum_4 : Encoding → ℕ → ℕ → ℕ → ℕ → Option Bytes → Option Bytes
quantum_4 e a b c d more = do
  va ← char_value e.url a
  vb ← char_value e.url b
  vc ← char_value e.url c
  vd ← char_value e.url d
  bytes ← more
  some (first_byte va vb ∷ second_byte vb vc ∷ third_byte vc vd ∷ bytes)

-- `DecodeString` on a text without line breaks: quanta of four characters, padded at the end if
-- the encoding pads, else cut short.
unfoldable pub decode_quanta : Encoding → Str → Option Bytes
unfolding quantum_2 quantum_3 quantum_4
decode_quanta e [] = some []
decode_quanta e (a ∷ []) = none
decode_quanta e (a ∷ b ∷ []) = if e.padded then none else quantum_2 e a b
decode_quanta e (a ∷ b ∷ c ∷ []) = if e.padded then none else quantum_3 e a b c
decode_quanta e (a ∷ b ∷ c ∷ d ∷ rest) =
    let more = quantum_4 e a b c d (decode_quanta e rest) in
    if e.padded && c == b'='
    then (if d == b'=' && is_empty rest then quantum_2 e a b else none)
    else if e.padded && d == b'='
    then (if is_empty rest then quantum_3 e a b c else none)
    else more

-- Line breaks are skipped.
unfoldable pub skip_breaks : Str → Str
skip_breaks [] = []
skip_breaks (c ∷ s) = if c == 10 || c == 13 then skip_breaks s else c ∷ skip_breaks s

unfoldable pub decode_string : Encoding → Str → Option Bytes
unfolding decode_quanta skip_breaks
decode_string e s = decode_quanta e (skip_breaks s)

-- `base64.RawURLEncoding.EncodeToString`.
unfoldable pub encode_to_string : Bytes → Str
encode_to_string [] = []
encode_to_string (a ∷ []) = url_char (a / 4) ∷ url_char (a % 4 * 16) ∷ []
encode_to_string (a ∷ b ∷ []) =
    url_char (a / 4) ∷ url_char (a % 4 * 16 + b / 16) ∷ url_char (b % 16 * 4) ∷ []
encode_to_string (a ∷ b ∷ c ∷ rest) =
    url_char (a / 4)
    ∷ url_char (a % 4 * 16 + b / 16)
    ∷ url_char (b % 16 * 4 + c / 64)
    ∷ url_char (c % 64)
    ∷ encode_to_string rest
