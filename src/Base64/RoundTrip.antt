-- ===== src/Base64/RoundTrip.antt =====
-- Encoding in the URL alphabet and decoding: the raw URL encoding gives the bytes back, and the
-- other three give either the same bytes or an error.
use knode.Prelude.{
  ◌+◌, ◌*◌, ◌/◌, ◌%◌, none, some, [], ◌∷◌, refl, ℕ, ◌<◌, ◌≡◌, ◌≢◌, ◌⊎◌, inr, Bool, true, false,
  Option, arith, All,
}
use knode.Text.{is_space}
use knode.Base64.{
  Str, ◌∷◌, raw_url_encoding, Encoding, decode_string, skip_breaks, encode_to_string, decode_quanta,
  quantum_2, quantum_3, quantum_4, Bytes, url_char, char_value,
}

abbrev pub IsBytes : Bytes → Type 0
IsBytes = All (λ b. b < 256)

-- A result that is an error or the given bytes.
abbrev pub IsNoneOr : Option Bytes → Bytes → Type 0
IsNoneOr r bytes = (r ≡ none) ⊎ (r ≡ some bytes)

char_value-url_char : (v : ℕ) → v < 64 → char_value true (url_char v) ≡ some v
unfolding char_value url_char
char_value-url_char v h = ground arith

char_value-url_char_std :
    (v : ℕ)
    → v < 64
    → (char_value false (url_char v) ≡ none) ⊎ (char_value false (url_char v) ≡ some v)
unfolding char_value url_char
char_value-url_char_std v h = ground arith

char_value-url_char_any :
    (url : Bool) (v : ℕ)
    → v < 64
    → (char_value url (url_char v) ≡ none) ⊎ (char_value url (url_char v) ≡ some v)
char_value-url_char_any true v h = inr (char_value-url_char v h)
char_value-url_char_any false v h = char_value-url_char_std v h

-- An encoded character is no space, no line break and no padding.
url_char_bounds :
    (v : ℕ)
    → v < 64
    → (is_space (url_char v) ≡ false) × (url_char v ≢ 61) × (url_char v ≢ 10) × (url_char v ≢ 13)
unfolding url_char is_space
url_char_bounds v h = ground arith

quantum_4-encode :
    (e : Encoding) (a b c : ℕ) (more : Option Bytes) (rest : Bytes)
    → a < 256
    → b < 256
    → c < 256
    → IsNoneOr more rest
    → IsNoneOr
        (quantum_4 e
          (url_char (a / 4))
          (url_char (a % 4 * 16 + b / 16))
          (url_char (b % 16 * 4 + c / 64))
          (url_char (c % 64))
          more)
        (a ∷ b ∷ c ∷ rest)
unfolding quantum_4
quantum_4-encode e a b c more rest ha hb hc h = ground (
  arith,
  char_value-url_char_any e.url (a / 4),
  char_value-url_char_any e.url (a % 4 * 16 + b / 16),
  char_value-url_char_any e.url (b % 16 * 4 + c / 64),
  char_value-url_char_any e.url (c % 64),
)

quantum_3-encode :
    (e : Encoding) (a b : ℕ)
    → a < 256
    → b < 256
    → IsNoneOr
        (quantum_3 e (url_char (a / 4)) (url_char (a % 4 * 16 + b / 16)) (url_char (b % 16 * 4)))
        (a ∷ b ∷ [])
unfolding quantum_3
quantum_3-encode e a b ha hb = ground (
  arith,
  char_value-url_char_any e.url (a / 4),
  char_value-url_char_any e.url (a % 4 * 16 + b / 16),
  char_value-url_char_any e.url (b % 16 * 4),
)

quantum_2-encode :
    (e : Encoding) (a : ℕ)
    → a < 256
    → IsNoneOr (quantum_2 e (url_char (a / 4)) (url_char (a % 4 * 16))) (a ∷ [])
unfolding quantum_2
quantum_2-encode e a ha =
    ground
      (arith, char_value-url_char_any e.url (a / 4), char_value-url_char_any e.url (a % 4 * 16))

decode_quanta-encode_any :
    (e : Encoding) (bytes : Bytes)
    → IsBytes bytes
    → IsNoneOr (decode_quanta e (encode_to_string bytes)) bytes
unfolding decode_quanta encode_to_string
decode_quanta-encode_any e [] h = inr refl
decode_quanta-encode_any e (a ∷ []) (ha, _) = ground (arith, quantum_2-encode e a ha)
decode_quanta-encode_any e (a ∷ b ∷ []) (ha, (hb, _)) = ground (arith, quantum_3-encode e a b ha hb)
decode_quanta-encode_any e (a ∷ b ∷ c ∷ rest) h =
    let more = decode_quanta e (encode_to_string rest) in
    let ih : IsNoneOr more rest = decode_quanta-encode_any e rest h.1.1.1 in
    ground (
      arith,
      quantum_4-encode e a b c more rest h.0 h.1.0 h.1.1.0 ih,
      url_char_bounds (b % 16 * 4 + c / 64) (omega arith),
      url_char_bounds (c % 64) (omega arith),
    )

decode_quanta-encode_raw :
    (bytes : Bytes)
    → IsBytes bytes
    → decode_quanta raw_url_encoding (encode_to_string bytes) ≡ some bytes
unfolding decode_quanta encode_to_string quantum_2 quantum_3 quantum_4
decode_quanta-encode_raw [] h = refl
decode_quanta-encode_raw (a ∷ []) (ha, _) =
    ground (arith, char_value-url_char (a / 4), char_value-url_char (a % 4 * 16))
decode_quanta-encode_raw (a ∷ b ∷ []) (ha, (hb, _)) = ground (
  arith,
  char_value-url_char (a / 4),
  char_value-url_char (a % 4 * 16 + b / 16),
  char_value-url_char (b % 16 * 4),
)
decode_quanta-encode_raw (a ∷ b ∷ c ∷ rest) h = ground (
  arith,
  decode_quanta-encode_raw rest h.1.1.1,
  char_value-url_char (a / 4),
  char_value-url_char (a % 4 * 16 + b / 16),
  char_value-url_char (b % 16 * 4 + c / 64),
  char_value-url_char (c % 64),
)

-- Every character of an encoded text is outside a class that no encoded character is in.
module _ (P : ℕ → Type 0) (chars : (v : ℕ) → v < 64 → P (url_char v)) where
  pub All-encode_to_string : (bytes : Bytes) → IsBytes bytes → All P (encode_to_string bytes)
  unfolding encode_to_string
  All-encode_to_string [] h = tt
  All-encode_to_string (a ∷ []) (ha, _) =
      (chars (a / 4) (omega arith), (chars (a % 4 * 16) (omega arith), tt))
  All-encode_to_string (a ∷ b ∷ []) (ha, (hb, _)) = (
    chars (a / 4) (omega arith),
    (chars (a % 4 * 16 + b / 16) (omega arith), (chars (b % 16 * 4) (omega arith), tt)),
  )
  All-encode_to_string (a ∷ b ∷ c ∷ rest) (ha, (hb, (hc, h))) = (
    chars (a / 4) (omega arith),
    (
      chars (a % 4 * 16 + b / 16) (omega arith),
      (
        chars (b % 16 * 4 + c / 64) (omega arith),
        (chars (c % 64) (omega arith), All-encode_to_string rest h),
      ),
    ),
  )

pub encode_to_string-IsSolid :
    (bytes : Bytes) → IsBytes bytes → All (λ c. is_space c ≡ false) (encode_to_string bytes)
encode_to_string-IsSolid =
    All-encode_to_string (λ c. is_space c ≡ false) (λ v h. (url_char_bounds v h).0)

skip_breaks_of_All : (s : Str) → All (λ c. is_space c ≡ false) s → skip_breaks s ≡ s
unfolding skip_breaks is_space
skip_breaks_of_All [] h = refl
skip_breaks_of_All (c ∷ s) (p, h) = ground (arith, skip_breaks_of_All s h)

skip_breaks-encode :
    (bytes : Bytes) → IsBytes bytes → skip_breaks (encode_to_string bytes) ≡ encode_to_string bytes
skip_breaks-encode bytes h =
    skip_breaks_of_All (encode_to_string bytes) (encode_to_string-IsSolid bytes h)

-- In every encoding, decoding an encoded key gives it back or fails.
pub decode_string-encode_any :
    (e : Encoding) (bytes : Bytes)
    → IsBytes bytes
    → IsNoneOr (decode_string e (encode_to_string bytes)) bytes
unfolding decode_string
decode_string-encode_any e bytes h =
    rw (skip_breaks-encode bytes h) (decode_quanta-encode_any e bytes h)

-- Bytes in the raw URL encoding are decoded to the same bytes by it.
pub decode_string-encode :
    (bytes : Bytes)
    → IsBytes bytes
    → decode_string raw_url_encoding (encode_to_string bytes) ≡ some bytes
unfolding decode_string
decode_string-encode bytes h = rw (skip_breaks-encode bytes h) (decode_quanta-encode_raw bytes h)
