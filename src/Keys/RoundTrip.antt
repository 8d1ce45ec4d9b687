-- ===== src/Keys/RoundTrip.antt =====
-- internal/config/config.go, `decodeKey`: a key that was printed by `encodeClientSecret` is read
-- back, although the standard alphabet is tried first.
use knode.Prelude.{◌≡◌, refl, false, [], ◌∷◌, All, arith, ok, ap, ◌∙◌}
use knode.Text.{Str, is_space, trim_left, trim_right, trim_space}
use knode.Base64.{Bytes, raw_std_encoding, std_encoding, encode_to_string}
use knode.Base64.RoundTrip.{
  IsBytes, decode_string-encode_any, decode_string-encode, encode_to_string-IsSolid,
}
use knode.Keys.{strip_blanks, try_encodings, decode_key}

abbrev IsSolid : Str → Type 0
IsSolid = All (λ c. is_space c ≡ false)

trim_left_of_IsSolid : (s : Str) → IsSolid s → trim_left is_space s ≡ s
unfolding trim_left
trim_left_of_IsSolid [] h = refl
trim_left_of_IsSolid (c ∷ s) (p, h) = ground arith

trim_right_of_IsSolid : (s : Str) → IsSolid s → trim_right is_space s ≡ s
unfolding trim_right
trim_right_of_IsSolid [] h = refl
trim_right_of_IsSolid (c ∷ s) (p, h) = ground (arith, trim_right_of_IsSolid s h)

strip_blanks_of_IsSolid : (s : Str) → IsSolid s → strip_blanks s ≡ s
unfolding strip_blanks is_space
strip_blanks_of_IsSolid [] h = refl
strip_blanks_of_IsSolid (c ∷ s) (p, h) = ground (arith, strip_blanks_of_IsSolid s h)

-- If what is left of a text without the white space around it and the blanks inside it is the raw
-- URL encoding of some bytes, then the key that it encodes is these bytes.
pub decode_key-encode :
    (text : Str) (bytes : Bytes)
    → IsBytes bytes
    → strip_blanks (trim_space text) ≡ encode_to_string bytes
    → decode_key text ≡ ok bytes
unfolding decode_key try_encodings
decode_key-encode text bytes h e = ground (
  arith,
  decode_string-encode_any raw_std_encoding bytes h,
  decode_string-encode_any std_encoding bytes h,
  decode_string-encode bytes h,
)

-- The text of `encodeClientSecret` has no blanks.
pub strip_blanks-encode :
    (bytes : Bytes)
    → IsBytes bytes
    → strip_blanks (trim_space (encode_to_string bytes)) ≡ encode_to_string bytes
unfolding trim_space
strip_blanks-encode bytes h =
    let s = encode_to_string bytes in
    let solid = encode_to_string-IsSolid bytes h in
    ap (λ t. strip_blanks (trim_right is_space t)) (trim_left_of_IsSolid s solid)
    ∙ (ap strip_blanks (trim_right_of_IsSolid s solid) ∙ strip_blanks_of_IsSolid s solid)
