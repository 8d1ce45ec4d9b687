-- ===== src/Decimal.antt =====
-- `fmt.Sprintf("%d", n)`: decimal digits.
use knode.Prelude.{
  ℕ, zero, suc, ◌+◌, ◌-◌, ◌*◌, ◌/◌, ◌%◌, ◌<◌, ◌≡◌, refl, [], ◌∷◌, ◌++◌, arith, ltb, leb, ◌&&◌,
  Bool-cases, inl, inr, true, All, All-append, if◌then◌else◌, ℤ, pos, negsuc,
}
use knode.Text.{Str, lit}

-- The digits of `n`; `n + 1` rounds are enough.
digits : ℕ → ℕ → Str
digits zero n = []
digits (suc f) n =
    let rest = digits f (n / 10) ++ (b'0' + n % 10) ∷ [] in
    if ltb n 10 then (b'0' + n) ∷ [] else rest

unfoldable pub decimal : ℕ → Str
unfolding digits
decimal n = digits (suc n) n

unfoldable pub decimal_ℤ : ℤ → Str
unfolding decimal
decimal_ℤ (pos n) = decimal n
decimal_ℤ (negsuc n) = b'-' ∷ decimal (suc n)

-- The value that digits stand for.
abbrev pub value_from : ℕ → Str → ℕ
value_from acc [] = acc
value_from acc (c ∷ s) = value_from (acc * 10 + (c - b'0')) s

value-append :
    (acc : ℕ) (s : Str) (c : ℕ) → value_from acc (s ++ c ∷ []) ≡ value_from acc s * 10 + (c - b'0')
value-append acc [] c = refl
value-append acc (d ∷ s) c = value-append (acc * 10 + (d - b'0')) s c

value-digits : (f n : ℕ) → n < f → value_from 0 (digits f n) ≡ n
unfolding digits
value-digits zero n h = elim h [ ]
value-digits (suc f) n h =
    ground (arith, value-digits f (n / 10), value-append 0 (digits f (n / 10)) (b'0' + n % 10))

-- A number can be read back from its digits, so different numbers are printed differently.
pub value-decimal : (n : ℕ) → value_from 0 (decimal n) ≡ n
unfolding decimal
value-decimal n = value-digits (suc n) n (omega arith)

digits-IsDigits : (f n : ℕ) → All (λ c. (leb b'0' c && leb c b'9') ≡ true) (digits f n)
unfolding digits
digits-IsDigits zero n = tt
digits-IsDigits (suc f) n = elim (Bool-cases (ltb n 10)) [
  | inl small ↦ rw small (ground arith, tt)
  | inr large ↦ rw large (
      All-append (λ c. (leb b'0' c && leb c b'9') ≡ true) (digits f (n / 10)) ((b'0' + n % 10) ∷ [])
        (digits-IsDigits f (n / 10)) (ground arith, tt))
]

-- A printed number has only digits.
pub decimal-IsDigits : (n : ℕ) → All (λ c. (leb b'0' c && leb c b'9') ≡ true) (decimal n)
unfolding decimal
decimal-IsDigits n = digits-IsDigits (suc n) n

decimal_tests : (decimal 0 ≡ lit "0") × (decimal 65535 ≡ lit "65535")
unfolding decimal
decimal_tests = (refl, refl)
