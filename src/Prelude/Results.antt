-- ===== src/Prelude/Results.antt =====
-- Go's `(T, error)` results, and the errors of the program.
use Prim.Native.Nat.{ℕ}
use Prim.Native.String.{String}
use mathlib.Core.Path.{◌≡◌, refl}
use mathlib.Core.Logic.{◌⊎◌, inl, inr}
use mathlib.Core.Bool.{Bool, true, false}
use mathlib.Core.List.{List}

-- `text` is `errors.New`; `wrap` and `wrap_at` are `fmt.Errorf` with `%w`, the second with an
-- index or a name in the prefix; `about` has a value of the input in the message; `ext` is an
-- error value that a library or the operating system returned.
pub data Error : Type 0 where
  text : String → Error
  about : String → List ℕ → Error
  wrap : String → Error → Error
  wrap_at : String → ℕ → Error → Error
  wrap_name : String → List ℕ → Error → Error
  ext : ℕ → Error

pub data Result {ℓ} (T : Type ℓ) : Type ℓ where
  err : Error → Result T
  ok : T → Result T

-- The same for a check, which has no value.
infixl 5 ◌>>◌
abbrev pub ◌>>◌ {ℓ} : {T : Type ℓ} → Result (Unit {0}) → Result T → Result T
err e >> next = err e
ok done >> next = next

-- `if err != nil { return err }`, and the next statement for the value.
infixl 5 ◌>>=◌
abbrev pub ◌>>=◌ {κ ℓ} : {S : Type κ} {T : Type ℓ} → Result S → (S → Result T) → Result T
err e >>= next = err e
ok value >>= next = next value

-- `if cond { return err }`.
abbrev pub refuse_if : Bool → Error → Result (Unit {0})
refuse_if true e = err e
refuse_if false e = ok tt

-- `if err != nil { return fmt.Errorf(…, err) }`.
abbrev pub map_err {ℓ} : {A : Type ℓ} → (Error → Error) → Result A → Result A
map_err f (ok a) = ok a
map_err f (err e) = err (f e)

-- The value is dropped, the error kept: `if _, err := …`.
abbrev pub drop_value {ℓ} : {A : Type ℓ} → Result A → Result (Unit {0})
drop_value (ok a) = ok tt
drop_value (err e) = err e

abbrev pub is_ok {ℓ} : {A : Type ℓ} → Result A → Bool
is_ok (ok a) = true
is_ok (err e) = false

-- Both steps of a successful pair of steps succeeded.
pub >>=-eq-ok {κ ℓ} :
    {S : Type κ} {T : Type ℓ} (first : Result S) (next : S → Result T) {out : T}
    → (first >>= next) ≡ ok out
    → (value : S) × (first ≡ ok value) × (next value ≡ ok out)
>>=-eq-ok (err e) next h = cc
>>=-eq-ok (ok value) next h = (value, refl, h)

-- The value, or another one for an error.
abbrev pub ok_or {ℓ} : {A : Type ℓ} → Result A → A → A
ok_or (ok a) d = a
ok_or (err e) d = d

pub is_ok-eq {ℓ} : {A : Type ℓ} (r : Result A) (d : A) → is_ok r ≡ true → r ≡ ok (ok_or r d)
is_ok-eq (ok a) d h = refl
is_ok-eq (err e) d h = cc

-- To split on a result and keep the equation.
pub Result-cases {ℓ} :
    {T : Type ℓ} (r : Result T) → ((e : Error) × (r ≡ err e)) ⊎ ((value : T) × (r ≡ ok value))
Result-cases (err e) = inl (e, refl)
Result-cases (ok value) = inr (value, refl)
