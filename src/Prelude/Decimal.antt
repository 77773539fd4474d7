-- ===== src/Prelude/Decimal.antt =====
-- Natural numbers as decimal text: `f"{n:0wd}"`, and `int(text)` on digits.
use Prim.Native.Nat.{ℕ, zero, suc, ◌+◌, ◌-◌, ◌*◌, ◌/◌, ◌%◌, ◌≤◌, ◌<◌}
use mathlib.Core.Path.{◌≡◌, refl, ap, ◌∙◌}
use mathlib.Core.Bool.{Bool, true, ◌&&◌}
use mathlib.Core.List.{List, [], ◌∷◌}
use mathlib.Core.Logic.{inl, inr}
use native.Mathlib.Omega.{arith}
use bmd_compute.Prelude.Tests.{ltb, leb, if◌then◌else◌, Bool-cases}
use bmd_compute.Prelude.Lists.{length, all}

abbrev pub is_digit : ℕ → Bool
is_digit c = leb 48 c && leb c 57

-- The digits of a number before a text; the number itself is fuel enough.
unfoldable pub digits_before : ℕ → ℕ → List ℕ → List ℕ
digits_before zero n text = text
digits_before (suc fuel) n text =
    let rest = digits_before fuel (n / 10) ((48 + n % 10) ∷ text) in
    if ltb n 10 then (48 + n) ∷ text else rest

unfoldable pub decimal : ℕ → List ℕ
unfolding digits_before
decimal n = digits_before (suc n) n []

abbrev zeros : ℕ → List ℕ → List ℕ
zeros zero text = text
zeros (suc n) text = 48 ∷ zeros n text

-- `f"{n:0{width}d}"`
unfoldable pub padded : ℕ → ℕ → List ℕ
unfolding decimal
padded width n = zeros (width - length (decimal n)) (decimal n)

abbrev number_after : ℕ → List ℕ → ℕ
number_after n [] = n
number_after n (c ∷ text) = number_after (n * 10 + (c - 48)) text

-- `int(text)`, where the text is digits.
unfoldable pub number : List ℕ → ℕ
number text = number_after 0 text

number-digits_before :
    (fuel n : ℕ) (text : List ℕ)
    → n < fuel
    → number_after 0 (digits_before fuel n text) ≡ number_after n text
unfolding digits_before
number-digits_before zero n text enough = elim enough [ ]
number-digits_before (suc fuel) n text enough = elim (Bool-cases (ltb n 10)) [
  | inl small ↦ rw small (ap (λ m. number_after m text) (omega arith))
  | inr large ↦ rw large (
      number-digits_before fuel (n / 10) ((48 + n % 10) ∷ text) (ground arith)
      ∙ ap (λ m. number_after m text) (omega arith))
]

number-zeros : (k : ℕ) (text : List ℕ) → number_after 0 (zeros k text) ≡ number_after 0 text
number-zeros zero text = refl
number-zeros (suc k) text = number-zeros k text

-- The padded text of a number reads as the number.
pub number-padded : (width n : ℕ) → number (padded width n) ≡ n
unfolding number padded
number-padded width n =
    number-zeros (width - length (decimal n)) (decimal n)
    ∙ number-digits_before (suc n) n [] (omega arith)

digits_before-digits :
    (fuel n : ℕ) (text : List ℕ)
    → all is_digit text ≡ true
    → all is_digit (digits_before fuel n text) ≡ true
unfolding digits_before
digits_before-digits zero n text digits = digits
digits_before-digits (suc fuel) n text digits =
    ground (arith, digits_before-digits fuel (n / 10) ((48 + n % 10) ∷ text))

zeros-digits :
    (k : ℕ) (text : List ℕ) → all is_digit text ≡ true → all is_digit (zeros k text) ≡ true
zeros-digits zero text digits = digits
zeros-digits (suc k) text digits = zeros-digits k text digits

pub padded-digits : (width n : ℕ) → all is_digit (padded width n) ≡ true
unfolding padded
padded-digits width n =
    zeros-digits (width - length (decimal n)) (decimal n) (digits_before-digits (suc n) n [] refl)

length-zeros : (k : ℕ) (text : List ℕ) → length (zeros k text) ≡ k + length text
length-zeros zero text = omega arith
length-zeros (suc k) text = omega (arith, length-zeros k text)

pub padded-length : (width n : ℕ) → width ≤ length (padded width n)
unfolding padded
padded-length width n = omega (arith, length-zeros (width - length (decimal n)) (decimal n))
