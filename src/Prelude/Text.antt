-- ===== src/Prelude/Text.antt =====
-- Text as the list of its code points, with the string methods that the program calls. `lower` and
-- `strip` act on ASCII letters and white space.
use Prim.Native.Nat.{ℕ, zero, suc, ◌+◌}
use Prim.Native.Char.{Char, code}
use Prim.Native.String.{String}
use mathlib.Core.Path.{◌≡◌, refl, ap₂}
use text.Mathlib.TextEquality.{Char-path}
use native.Mathlib.Omega.{arith}
use mathlib.Core.Bool.{Bool, true, false, ◌&&◌, ◌||◌}
use mathlib.Core.List.{List, [], ◌∷◌, ◌++◌, map, reverse}
use bmd_compute.Prelude.Lists.{length}
use bmd_compute.Prelude.Tests.{leb, ◌==◌, ==_iff, if◌then◌else◌}

abbrev pub codes : String → List ℕ
codes String.[] = []
codes (String.◌∷◌ c s) = code c ∷ codes s

unfoldable pub codes_eq : List ℕ → List ℕ → Bool
codes_eq [] [] = true
codes_eq (x ∷ xs) (y ∷ ys) = (x == y) && codes_eq xs ys
codes_eq _ _ = false

unfoldable pub is_space : ℕ → Bool
is_space c = (c == 32) || (leb 9 c && leb c 13) || (leb 28 c && leb c 31)

unfoldable pub lower_code : ℕ → ℕ
lower_code c = if leb 65 c && leb c 90 then c + 32 else c

unfoldable pub lstrip : List ℕ → List ℕ
unfolding is_space
lstrip [] = []
lstrip (c ∷ s) = let rest = lstrip s in if is_space c then rest else c ∷ s

unfoldable pub strip : List ℕ → List ℕ
unfolding lstrip
strip s = reverse (lstrip (reverse (lstrip s)))

unfoldable pub lower : List ℕ → List ℕ
unfolding lower_code
lower s = map lower_code s

-- `s.replace(a, b)` for a single character `a`.
unfoldable pub replace : ℕ → List ℕ → List ℕ → List ℕ
replace a b [] = []
replace a b (c ∷ s) = (if c == a then b else c ∷ []) ++ replace a b s

abbrev pub starts_with : List ℕ → List ℕ → Bool
starts_with [] text = true
starts_with (x ∷ prefix) [] = false
starts_with (x ∷ prefix) (c ∷ text) = (x == c) && starts_with prefix text

abbrev tail_length : List ℕ → ℕ
tail_length [] = 0
tail_length (_ ∷ text) = length text

-- `text.replace(old, new)`; the number is how many characters of an occurrence are still to be read.
unfoldable pub replace_text : List ℕ → List ℕ → ℕ → List ℕ → List ℕ
replace_text old new n [] = []
replace_text old new (suc n) (c ∷ text) = replace_text old new n text
replace_text old new zero (c ∷ text) =
    let found = new ++ replace_text old new (tail_length old) text in
    let other = c ∷ replace_text old new zero text in
    if starts_with old (c ∷ text) then found else other

pub codes_eq-eq : (x y : List ℕ) → codes_eq x y ≡ true → x ≡ y
unfolding codes_eq
codes_eq-eq [] [] same = refl
codes_eq-eq [] (c ∷ y) same = cc
codes_eq-eq (c ∷ x) [] same = cc
codes_eq-eq (c ∷ x) (d ∷ y) same = ground (arith, same, codes_eq-eq x y)

pub codes_eq-same : (x : List ℕ) → codes_eq x x ≡ true
unfolding codes_eq
codes_eq-same [] = refl
codes_eq-same (c ∷ x) = ground (arith, codes_eq-same x)

-- Texts with the same code points are equal.
pub codes_eq-codes : (s t : String) → codes_eq (codes s) (codes t) ≡ true → s ≡ t
unfolding codes_eq
codes_eq-codes String.[] String.[] same = refl
codes_eq-codes String.[] (String.◌∷◌ d t) same = cc
codes_eq-codes (String.◌∷◌ c s) String.[] same = cc
codes_eq-codes (String.◌∷◌ c s) (String.◌∷◌ d t) same =
    let first : (code c == code d) ≡ true = ground (arith, same) in
    let rest : codes_eq (codes s) (codes t) ≡ true = ground (arith, same) in
    ap₂ {A = Char} {B = String} String.◌∷◌ (Char-path c d ((==_iff (code c) (code d)).0 first))
      (codes_eq-codes s t rest)
