-- ===== src/Prelude/Split.antt =====
-- `text.split(separator)` for a single character.
use Prim.Native.Nat.{ℕ}
use mathlib.Core.Path.{◌≡◌, refl, ap, sym}
use mathlib.Core.Bool.{Bool, true, not}
use mathlib.Core.List.{List, [], ◌∷◌, ◌++◌, append-nil, append_assoc}
use mathlib.Core.Logic.{inl, inr}
use native.Mathlib.Omega.{arith}
use bmd_compute.Prelude.Lists.{all, All}
use bmd_compute.Prelude.Tests.{◌==◌, if◌then◌else◌, Bool-cases}

pub all-append :
    (p : ℕ → Bool) (x y : List ℕ) → all p x ≡ true → all p y ≡ true → all p (x ++ y) ≡ true
all-append p [] y left right = right
all-append p (c ∷ x) y left right = ground (arith, left, right, all-append p x y)

-- The first part is the one that is being read.
unfoldable pub split_on : ℕ → List ℕ → List ℕ → List (List ℕ)
split_on separator part [] = part ∷ []
split_on separator part (c ∷ text) =
    let ended = part ∷ split_on separator [] text in
    let read = split_on separator (part ++ (c ∷ [])) text in if c == separator then ended else read

-- The text has no such character.
abbrev pub free : ℕ → List ℕ → Bool
free separator text = all (λ c. not (c == separator)) text

-- A part that ends with a separator.
pub split_on-part :
    (separator : ℕ) (part x rest : List ℕ)
    → free separator x ≡ true
    → split_on separator part (x ++ (separator ∷ rest)) ≡ (part ++ x) ∷ split_on separator [] rest
unfolding split_on
split_on-part separator part [] rest plain = ground (arith, append-nil part)
split_on-part separator part (c ∷ x) rest plain =
    ground (
      arith,
      plain,
      split_on-part separator (part ++ (c ∷ [])) x rest,
      append_assoc part (c ∷ []) x,
    )

pub split_on-last :
    (separator : ℕ) (part x : List ℕ)
    → free separator x ≡ true
    → split_on separator part x ≡ (part ++ x) ∷ []
unfolding split_on
split_on-last separator part [] plain = ap (λ l. l ∷ []) (sym (append-nil part))
split_on-last separator part (c ∷ x) plain =
    ground
      (arith, plain, split_on-last separator (part ++ (c ∷ [])) x, append_assoc part (c ∷ []) x)

-- No part has a separator.
pub split_on-free :
    (separator : ℕ) (part x : List ℕ)
    → free separator part ≡ true
    → All (λ p. free separator p ≡ true) (split_on separator part x)
unfolding split_on
split_on-free separator part [] plain = (plain, tt)
split_on-free separator part (c ∷ x) plain = elim (Bool-cases (c == separator)) [
  | inl ends ↦ rw ends (plain, split_on-free separator [] x refl)
  | inr goes_on ↦ rw goes_on (
      split_on-free separator (part ++ (c ∷ [])) x
        (all-append (λ d. not (d == separator)) part (c ∷ []) plain (ground (arith, goes_on))))
]
