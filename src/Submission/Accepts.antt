-- ===== src/Submission/Accepts.antt =====
-- The checks of the fields of a batch script refuse no plain field.
use bmd_compute.Prelude.{
  ℕ, zero, suc, Bool, true, false, ◌||◌, Option, none, some, List, [], ◌∷◌, ◌++◌, ok, ◌≡◌, ◌≤◌, ◌⊎◌,
  refl, sym, ap, subst, arith, all, any, length, length-append, append-nil, inl, inr,
}
use bmd_compute.Prelude.Text.{codes, codes_eq, codes_eq-same}
use bmd_compute.Submission.{
  is_identifier, is_filename, is_module, is_walltime, is_comment, is_empty, is_slash, digits_then,
  colon_then, minutes_seconds, require_pattern, require_relative_filename, check_comment,
}
use bmd_compute.Submission.PlainFields.{
  is_decimal, is_name_code, Name, FileName, ModuleName, Clock, AttemptComment,
}

pub require_pattern-ok :
    (name : List ℕ) (pattern : List ℕ → Bool) (text : List ℕ)
    → pattern text ≡ true
    → length text ≤ 256
    → require_pattern name pattern text ≡ ok tt
unfolding require_pattern
require_pattern-ok name pattern text h short = ground (arith, h, short)

pub Name-is_identifier : (n : ℕ) (text : List ℕ) → Name n text → is_identifier n text ≡ true
Name-is_identifier n [] name = absurd (ground (arith, name.0))
Name-is_identifier n (c ∷ text) (first, codes, bound) = ground (arith, first, codes, bound)

FileName-is_filename : (text : List ℕ) → FileName text → is_filename text ≡ true
FileName-is_filename [] name = absurd (ground (arith, name.0))
FileName-is_filename (c ∷ text) (first, codes, bound) = ground (arith, first, codes, bound)

pub ModuleName-is_module : (text : List ℕ) → ModuleName text → is_module text ≡ true
ModuleName-is_module [] name = absurd (ground (arith, name.0))
ModuleName-is_module (c ∷ text) (first, codes, bound) = ground (arith, first, codes, bound)

digits_then-append :
    (n : ℕ) (rest : List ℕ → Bool) (digits after : List ℕ)
    → length digits ≡ n
    → all is_decimal digits ≡ true
    → rest after ≡ true
    → digits_then n rest (digits ++ after) ≡ true
digits_then-append zero rest [] after counted are_digits goes_on = goes_on
digits_then-append zero rest (d ∷ digits) after counted are_digits goes_on =
    absurd (omega (arith, counted))
digits_then-append (suc n) rest [] after counted are_digits goes_on =
    absurd (omega (arith, counted))
digits_then-append (suc n) rest (d ∷ digits) after counted are_digits goes_on = ground (
  arith,
  are_digits,
  digits_then-append n rest digits after (omega (arith, counted)) (ground (arith, are_digits))
      goes_on,
)

minutes_seconds-clock :
    (minutes seconds : List ℕ)
    → length minutes ≡ 2
    → all is_decimal minutes ≡ true
    → length seconds ≡ 2
    → all is_decimal seconds ≡ true
    → minutes_seconds (58 ∷ (minutes ++ (58 ∷ seconds))) ≡ true
minutes_seconds-clock minutes seconds two digits two' digits' =
    let last : digits_then 2 is_empty seconds ≡ true =
      subst (λ l. digits_then 2 is_empty l ≡ true) (append-nil seconds)
        (digits_then-append 2 is_empty seconds [] two' digits' refl) in
    digits_then-append 2 (colon_then (digits_then 2 is_empty)) minutes (58 ∷ seconds) two digits
      last

Clock-of_length :
    (n : ℕ) (text : List ℕ) (clock : Clock text)
    → length clock.hours ≡ n
    → digits_then n minutes_seconds text ≡ true
Clock-of_length n text clock counted =
    subst (λ l. digits_then n minutes_seconds l ≡ true) (sym clock.reads)
      (digits_then-append n minutes_seconds clock.hours
        (58 ∷ (clock.minutes ++ (58 ∷ clock.seconds))) counted clock.hours_digits
        (minutes_seconds-clock clock.minutes clock.seconds clock.minutes_length clock.minutes_digits
          clock.seconds_length clock.seconds_digits))

or-parts : (a b c : Bool) → (a ≡ true) ⊎ ((b ≡ true) ⊎ (c ≡ true)) → a || b || c ≡ true
or-parts a b c h = ground (arith, h)

pub Clock-is_walltime : (text : List ℕ) → Clock text → is_walltime text ≡ true
Clock-is_walltime text clock =
    let counted : (length clock.hours ≡ 1) ⊎ ((length clock.hours ≡ 2) ⊎ (length clock.hours ≡ 3)) =
      ground (arith, clock.hours_length) in
    or-parts (digits_then 1 minutes_seconds text) (digits_then 2 minutes_seconds text)
      (digits_then 3 minutes_seconds text)
      (elim counted [
        | inl one ↦ inl (Clock-of_length 1 text clock one)
        | inr (inl two) ↦ inr (inl (Clock-of_length 2 text clock two))
        | inr (inr three) ↦ inr (inr (Clock-of_length 3 text clock three))
      ])

pub Clock-short : (text : List ℕ) → Clock text → length text ≤ 256
Clock-short text clock =
    let e1 = length-append {0} clock.hours (58 ∷ (clock.minutes ++ (58 ∷ clock.seconds))) in
    let e2 = length-append {0} clock.minutes (58 ∷ clock.seconds) in
    let e3 = ap length clock.reads in
    omega (arith, e1, e2, e3, clock.hours_length.1, clock.minutes_length, clock.seconds_length)

pub AttemptComment-ok : (o : Option (List ℕ)) → AttemptComment o → check_comment o ≡ ok tt
AttemptComment-ok none comment = refl
AttemptComment-ok (some text) (id, reads, letters, counted) =
    let matches : is_comment text ≡ true =
      subst (λ l. is_comment l ≡ true) (sym reads)
        (ground (arith, codes_eq-same (codes "bmd_attempt:"), letters, counted)) in
    require_pattern-ok (codes "submission comment") is_comment text matches
      (subst (λ l. length l ≤ 256) (sym reads) (omega (arith, counted)))

no_slash : (text : List ℕ) → all is_name_code text ≡ true → any is_slash text ≡ false
no_slash [] letters = refl
no_slash (c ∷ text) letters = ground (arith, letters, no_slash text)

pub FileName-ok : (name text : List ℕ) → FileName text → require_relative_filename name text ≡ ok tt
unfolding require_relative_filename codes_eq
FileName-ok name [] file = absurd (ground (arith, file.0))
FileName-ok name (c ∷ text) (first, letters, bound) =
    let passes =
      require_pattern-ok name is_filename (c ∷ text)
        (FileName-is_filename (c ∷ text) (first, letters, bound)) (omega (arith, bound)) in
    ground (arith, first, letters, no_slash (c ∷ text) letters, passes)
