-- ===== src/Submission/Walltimes.antt =====
-- WALLTIME_PATTERN.
use bmd_compute.Prelude.{
  ℕ, zero, suc, Bool, true, false, ◌&&◌, List, [], ◌∷◌, ◌++◌, ◌≡◌, ◌≤◌, refl, ap, ◌∙◌, arith, all,
  length, take, drop, ◌==◌, Bool-cases, ==_iff, append-nil, inl, inr,
}
use bmd_compute.Submission.{is_walltime, is_empty, digits_then, colon_then, minutes_seconds}
use bmd_compute.Submission.PlainFields.{is_decimal, Clock}

pub take-drop : (n : ℕ) (text : List ℕ) → text ≡ take n text ++ drop n text
take-drop zero text = refl
take-drop (suc n) [] = refl
take-drop (suc n) (c ∷ text) = ap (λ l. c ∷ l) (take-drop n text)

-- The digits at the front, and what the rest satisfies.
record Parted (n : ℕ) (rest : List ℕ → Bool) (text : List ℕ) : Type 0 where
  front : List ℕ
  after : List ℕ
  reads : text ≡ front ++ after
  are_digits : all is_decimal front ≡ true
  counted : length front ≡ n
  goes_on : rest after ≡ true

and-parts : (a b c : Bool) → a && b && c ≡ true → (a ≡ true) × (b ≡ true) × (c ≡ true)
and-parts true true true h = (refl, refl, refl)
and-parts true true false h = absurd (ground (arith, h))
and-parts true false c h = absurd (ground (arith, h))
and-parts false b c h = absurd (ground (arith, h))

digits_then-Parted :
    (n : ℕ) (rest : List ℕ → Bool) (text : List ℕ)
    → digits_then n rest text ≡ true
    → Parted n rest text
digits_then-Parted n rest text h =
    let (are_digits, counted, goes_on) =
      and-parts (all is_decimal (take n text)) (length (take n text) == n) (rest (drop n text)) h in
    record {
      front = take n text;
      after = drop n text;
      reads = take-drop n text;
      are_digits = are_digits;
      counted = (==_iff (length (take n text)) n).0 counted;
      goes_on = goes_on;
    }

colon_then-eq :
    (rest : List ℕ → Bool) (text : List ℕ)
    → colon_then rest text ≡ true
    → (after : List ℕ) × (text ≡ 58 ∷ after) × (rest after ≡ true)
colon_then-eq rest [] h = absurd (ground arith)
colon_then-eq rest (c ∷ text) h = (text, ground (arith, h), ground (arith, h))

is_empty-eq : (text : List ℕ) → is_empty text ≡ true → text ≡ []
is_empty-eq [] h = refl
is_empty-eq (c ∷ text) h = absurd (ground arith)

-- Digits that end the text.
all_digits :
    (text : List ℕ)
    → digits_then 2 is_empty text ≡ true
    → (all is_decimal text ≡ true) × (length text ≡ 2)
all_digits text h =
    let p = digits_then-Parted 2 is_empty text h in
    let same : text ≡ p.front =
      p.reads ∙ ap (λ l. p.front ++ l) (is_empty-eq p.after p.goes_on) ∙ append-nil p.front in
    (ap (all is_decimal) same ∙ p.are_digits, ap length same ∙ p.counted)

hours-Clock : (n : ℕ) (text : List ℕ) → 1 ≤ n → n ≤ 3 → Parted n minutes_seconds text → Clock text
hours-Clock n text least most p =
    let two = digits_then 2 is_empty in
    let (after_hours, e1, h1) = colon_then-eq (digits_then 2 (colon_then two)) p.after p.goes_on in
    let q = digits_then-Parted 2 (colon_then two) after_hours h1 in
    let (after_minutes, e2, h2) = colon_then-eq two q.after q.goes_on in
    let (seconds_digits, seconds_length) = all_digits after_minutes h2 in
    record {
      hours = p.front;
      minutes = q.front;
      seconds = after_minutes;
      reads =
          p.reads
          ∙ ap (λ l. p.front ++ l) (e1 ∙ ap (λ l. 58 ∷ l) (q.reads ∙ ap (λ l. q.front ++ l) e2));
      hours_digits = p.are_digits;
      minutes_digits = q.are_digits;
      seconds_digits = seconds_digits;
      hours_length = (omega (arith, p.counted), omega (arith, p.counted));
      minutes_length = q.counted;
      seconds_length = seconds_length;
    }

digits_then-Clock :
    (n : ℕ) (text : List ℕ) → 1 ≤ n → n ≤ 3 → digits_then n minutes_seconds text ≡ true → Clock text
digits_then-Clock n text least most h =
    hours-Clock n text least most (digits_then-Parted n minutes_seconds text h)

pub is_walltime-Clock : (text : List ℕ) → is_walltime text ≡ true → Clock text
is_walltime-Clock text h = elim (Bool-cases (digits_then 1 minutes_seconds text)) [
  | inl one ↦ digits_then-Clock 1 text (omega arith) (omega arith) one
  | inr not_one ↦ elim (Bool-cases (digits_then 2 minutes_seconds text)) [
    | inl two ↦ digits_then-Clock 2 text (omega arith) (omega arith) two
    | inr not_two ↦
        digits_then-Clock 3 text (omega arith) (omega arith) (ground (arith, h, not_one, not_two))
  ]
]
