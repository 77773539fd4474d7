-- ===== src/Submission/Labels.antt =====
-- What a sanitized label is, and which of them make a run name that the batch script accepts.
use bmd_compute.Prelude.{
  ℕ, zero, suc, ◌≤◌, Bool, true, false, List, [], ◌∷◌, ◌++◌, ok, ◌≡◌, ◌≢◌, ◌↔◌, refl, arith, all,
  take, length, length-append, Bool-cases, inl, inr,
}
use bmd_compute.Prelude.Text.{codes, strip}
use bmd_compute.Submission.{
  is_alphanumeric, is_label_code, all_separators, dash_spaces, keep, strip_separators, or_default,
  sanitize_label, run_name, is_identifier, require_pattern,
}

abbrev LabelText : List ℕ → Type 0
LabelText text = all is_label_code text ≡ true

keep-LabelText : (text : List ℕ) → LabelText (keep is_label_code text)
unfolding keep
keep-LabelText [] = refl
keep-LabelText (c ∷ text) = ground (arith, keep-LabelText text)

or_default-LabelText : (text : List ℕ) → LabelText text → LabelText (or_default text)
or_default-LabelText [] h = refl
or_default-LabelText (c ∷ text) h = h

take-LabelText : (n : ℕ) (text : List ℕ) → LabelText text → LabelText (take n text)
take-LabelText zero text h = refl
take-LabelText (suc n) [] h = refl
take-LabelText (suc n) (c ∷ text) h = ground (arith, h, take-LabelText n text)

strip_separators-LabelText : (text : List ℕ) → LabelText text → LabelText (strip_separators text)
unfolding strip_separators
strip_separators-LabelText [] h = refl
strip_separators-LabelText (c ∷ text) h = ground (arith, h, strip_separators-LabelText text)

length-take : (n : ℕ) (text : List ℕ) → length (take n text) ≤ n
length-take zero text = omega arith
length-take (suc n) [] = omega arith
length-take (suc n) (c ∷ text) = omega (arith, length-take n text)

length-strip_separators : (text : List ℕ) → length (strip_separators text) ≤ length text
unfolding strip_separators
length-strip_separators [] = omega arith
length-strip_separators (c ∷ text) = ground (arith, length-strip_separators text)

length-or_default : (text : List ℕ) (n : ℕ) → 8 ≤ n → length text ≤ n → length (or_default text) ≤ n
length-or_default [] n small h = omega arith
length-or_default (c ∷ text) n small h = h

-- A text with another character keeps it, so that nothing is left to take off at the end.
not_all-strip :
    (text : List ℕ) → all_separators text ≡ false → all_separators (strip_separators text) ≡ false
unfolding strip_separators
not_all-strip [] h = ground (arith, h)
not_all-strip (c ∷ text) h = ground (arith, h, not_all-strip text)

strip_separators_idempotent :
    (text : List ℕ) → strip_separators (strip_separators text) ≡ strip_separators text
unfolding strip_separators
strip_separators_idempotent [] = refl
strip_separators_idempotent (c ∷ text) = elim (Bool-cases (all_separators (c ∷ text))) [
  | inl separators ↦ rw separators refl
  | inr other ↦
      rw other (ground (arith, other, not_all-strip text, strip_separators_idempotent text))
]

or_default-ne-nil : (text : List ℕ) → or_default text ≢ []
or_default-ne-nil [] same = cc
or_default-ne-nil (c ∷ text) same = cc

strip_separators-or_default :
    (text : List ℕ)
    → strip_separators text ≡ text
    → strip_separators (or_default text) ≡ or_default text
unfolding strip_separators
strip_separators-or_default [] h = refl
strip_separators-or_default (c ∷ text) h = h

pub record Sanitized (label : List ℕ) : Type 0 where
  pub not_empty : label ≢ []
  pub characters : all is_label_code label ≡ true
  pub short : length label ≤ 60
  pub no_separator_at_end : strip_separators label ≡ label

pub sanitize_label-Sanitized : (label : List ℕ) → Sanitized (sanitize_label label)
unfolding sanitize_label
sanitize_label-Sanitized label =
    let kept = keep is_label_code (dash_spaces false (strip label)) in
    let cut = take 60 (or_default kept) in
    let stripped = strip_separators cut in
    record {
      not_empty = or_default-ne-nil stripped;
      characters = or_default-LabelText stripped (
          strip_separators-LabelText cut (
            take-LabelText 60 (or_default kept)
              (or_default-LabelText kept (keep-LabelText (dash_spaces false (strip label))))));
      short =
          length-or_default stripped 60 (omega arith)
            (omega (arith, length-strip_separators cut, length-take 60 (or_default kept)));
      no_separator_at_end = strip_separators-or_default stripped (strip_separators_idempotent cut);
    }

LabelText-append : (x y : List ℕ) → LabelText x → LabelText y → LabelText (x ++ y)
LabelText-append [] y h k = k
LabelText-append (c ∷ x) y h k = ground (arith, h, LabelText-append x y)

-- A text that begins with a letter or a digit.
abbrev pub starts_alphanumeric : List ℕ → Bool
starts_alphanumeric [] = false
starts_alphanumeric (c ∷ text) = is_alphanumeric c

name_accepted_iff :
    (label rest : List ℕ)
    → LabelText label
    → length label ≤ 60
    → LabelText rest
    → length rest ≡ 15
    → (require_pattern (codes "run name") (is_identifier 96) (label ++ (45 ∷ rest)) ≡ ok tt)
      ↔ (starts_alphanumeric label ≡ true)
unfolding require_pattern
name_accepted_iff [] rest characters short k n = ground arith
name_accepted_iff (c ∷ label) rest characters short k n = ground (
  arith,
  characters,
  short,
  n,
  LabelText-append label (45 ∷ rest) (ground (arith, characters)) (ground (arith, k)),
  length-append label (45 ∷ rest),
)

-- For a timestamp of 15 characters, each a letter, a digit, a dot, a dash or an underscore, the
-- run name of a label is accepted exactly when the sanitised label begins with a letter or a
-- digit.
pub run_name_accepted_iff :
    (label timestamp : List ℕ)
    → all is_label_code timestamp ≡ true
    → length timestamp ≡ 15
    → (require_pattern (codes "run name") (is_identifier 96) (run_name label timestamp) ≡ ok tt)
      ↔ (starts_alphanumeric (sanitize_label label) ≡ true)
unfolding run_name
run_name_accepted_iff label timestamp canonical fifteen =
    let sanitized = sanitize_label-Sanitized label in
    name_accepted_iff (sanitize_label label) timestamp sanitized.characters sanitized.short
      canonical fifteen
