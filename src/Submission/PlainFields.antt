-- ===== src/Submission/PlainFields.antt =====
-- What the fields of a batch script may contain, in terms of their characters.
use bmd_compute.Prelude.{
  ℕ, Bool, true, false, ◌||◌, ◌&&◌, Option, none, some, List, [], ◌∷◌, ◌++◌, ◌≡◌, ◌≢◌, ◌≤◌, all,
  All, length, leb, ◌==◌,
}
use bmd_compute.Prelude.Text.{codes}
use bmd_compute.Submission.{ScriptFields}

-- The characters by their code points: digits, letters and digits, those of a name with `.`, `_` and
-- `-`, and those of a path with `/` and `+`.
abbrev pub is_decimal : ℕ → Bool
is_decimal c = leb 48 c && leb c 57

abbrev pub is_letter_or_digit : ℕ → Bool
is_letter_or_digit c = (leb 97 c && leb c 122) || (leb 65 c && leb c 90) || is_decimal c

abbrev pub is_name_code : ℕ → Bool
is_name_code c = is_letter_or_digit c || (c == 46) || (c == 95) || (c == 45)

abbrev pub is_file_code : ℕ → Bool
is_file_code c = is_name_code c || (c == 47) || (c == 43)

abbrev pub starts : (ℕ → Bool) → List ℕ → Bool
starts p [] = false
starts p (c ∷ text) = p c

abbrev pub Name : ℕ → List ℕ → Type 0
Name limit text =
    (starts is_letter_or_digit text ≡ true) × (all is_name_code text ≡ true) × (length text ≤ limit)

abbrev pub FileName : List ℕ → Type 0
FileName text =
    (starts (λ c. is_letter_or_digit c || (c == 95)) text ≡ true)
    × (all is_name_code text ≡ true)
    × (length text ≤ 96)

abbrev pub ModuleName : List ℕ → Type 0
ModuleName text =
    (starts is_letter_or_digit text ≡ true) × (all is_file_code text ≡ true) × (length text ≤ 128)

-- Hours, minutes and seconds.
pub record Clock (text : List ℕ) : Type 0 where
  pub hours : List ℕ
  pub minutes : List ℕ
  pub seconds : List ℕ
  pub reads : text ≡ hours ++ (58 ∷ (minutes ++ (58 ∷ seconds)))
  pub hours_digits : all is_decimal hours ≡ true
  pub minutes_digits : all is_decimal minutes ≡ true
  pub seconds_digits : all is_decimal seconds ≡ true
  pub hours_length : (1 ≤ length hours) × (length hours ≤ 3)
  pub minutes_length : length minutes ≡ 2
  pub seconds_length : length seconds ≡ 2

-- An absolute path that is not the root. Each of its components stands behind a slash, and none is
-- the parent's.
pub record PlainPath (path : List ℕ) : Type 0 where
  pub characters : all is_file_code path ≡ true
  pub bounded : length path ≤ 4096
  pub below : List ℕ
  pub absolute : path ≡ 47 ∷ below
  pub not_root : below ≢ []
  pub no_inner_parent : (before after : List ℕ) → path ≢ before ++ (codes "/../" ++ after)
  pub no_last_parent : (before : List ℕ) → path ≢ before ++ codes "/.."

-- `bmd_attempt:` and 36 hexadecimal digits and dashes.
abbrev pub AttemptComment : Option (List ℕ) → Type 0
AttemptComment none = Unit
AttemptComment (some text) =
    (id : List ℕ) × (text ≡ codes "bmd_attempt:" ++ id)
    × (all (λ c. is_decimal c || (leb 97 c && leb c 102) || (c == 45)) id ≡ true)
    × (length id ≡ 36)

pub record PlainFields (fields : ScriptFields) : Type 0 where
  pub run_name : Name 96 fields.run_name
  pub partition : Name 64 fields.partition
  pub account : Name 64 fields.account
  pub walltime : Clock fields.walltime
  pub attempt_comment : AttemptComment fields.attempt_comment
  pub paths : All (λ path. PlainPath path.1) fields.paths
  pub filenames : All (λ name. FileName name.1) fields.filenames
  pub modules : All (λ name. ModuleName name) fields.modules
