-- ===== src/Submission.antt =====
-- backend/submission.py: the names, paths and script fields of a submission. Text is the list of its
-- code points; character classes and white space are those of ASCII.
pub mod StageDirectories
pub mod Labels
pub mod PlainFields
pub mod Walltimes
pub mod RemotePaths
pub mod Accepts
pub mod Scripts
pub mod Base64
pub mod Timestamps
pub mod Identity
pub mod Tokens
pub mod Canonical
pub mod Created
use bmd_compute.Prelude.{
  ℕ, zero, suc, ◌+◌, ◌-◌, ◌%◌, ◌*◌, Bool, true, false, not, ◌&&◌, ◌||◌, Option, none, some, List,
  [], ◌∷◌, ◌++◌, Result, ok, err, ◌>>=◌, ◌>>◌, raise_if, any, all, map, length, take, drop, leb,
  ltb, ◌==◌, if◌then◌else◌,
}
use bmd_compute.Prelude.Text.{codes, codes_eq, is_space, strip}
use bmd_compute.Prelude.Decimal.{is_digit, number}
use bmd_compute.RunRecords.{Directories}

-- `posixpath.join(base, name)`, where `name` is relative.
abbrev pub ends_with_slash : List ℕ → Bool
ends_with_slash [] = false
ends_with_slash (c ∷ []) = c == 47
ends_with_slash (_ ∷ d ∷ text) = ends_with_slash (d ∷ text)

abbrev pub is_empty : List ℕ → Bool
is_empty [] = true
is_empty _ = false

unfoldable pub join_path : List ℕ → List ℕ → List ℕ
join_path base name =
    if is_empty base || ends_with_slash base then base ++ name else base ++ (47 ∷ name)

-- `paths.stage_dirs`
abbrev pub stage_dirs : List ℕ → List (List ℕ) → Directories
stage_dirs run_dir [] = []
stage_dirs run_dir (d ∷ directories) =
    (d, some (join_path run_dir d)) ∷ stage_dirs run_dir directories

-- `paths.result_dir`
unfoldable pub result_dir : List ℕ → Option (List ℕ) → List ℕ
result_dir run_dir none = run_dir
result_dir run_dir (some directory) = join_path run_dir directory

abbrev pub is_alphanumeric : ℕ → Bool
is_alphanumeric c = (leb 97 c && leb c 122) || (leb 65 c && leb c 90) || (leb 48 c && leb c 57)

-- `[A-Za-z0-9._-]`
abbrev pub is_label_code : ℕ → Bool
is_label_code c = is_alphanumeric c || (c == 46) || (c == 95) || (c == 45)

-- `[-_.]`, the characters that `rstrip` takes off.
abbrev pub is_separator : ℕ → Bool
is_separator c = (c == 46) || (c == 95) || (c == 45)

-- `re.sub(r"\s+", "-", label)`; the flag says that the run of white space has begun.
unfoldable pub dash_spaces : Bool → List ℕ → List ℕ
dash_spaces in_run [] = []
dash_spaces in_run (c ∷ text) =
    let rest = dash_spaces (is_space c) text in
    if is_space c then (if in_run then rest else 45 ∷ rest) else c ∷ rest

unfoldable pub keep : (ℕ → Bool) → List ℕ → List ℕ
keep p [] = []
keep p (c ∷ text) = let rest = keep p text in if p c then c ∷ rest else rest

abbrev pub all_separators : List ℕ → Bool
all_separators text = all is_separator text

-- `text.rstrip("-_.")`
unfoldable pub strip_separators : List ℕ → List ℕ
strip_separators [] = []
strip_separators (c ∷ text) =
    let rest = strip_separators text in if all_separators (c ∷ text) then [] else c ∷ rest

abbrev pub or_default : List ℕ → List ℕ
or_default [] = codes "vasp_run"
or_default (c ∷ text) = c ∷ text

unfoldable pub sanitize_label : List ℕ → List ℕ
sanitize_label label =
    or_default (
      strip_separators
        (take 60 (or_default (keep is_label_code (dash_spaces false (strip label))))))

unfoldable pub run_name : List ℕ → List ℕ → List ℕ
run_name label timestamp = sanitize_label label ++ (45 ∷ timestamp)

-- MACHINE_IDENTIFIER_PATTERN (96) and SLURM_IDENTIFIER_PATTERN (64): an alphanumeric start.
abbrev pub is_identifier : ℕ → List ℕ → Bool
is_identifier limit [] = false
is_identifier limit (c ∷ text) =
    is_alphanumeric c && all is_label_code text && leb (length text + 1) limit

-- RELATIVE_FILENAME_PATTERN
abbrev pub is_filename : List ℕ → Bool
is_filename [] = false
is_filename (c ∷ text) =
    (is_alphanumeric c || (c == 95)) && all is_label_code text && leb (length text + 1) 96

-- `[A-Za-z0-9._/+\-]`
abbrev pub is_path_code : ℕ → Bool
is_path_code c = is_label_code c || (c == 47) || (c == 43)

-- SAFE_REMOTE_PATH_PATTERN
abbrev pub is_safe_path : List ℕ → Bool
is_safe_path [] = false
is_safe_path (c ∷ []) = false
is_safe_path (c ∷ d ∷ text) = (c == 47) && all is_path_code (d ∷ text)

-- SAFE_MODULE_PATTERN
abbrev pub is_module : List ℕ → Bool
is_module [] = false
is_module (c ∷ text) = is_alphanumeric c && all is_path_code text && leb (length text + 1) 128

-- `[0-9]{n}` and what follows it.
abbrev pub digits_then : ℕ → (List ℕ → Bool) → List ℕ → Bool
digits_then n rest text =
    all is_digit (take n text) && (length (take n text) == n) && rest (drop n text)

abbrev pub colon_then : (List ℕ → Bool) → List ℕ → Bool
colon_then rest [] = false
colon_then rest (c ∷ text) = (c == 58) && rest text

-- What follows the hours of WALLTIME_PATTERN, `:[0-9]{2}:[0-9]{2}`.
abbrev pub minutes_seconds : List ℕ → Bool
minutes_seconds = colon_then (digits_then 2 (colon_then (digits_then 2 is_empty)))

-- WALLTIME_PATTERN
abbrev pub is_walltime : List ℕ → Bool
is_walltime text =
    digits_then 1 minutes_seconds text
    || digits_then 2 minutes_seconds text
    || digits_then 3 minutes_seconds text

abbrev pub is_comment_code : ℕ → Bool
is_comment_code c = is_digit c || (leb 97 c && leb c 102) || (c == 45)

-- `^bmd_attempt:[0-9a-f-]{36}$`
abbrev pub is_comment : List ℕ → Bool
is_comment text =
    codes_eq (take 12 text) (codes "bmd_attempt:")
    && all is_comment_code (drop 12 text)
    && (length (drop 12 text) == 36)

-- A ValueError, by the field's name.
pub data ScriptError : Type 0 where
  unsafe_field parent_component : List ℕ → ScriptError

abbrev pub Check : Type 0
Check = Result ScriptError (Unit {0})

unfoldable pub require_pattern : List ℕ → (List ℕ → Bool) → List ℕ → Check
require_pattern name pattern text =
    raise_if (ltb 256 (length text) || not (pattern text)) (unsafe_field name)

-- `text.split("/")`; the first component is the one that is being read.
abbrev pub split_from : List ℕ → List ℕ → List (List ℕ)
split_from part [] = part ∷ []
split_from part (c ∷ text) =
    let ended = part ∷ split_from [] text in
    let read = split_from (part ++ (c ∷ [])) text in if c == 47 then ended else read

abbrev pub is_parent : List ℕ → Bool
is_parent part = codes_eq part (codes "..")

unfoldable pub require_safe_remote_path : List ℕ → List ℕ → Check
require_safe_remote_path name path = do
  raise_if (ltb 4096 (length path) || not (is_safe_path path)) (unsafe_field name)
  raise_if (any is_parent (split_from [] path)) (parent_component name)

abbrev pub is_slash : ℕ → Bool
is_slash c = (c == 47) || (c == 92)

unfoldable pub require_relative_filename : List ℕ → List ℕ → Check
require_relative_filename name filename = do
  raise_if (any is_slash filename || codes_eq filename (codes ".") || is_parent filename)
      (unsafe_field name)
  require_pattern name is_filename filename

-- The fields that the batch script and the launcher contain, each as `str(value or "")`; the paths
-- and file names with their keys.
pub record ScriptFields : Type 0 where
  pub run_name : List ℕ
  pub partition : List ℕ
  pub account : List ℕ
  pub walltime : List ℕ
  pub attempt_comment : Option (List ℕ)
  pub paths : List (List ℕ × List ℕ)
  pub filenames : List (List ℕ × List ℕ)
  pub modules : List (List ℕ)

abbrev pub each {ℓ} : {A : Type ℓ} → (A → Check) → List A → Check
each check [] = ok tt
each check (x ∷ xs) = check x >> each check xs

abbrev pub check_comment : Option (List ℕ) → Check
check_comment none = ok tt
check_comment (some text) = require_pattern (codes "submission comment") is_comment text

unfoldable pub validate_submission_script_fields : ScriptFields → Check
validate_submission_script_fields fields = do
  require_pattern (codes "run name") (is_identifier 96) fields.run_name
  require_pattern (codes "partition") (is_identifier 64) fields.partition
  require_pattern (codes "account") (is_identifier 64) fields.account
  require_pattern (codes "walltime") is_walltime fields.walltime
  check_comment fields.attempt_comment
  each (λ path. require_safe_remote_path path.0 path.1) fields.paths
  each (λ name. require_relative_filename name.0 name.1) fields.filenames
  each (require_pattern (codes "module name") is_module) fields.modules
