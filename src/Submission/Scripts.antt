-- ===== src/Submission/Scripts.antt =====
-- What the checked fields of a batch script can contain.
use bmd_compute.Prelude.{
  ℕ, Bool, true, Option, none, some, List, [], ◌∷◌, ◌++◌, ok, ◌≡◌, ◌↔◌, ◌≤◌, refl, ap, ◌∙◌, arith,
  All, take, drop, >>-eq-ok,
}
use bmd_compute.Prelude.Text.{codes, codes_eq-eq}
use bmd_compute.Submission.{
  Check, is_identifier, is_filename, is_module, is_walltime, is_comment, require_pattern,
  require_safe_remote_path, require_relative_filename, ScriptFields, each, check_comment,
  validate_submission_script_fields,
}
use bmd_compute.Submission.PlainFields.{
  Name, FileName, ModuleName, PlainPath, AttemptComment, PlainFields,
}
use bmd_compute.Submission.Walltimes.{take-drop, is_walltime-Clock}
use bmd_compute.Submission.RemotePaths.{is_safe_path-PlainPath, PlainPath-ok}
use bmd_compute.Submission.Accepts.{
  require_pattern-ok, Name-is_identifier, ModuleName-is_module, Clock-is_walltime, Clock-short,
  AttemptComment-ok, FileName-ok,
}

is_identifier-Name : (n : ℕ) (text : List ℕ) → is_identifier n text ≡ true → Name n text
is_identifier-Name n [] h = absurd (ground arith)
is_identifier-Name n (c ∷ text) h = (ground (arith, h), ground (arith, h), ground (arith, h))

is_filename-FileName : (text : List ℕ) → is_filename text ≡ true → FileName text
is_filename-FileName [] h = absurd (ground arith)
is_filename-FileName (c ∷ text) h = (ground (arith, h), ground (arith, h), ground (arith, h))

is_module-ModuleName : (text : List ℕ) → is_module text ≡ true → ModuleName text
is_module-ModuleName [] h = absurd (ground arith)
is_module-ModuleName (c ∷ text) h = (ground (arith, h), ground (arith, h), ground (arith, h))

is_comment-AttemptComment : (text : List ℕ) → is_comment text ≡ true → AttemptComment (some text)
is_comment-AttemptComment text h = (
  drop 12 text,
  take-drop 12 text
      ∙ ap (λ l. l ++ drop 12 text)
          (codes_eq-eq (take 12 text) (codes "bmd_attempt:") (ground (arith, h))),
  ground (arith, h),
  ground (arith, h),
)

require_pattern-eq-ok :
    (name : List ℕ) (pattern : List ℕ → Bool) (text : List ℕ)
    → require_pattern name pattern text ≡ ok tt
    → pattern text ≡ true
unfolding require_pattern
require_pattern-eq-ok name pattern text h = ground (arith, h)

require_safe_remote_path-PlainPath :
    (name path : List ℕ) → require_safe_remote_path name path ≡ ok tt → PlainPath path
unfolding require_safe_remote_path
require_safe_remote_path-PlainPath name path h =
    is_safe_path-PlainPath path (ground (arith, h)) (ground (arith, h)) (ground (arith, h))

require_relative_filename-FileName :
    (name filename : List ℕ) → require_relative_filename name filename ≡ ok tt → FileName filename
unfolding require_relative_filename
require_relative_filename-FileName name filename h =
    is_filename-FileName filename
      (require_pattern-eq-ok name is_filename filename (ground (arith, h)))

each-All {ℓ} :
    {A : Type ℓ} (check : A → Check) (P : A → Type 0)
    → ((x : A) → check x ≡ ok tt → P x)
    → (xs : List A) → each check xs ≡ ok tt
    → All P xs
each-All check P sound [] h = tt
each-All check P sound (x ∷ xs) h =
    let (first, rest) = >>-eq-ok (check x) (each check xs) h in
    (sound x first, each-All check P sound xs rest)

check_comment-AttemptComment : (o : Option (List ℕ)) → check_comment o ≡ ok tt → AttemptComment o
check_comment-AttemptComment none h = tt
check_comment-AttemptComment (some text) h =
    is_comment-AttemptComment text
      (require_pattern-eq-ok (codes "submission comment") is_comment text h)

PlainFields-of_ok :
    (fields : ScriptFields) → validate_submission_script_fields fields ≡ ok tt → PlainFields fields
unfolding validate_submission_script_fields
PlainFields-of_ok fields h =
    let identifier =
      λ (name : List ℕ) (n : ℕ) (text : List ℕ)
          (passed : require_pattern name (is_identifier n) text ≡ ok tt).
        is_identifier-Name n text (require_pattern-eq-ok name (is_identifier n) text passed) in
    let (run_name, h1) =
      >>-eq-ok (require_pattern (codes "run name") (is_identifier 96) fields.run_name) _ h in
    let (partition, h2) =
      >>-eq-ok (require_pattern (codes "partition") (is_identifier 64) fields.partition) _ h1 in
    let (account, h3) =
      >>-eq-ok (require_pattern (codes "account") (is_identifier 64) fields.account) _ h2 in
    let (walltime, h4) =
      >>-eq-ok (require_pattern (codes "walltime") is_walltime fields.walltime) _ h3 in
    let (comment, h5) = >>-eq-ok (check_comment fields.attempt_comment) _ h4 in
    let (paths, h6) =
      >>-eq-ok
        (each (λ (path : List ℕ × List ℕ). require_safe_remote_path path.0 path.1) fields.paths) _
        h5 in
    let (filenames, modules) =
      >>-eq-ok
        (each (λ (name : List ℕ × List ℕ). require_relative_filename name.0 name.1)
          fields.filenames)
        _ h6 in
    record {
      run_name = identifier (codes "run name") 96 fields.run_name run_name;
      partition = identifier (codes "partition") 64 fields.partition partition;
      account = identifier (codes "account") 64 fields.account account;
      walltime =
          is_walltime-Clock fields.walltime
            (require_pattern-eq-ok (codes "walltime") is_walltime fields.walltime walltime);
      attempt_comment = check_comment-AttemptComment fields.attempt_comment comment;
      paths =
          each-All _ (λ (path : List ℕ × List ℕ). PlainPath path.1)
            (λ path. require_safe_remote_path-PlainPath path.0 path.1) fields.paths paths;
      filenames =
          each-All _ (λ (name : List ℕ × List ℕ). FileName name.1)
            (λ name. require_relative_filename-FileName name.0 name.1) fields.filenames filenames;
      modules =
          each-All _ (λ name. ModuleName name)
            (λ text passed.
              is_module-ModuleName text
                (require_pattern-eq-ok (codes "module name") is_module text passed))
            fields.modules modules;
    }

each-ok {ℓ} :
    {A : Type ℓ} (check : A → Check) (P : A → Type 0)
    → ((x : A) → P x → check x ≡ ok tt)
    → (xs : List A) → All P xs
    → each check xs ≡ ok tt
each-ok check P accepts [] plain = refl
each-ok check P accepts (x ∷ xs) (first, rest) =
    rw (accepts x first) (each-ok check P accepts xs rest)

Name-ok :
    (name : List ℕ) (n : ℕ) (text : List ℕ)
    → n ≤ 96
    → Name n text
    → require_pattern name (is_identifier n) text ≡ ok tt
Name-ok name n text small plain =
    require_pattern-ok name (is_identifier n) text (Name-is_identifier n text plain)
      (omega (arith, plain.2))

ModuleName-ok :
    (text : List ℕ) → ModuleName text → require_pattern (codes "module name") is_module text ≡ ok tt
ModuleName-ok text plain =
    require_pattern-ok (codes "module name") is_module text (ModuleName-is_module text plain)
      (omega (arith, plain.2))

ok_of_PlainFields :
    (fields : ScriptFields) → PlainFields fields → validate_submission_script_fields fields ≡ ok tt
unfolding validate_submission_script_fields
ok_of_PlainFields fields plain =
    let run_name = Name-ok (codes "run name") 96 fields.run_name (omega arith) plain.run_name in
    let partition = Name-ok (codes "partition") 64 fields.partition (omega arith) plain.partition in
    let account = Name-ok (codes "account") 64 fields.account (omega arith) plain.account in
    let walltime =
      require_pattern-ok (codes "walltime") is_walltime fields.walltime
        (Clock-is_walltime fields.walltime plain.walltime)
        (Clock-short fields.walltime plain.walltime) in
    let comment = AttemptComment-ok fields.attempt_comment plain.attempt_comment in
    let paths =
      each-ok (λ (path : List ℕ × List ℕ). require_safe_remote_path path.0 path.1)
        (λ path. PlainPath path.1) (λ path. PlainPath-ok path.0 path.1) fields.paths plain.paths in
    let filenames =
      each-ok (λ (name : List ℕ × List ℕ). require_relative_filename name.0 name.1)
        (λ name. FileName name.1) (λ name. FileName-ok name.0 name.1) fields.filenames
        plain.filenames in
    let modules =
      each-ok (require_pattern (codes "module name") is_module) (λ name. ModuleName name)
        ModuleName-ok fields.modules plain.modules in
    rw (run_name, partition, account, walltime, comment, paths, filenames) modules

-- The fields of a batch script are accepted exactly when the run name, the partition and the
-- account begin with a letter or a digit and have only letters, digits and the characters . _ and
-- -, at most 96, 64 and 64 of them; the wall time is one to three digits, two and two, with colons
-- between them; the comment, if there is one, is bmd_attempt: and 36 hexadecimal digits and
-- dashes; each path is absolute, not the root, has at most 4096 letters, digits and characters . _
-- - / and +, and no component that leads to the parent; each file name is a name of at most 96
-- characters, which may begin with _, and each module name begins with a letter or a digit and has
-- at most 128 characters of those of a path.
pub validate_submission_script_fields-PlainFields :
    (fields : ScriptFields)
    → (validate_submission_script_fields fields ≡ ok tt) ↔ PlainFields fields
validate_submission_script_fields-PlainFields fields =
    (PlainFields-of_ok fields, ok_of_PlainFields fields)
