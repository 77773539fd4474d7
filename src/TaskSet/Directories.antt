-- ===== src/TaskSet/Directories.antt =====
-- backend/stage_task_set.py, stage_task_dir: what is accepted as the directory of a stage, and where the
-- directory of a task is.
use bmd_compute.Prelude.{
  ℕ, String, true, false, List, [], ◌∷◌, ◌++◌, ok, ◌≡◌, ◌≢◌, ◌↔◌, refl, sym, ap, ◌∙◌, arith, all,
  All, ok-injective, ◌==◌, append_assoc, append-nil, subst,
}
use bmd_compute.Prelude.Text.{codes_eq-same, codes, codes_eq, codes_eq-eq}
use bmd_compute.Prelude.Split.{free}
use bmd_compute.Submission.{join_path, ends_with_slash, is_empty}
use bmd_compute.TaskSet.Values.{TaskSetError, is_task_id, is_task_code, validate_task_id}
use bmd_compute.TaskSet.Paths.{
  head_step, strip_step, head_of, without_slashes, dirname, is_root_code, matches_stage_root,
  is_invalid_root, has_double_slash, normpath, stage_task_relative_dir, below_tasks, stage_task_dir,
}
use bmd_compute.TaskSet.Normal.{
  Proper, absolute, normpath-absolute, normal-absolute, absolute-single,
}

-- An absolute path of at least one component, each of them proper, in the characters of the pattern.
abbrev pub IsStageRoot : List ℕ → Type 0
IsStageRoot root =
    (part : List ℕ) × (parts : List (List ℕ)) × All Proper (part ∷ parts)
    × (root ≡ absolute (part ∷ parts))
    × (all is_root_code root ≡ true)

matches_stage_root_parts :
    (root : List ℕ)
    → matches_stage_root root ≡ true
    → (all is_root_code root ≡ true) × (root ≢ codes "/")
matches_stage_root_parts [] matched = cc
matches_stage_root_parts (c ∷ []) matched = absurd (ground (arith, matched))
matches_stage_root_parts (c ∷ d ∷ text) matched = (ground (arith, matched), λ same. cc)

valid_root-IsStageRoot : (root : List ℕ) → is_invalid_root root ≡ false → IsStageRoot root
unfolding is_invalid_root
valid_root-IsStageRoot root valid =
    let matched : matches_stage_root root ≡ true = ground (arith, valid) in
    let normal : codes_eq (normpath root) root ≡ true = ground (arith, valid) in
    let single : has_double_slash root ≡ false = ground (arith, valid) in
    let (all_codes, not_slash) = matches_stage_root_parts root matched in
    let (part, parts, proper, same) =
      normal-absolute root (codes_eq-eq (normpath root) root normal) single not_slash in
    (part, parts, proper, same, all_codes)

absolute-matches :
    (part : List ℕ) (parts : List (List ℕ))
    → Proper part
    → all is_root_code (absolute (part ∷ parts)) ≡ true
    → (matches_stage_root (absolute (part ∷ parts)) ≡ true)
      × (codes_eq (absolute (part ∷ parts)) (codes "/") ≡ false)
unfolding codes_eq
absolute-matches [] parts p all_codes = cc (p.not_empty)
absolute-matches (c ∷ part) parts p all_codes = (ground (arith, all_codes), ground arith)

IsStageRoot-valid : (root : List ℕ) → IsStageRoot root → is_invalid_root root ≡ false
unfolding is_invalid_root
IsStageRoot-valid root (part, parts, proper, same, all_codes) =
    let path = absolute (part ∷ parts) in
    let (matched, not_slash) =
      absolute-matches part parts proper.0 (ap (all is_root_code) (sym same) ∙ all_codes) in
    subst (λ r. is_invalid_root r ≡ false) (sym same)
      (rw (
        matched,
        normpath-absolute part parts proper,
        codes_eq-same path,
        absolute-single (part ∷ parts) proper,
        not_slash,
      ))

ends_with_slash-append :
    (x : List ℕ) (c : ℕ) (y : List ℕ) → ends_with_slash (x ++ (c ∷ y)) ≡ ends_with_slash (c ∷ y)
ends_with_slash-append [] c y = refl
ends_with_slash-append (d ∷ []) c y = refl
ends_with_slash-append (d ∷ e ∷ x) c y = ends_with_slash-append (e ∷ x) c y

ends_with_slash-free :
    (c : ℕ) (x : List ℕ) → free 47 (c ∷ x) ≡ true → ends_with_slash (c ∷ x) ≡ false
ends_with_slash-free c [] plain = ground (arith, plain)
ends_with_slash-free c (d ∷ x) plain = ends_with_slash-free d x (ground (arith, plain))

absolute-ends :
    (part : List ℕ) (parts : List (List ℕ))
    → All Proper (part ∷ parts)
    → ends_with_slash (absolute (part ∷ parts)) ≡ false
absolute-ends [] parts (first, rest) = cc (first.not_empty)
absolute-ends (c ∷ part) [] (first, rest) =
    ap (λ l. ends_with_slash (c ∷ l)) (append-nil part) ∙ ends_with_slash-free c part first.no_slash
absolute-ends (c ∷ part) (next ∷ parts) (first, rest) =
    ends_with_slash-append (c ∷ part) 47 (next ++ absolute parts) ∙ absolute-ends next parts rest

head_of-free : (x : List ℕ) → free 47 x ≡ true → head_of x ≡ []
unfolding head_of
head_of-free [] plain = refl
head_of-free (c ∷ x) plain = ground (arith, plain, head_of-free x)

head_of-slash : (x y : List ℕ) → free 47 y ≡ true → head_of (x ++ (47 ∷ y)) ≡ x ++ (47 ∷ [])
unfolding head_of
head_of-slash [] y plain = ap (head_step 47) (head_of-free y plain)
head_of-slash (c ∷ []) y plain = ap (head_step c) (head_of-slash [] y plain)
head_of-slash (c ∷ d ∷ x) y plain = ap (head_step c) (head_of-slash (d ∷ x) y plain)

without_slashes-slash :
    (c : ℕ) (x : List ℕ)
    → ends_with_slash (c ∷ x) ≡ false
    → without_slashes ((c ∷ x) ++ (47 ∷ [])) ≡ c ∷ x
unfolding without_slashes
without_slashes-slash c [] ends = ground (arith, ends)
without_slashes-slash c (d ∷ x) ends = ap (strip_step c) (without_slashes-slash d x ends)

not_all_slashes :
    (c : ℕ) (x y : List ℕ)
    → ends_with_slash (c ∷ x) ≡ false
    → all (λ d. d == 47) ((c ∷ x) ++ y) ≡ false
not_all_slashes c [] y ends = rw ends
not_all_slashes c (d ∷ x) y ends = ground (arith, not_all_slashes d x y ends)

dirname-slash :
    (x y : List ℕ)
    → is_empty x ≡ false
    → ends_with_slash x ≡ false
    → free 47 y ≡ true
    → dirname (x ++ (47 ∷ y)) ≡ x
unfolding dirname
dirname-slash [] y some_text ends plain = cc
dirname-slash (c ∷ x) y some_text ends plain =
    rw (head_of-slash (c ∷ x) y plain, not_all_slashes c x (47 ∷ []) ends)
      (without_slashes-slash c x ends)

task_codes-free : (x : List ℕ) → all is_task_code x ≡ true → free 47 x ≡ true
task_codes-free [] valid = refl
task_codes-free (c ∷ x) valid = ground (arith, valid, task_codes-free x)

is_task_id-free : (x : List ℕ) → is_task_id x ≡ true → free 47 x ≡ true
is_task_id-free [] valid = refl
is_task_id-free (c ∷ x) valid = ground (arith, valid, task_codes-free x)

join_path-root : (root name : List ℕ) → IsStageRoot root → join_path root name ≡ root ++ (47 ∷ name)
unfolding join_path
join_path-root root name (part, parts, proper, same, all_codes) =
    subst (λ r. join_path r name ≡ r ++ (47 ∷ name)) (sym same)
      (rw (absolute-ends part parts proper) refl)

is_empty-append : (x : List ℕ) (c : ℕ) (y : List ℕ) → is_empty (x ++ (c ∷ y)) ≡ false
is_empty-append [] c y = refl
is_empty-append (d ∷ x) c y = refl

-- The directory of a task is below that of the tasks.
dirname-task :
    (root id : List ℕ)
    → is_task_id id ≡ true
    → dirname (root ++ (codes "/tasks/" ++ id)) ≡ root ++ codes "/tasks"
dirname-task root id valid =
    ap dirname (sym (append_assoc root (codes "/tasks") (47 ∷ id)))
    ∙ dirname-slash (root ++ codes "/tasks") id (is_empty-append root 47 (codes "tasks"))
        (ends_with_slash-append root 47 (codes "tasks")) (is_task_id-free id valid)

below_tasks-task :
    (root id : List ℕ)
    → IsStageRoot root
    → is_task_id id ≡ true
    → below_tasks root (join_path root (codes "tasks" ++ (47 ∷ id)))
      ≡ ok (root ++ (codes "/tasks/" ++ id))
below_tasks-task root id valid valid_id = rw (
  join_path-root root (codes "tasks" ++ (47 ∷ id)) valid,
  join_path-root root (codes "tasks") valid,
  dirname-task root id valid_id,
  codes_eq-same (root ++ codes "/tasks"),
)

stage_task_dir-valid :
    (root : List ℕ) (id : String)
    → IsStageRoot root
    → is_task_id (codes id) ≡ true
    → stage_task_dir root id ≡ ok (root ++ (codes "/tasks/" ++ codes id))
unfolding stage_task_dir stage_task_relative_dir validate_task_id
stage_task_dir-valid root id valid valid_id =
    rw (IsStageRoot-valid root valid, valid_id) (below_tasks-task root (codes id) valid valid_id)

stage_task_dir-ok :
    (root : List ℕ) (id : String) (path : List ℕ)
    → stage_task_dir root id ≡ ok path
    → (is_invalid_root root ≡ false) × (is_task_id (codes id) ≡ true)
unfolding stage_task_dir stage_task_relative_dir validate_task_id
stage_task_dir-ok root id path accepted = ground (arith, accepted)

-- A task has a directory exactly when the stage directory is absolute, in the characters of the
-- pattern, and made of at least one component, none of them empty, a dot or two dots, and the
-- task's identifier is valid; and the directory is then the stage directory, tasks, and the
-- identifier.
pub stage_task_dir_iff :
    (root : List ℕ) (id : String) (path : List ℕ)
    → (stage_task_dir root id ≡ ok path) ↔ (
        IsStageRoot root
        × (is_task_id (codes id) ≡ true)
        × (path ≡ root ++ (codes "/tasks/" ++ codes id)))
stage_task_dir_iff root id path = (
  λ accepted.
      let (valid_root, valid_id) = stage_task_dir-ok root id path accepted in
      let valid = valid_root-IsStageRoot root valid_root in
      let same =
        ok-injective TaskSetError (sym accepted ∙ stage_task_dir-valid root id valid valid_id) in
      (valid, valid_id, same),
  λ (valid, valid_id, same). stage_task_dir-valid root id valid valid_id ∙ ap ok (sym same),
)
