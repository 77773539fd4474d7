-- ===== src/TaskSet/Paths.antt =====
-- backend/stage_task_set.py: the directories of a stage's tasks, with the functions of posixpath that
-- they are computed by. A stage directory is text, the list of its code points.
use bmd_compute.Prelude.{
  ℕ, String, Bool, false, not, ◌&&◌, ◌||◌, some, List, [], ◌∷◌, ◌++◌, Result, ok, err, ◌>>=◌, all,
  ◌==◌, if◌then◌else◌,
}
use mathlib.Core.List.{reverse}
use bmd_compute.Prelude.Text.{codes, codes_eq, starts_with}
use bmd_compute.Prelude.Split.{split_on}
use bmd_compute.Model.{str}
use bmd_compute.Submission.{join_path, is_alphanumeric, is_empty}
use bmd_compute.TaskSet.Values.{validate_task_id, TaskSetError}

-- The parts of a path, the last first, after one more part. A `..` at the root is dropped.
unfoldable pub push_part : List (List ℕ) → List ℕ → List (List ℕ)
push_part parts part =
    if is_empty part || codes_eq part (codes ".")
    then parts
    else if codes_eq part (codes "..")
    then elim parts [ [] ↦ [] | last ∷ before ↦ before ]
    else part ∷ parts

unfoldable pub push_parts : List (List ℕ) → List (List ℕ) → List (List ℕ)
unfolding push_part
push_parts parts [] = parts
push_parts parts (part ∷ rest) = push_parts (push_part parts part) rest

-- `"/".join(parts)`
abbrev pub joined : List (List ℕ) → List ℕ
joined [] = []
joined (part ∷ []) = part
joined (part ∷ next ∷ rest) = part ++ (47 ∷ joined (next ∷ rest))

-- `posixpath.normpath` of a path that begins with a slash: exactly two slashes are kept.
unfoldable pub normpath : List ℕ → List ℕ
unfolding push_parts split_on
normpath path =
    let rest = joined (reverse (push_parts [] (split_on 47 [] path))) in
    if starts_with (codes "//") path && not (starts_with (codes "///") path)
    then 47 ∷ 47 ∷ rest
    else 47 ∷ rest

-- A character before the head of the rest.
abbrev pub head_step : ℕ → List ℕ → List ℕ
head_step c [] = if c == 47 then 47 ∷ [] else []
head_step c (h ∷ head) = c ∷ h ∷ head

-- `path[: path.rfind("/") + 1]`
unfoldable pub head_of : List ℕ → List ℕ
head_of [] = []
head_of (c ∷ text) = head_step c (head_of text)

abbrev pub strip_step : ℕ → List ℕ → List ℕ
strip_step c [] = if c == 47 then [] else c ∷ []
strip_step c (d ∷ rest) = c ∷ d ∷ rest

-- `text.rstrip("/")`
unfoldable pub without_slashes : List ℕ → List ℕ
without_slashes [] = []
without_slashes (c ∷ text) = strip_step c (without_slashes text)

unfoldable pub dirname : List ℕ → List ℕ
unfolding head_of without_slashes
dirname path =
    let head = head_of path in if all (λ c. c == 47) head then head else without_slashes head

abbrev pub is_root_code : ℕ → Bool
is_root_code c = is_alphanumeric c || (c == 46) || (c == 95) || (c == 47) || (c == 43) || (c == 45)

-- _STAGE_ROOT_PATTERN
abbrev pub matches_stage_root : List ℕ → Bool
matches_stage_root [] = false
matches_stage_root (c ∷ text) = (c == 47) && all is_root_code text && not (is_empty text)

-- `"//" in text`
abbrev pub has_double_slash : List ℕ → Bool
has_double_slash [] = false
has_double_slash (c ∷ text) = starts_with (codes "//") (c ∷ text) || has_double_slash text

-- The condition of the first error; `normpath` is called where the pattern matches.
unfoldable pub is_invalid_root : List ℕ → Bool
is_invalid_root stage_root =
    not (matches_stage_root stage_root)
    || not (codes_eq (normpath stage_root) stage_root)
    || has_double_slash stage_root
    || codes_eq stage_root (codes "/")

unfoldable pub stage_task_relative_dir : String → Result TaskSetError (List ℕ)
unfolding validate_task_id
stage_task_relative_dir task_id = do
  valid ← validate_task_id (some (str task_id))
  ok (codes "tasks" ++ (47 ∷ codes valid))

abbrev pub below_tasks : List ℕ → List ℕ → Result TaskSetError (List ℕ)
below_tasks stage_root path =
    if codes_eq (dirname path) (join_path stage_root (codes "tasks"))
    then ok path
    else err TaskSetError.task_directory_escapes

unfoldable pub stage_task_dir : List ℕ → String → Result TaskSetError (List ℕ)
unfolding stage_task_relative_dir is_invalid_root
stage_task_dir stage_root task_id =
    if is_invalid_root stage_root
    then err TaskSetError.invalid_stage_directory
    else stage_task_relative_dir task_id >>= λ relative.
        below_tasks stage_root (join_path stage_root relative)

-- The directories of all tasks, in their order.
unfoldable pub stage_task_dirs : List ℕ → List String → Result TaskSetError (List (String × List ℕ))
unfolding stage_task_dir
stage_task_dirs stage_root [] = ok []
stage_task_dirs stage_root (task_id ∷ task_ids) = do
  path ← stage_task_dir stage_root task_id
  rest ← stage_task_dirs stage_root task_ids
  ok ((task_id, path) ∷ rest)
