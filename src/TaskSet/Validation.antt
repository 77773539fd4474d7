-- ===== src/TaskSet/Validation.antt =====
-- backend/stage_task_set.py: the validation of a record. SHA-256 of the canonical text of a value is
-- the argument `digest`.
use bmd_compute.Prelude.{
  ℕ, ◌+◌, String, not, Option, none, some, List, [], ◌∷◌, Result, ok, err, ◌>>=◌, ◌>>◌, raise_if,
  leb, str_eq,
}
use bmd_compute.Prelude.Text.{codes, codes_eq}
use bmd_compute.Model.{StageSpec, WorkflowSpec, Json, arr, obj, Items, nil, cons, Fields, get}
use bmd_compute.Policy.Incar.{pop}
use bmd_compute.Serialisation.{stage_fields, workflow_fields, stage_from, workflow_from}
use bmd_compute.Canonical.{canonical_value, task_id_for_index}
use bmd_compute.TaskSet.Values.{
  TaskSetError, Check, derived_task_set_materializer, mapping, is_one_of, exact_keys, positive_int,
  require_version, sha, attempt_id_of, stage_type_of, is_text, validate_task_id, wrong_schema,
  wrong_version, not_canonical, upstream_not_earlier, wrong_materializer, wrong_source, wrong_order,
  no_tasks, wrong_hash, duplicate_id, out_of_order, duplicate_input, not_a_specification,
}

-- One pass of the loop over the tasks, at a position and with what is seen.
unfoldable pub validate_task :
    ℕ → List String → List String → Json → Result TaskSetError (String × String)
validate_task position ids inputs task = do
  d ← mapping (some task) "task"
  exact_keys d ("task_id" ∷ "input_sha256" ∷ []) "task"
  task_id ← validate_task_id (get "task_id" d)
  raise_if (is_one_of ids task_id) (duplicate_id position)
  raise_if (not (codes_eq (codes task_id) (task_id_for_index position))) (out_of_order position)
  input_sha ← sha (get "input_sha256" d) "input_sha256"
  raise_if (is_one_of inputs input_sha) (duplicate_input position)
  ok (task_id, input_sha)

unfoldable pub validate_tasks : ℕ → List String → List String → Items → Check
validate_tasks position ids inputs nil = ok tt
validate_tasks position ids inputs (cons task tasks) = do
  seen ← validate_task position ids inputs task
  validate_tasks (position + 1) (seen.0 ∷ ids) (seen.1 ∷ inputs) tasks

unfoldable pub tasks_of : Option Json → Result TaskSetError Items
tasks_of (some (arr (cons task tasks))) = ok (cons task tasks)
tasks_of _ = err no_tasks

abbrev pub record_keys : List String
record_keys =
    "schema" ∷ "schema_version" ∷ "parent" ∷ "upstream_structure" ∷ "source" ∷ "task_order"
    ∷ "tasks" ∷ "task_set_sha256" ∷ []

abbrev pub parent_keys : List String
parent_keys =
    "submission_attempt_id" ∷ "workflow_sha256" ∷ "stage_index" ∷ "stage_type" ∷ "stage_sha256" ∷ []

-- The parent of a record, its index and its materializer.
unfoldable pub validate_parent : Fields → Result TaskSetError (ℕ × String)
validate_parent r = do
  parent ← mapping (get "parent" r) "parent"
  exact_keys parent parent_keys "parent"
  attempt_id_of (get "submission_attempt_id" parent)
  sha (get "workflow_sha256" parent) "parent.workflow_sha256"
  sha (get "stage_sha256" parent) "parent.stage_sha256"
  index ← positive_int (get "stage_index" parent) "parent.stage_index"
  stage_type ← stage_type_of (get "stage_type" parent)
  materializer ← derived_task_set_materializer stage_type
  ok (index, materializer)

unfoldable pub validate_upstream : Fields → ℕ → Check
validate_upstream r parent_index = do
  upstream ← mapping (get "upstream_structure" r) "upstream_structure"
  exact_keys upstream ("stage_index" ∷ "sha256" ∷ []) "upstream_structure"
  index ← positive_int (get "stage_index" upstream) "upstream_structure.stage_index"
  raise_if (leb parent_index index) upstream_not_earlier
  sha (get "sha256" upstream) "upstream_structure.sha256"
  ok tt

-- The contract of the one materializer fixes the source's schema and version.
unfoldable pub validate_source : Fields → String → Check
validate_source r materializer = do
  source ← mapping (get "source" r) "source"
  exact_keys source ("materializer" ∷ "schema" ∷ "schema_version" ∷ "sha256" ∷ []) "source"
  raise_if (not (is_text materializer (get "materializer" source))) wrong_materializer
  raise_if (not (is_text "bmd_compute.phonon_displacement_plan" (get "schema" source))) wrong_source
  require_version 1 (get "schema_version" source) wrong_source
  sha (get "sha256" source) "source.sha256"
  ok tt

abbrev pub require_canonical : Option Json → Check
require_canonical none = err not_canonical
require_canonical (some _) = ok tt

module _ (digest : Json → String) where
  unfoldable pub canonical_sha256 : Json → Result TaskSetError String
  canonical_sha256 value = elim (canonical_value value) [
    | none ↦ err not_canonical
    | some canonical ↦ ok (digest canonical)
  ]

  unfoldable pub stage_spec_sha256 : StageSpec → Result TaskSetError String
  stage_spec_sha256 stage = elim (stage_from (obj (stage_fields stage))) [
    | ok s ↦ canonical_sha256 (obj (stage_fields s))
    | err _ ↦ err not_a_specification
  ]

  unfoldable pub workflow_spec_sha256 : WorkflowSpec → Result TaskSetError String
  workflow_spec_sha256 workflow = elim (workflow_from (obj (workflow_fields workflow))) [
    | ok w ↦ canonical_sha256 (obj (workflow_fields w))
    | err _ ↦ err not_a_specification
  ]

  unfoldable pub task_set_sha256 : Fields → Result TaskSetError String
  task_set_sha256 r = canonical_sha256 (obj (pop "task_set_sha256" r))

  unfoldable pub require_hash : Fields → Check
  require_hash r = do
    recorded ← sha (get "task_set_sha256" r) "task_set_sha256"
    recomputed ← task_set_sha256 r
    raise_if (not (str_eq recorded recomputed)) wrong_hash

  unfoldable pub validate_stage_task_set_record : Json → Check
  validate_stage_task_set_record payload = do
    r ← mapping (some payload) "task set"
    exact_keys r record_keys "task set"
    raise_if (not (is_text "bmd_compute.stage_task_set" (get "schema" r))) wrong_schema
    require_version 1 (get "schema_version" r) wrong_version
    require_canonical (canonical_value (obj r))
    parent ← validate_parent r
    validate_upstream r parent.0
    validate_source r parent.1
    raise_if (not (is_text "source_canonical" (get "task_order" r))) wrong_order
    tasks ← tasks_of (get "tasks" r)
    validate_tasks 0 [] [] tasks
    require_hash r
