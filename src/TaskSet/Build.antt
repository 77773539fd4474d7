-- ===== src/TaskSet/Build.antt =====
-- backend/stage_task_set.py: a record is built, held in canonical form, and verified against its
-- workflow.
use bmd_compute.Prelude.{
  ℕ, zero, suc, String, not, Option, none, some, List, [], ◌∷◌, Result, ok, err, ◌>>=◌, ◌>>◌,
  raise_if, if◌then◌else◌,
}
use bmd_compute.Model.{
  StageType, StageSpec, WorkflowSpec, Json, int, str, arr, obj, pos, Items, nil, cons, Fields, end,
  field, get, put,
}
use bmd_compute.Serialisation.{stage_type_value}
use bmd_compute.Canonical.{canonical_value}
use bmd_compute.Canonical.Equality.{json_eq}
use bmd_compute.TaskSet.Values.{
  TaskSetError, Check, derived_task_set_materializer, mapping, attempt_id_of, is_text, below_one,
  not_canonical, not_canonical_text, outside_workflow, other_attempt, other_workflow,
  other_stage_type, other_methodology,
}
use bmd_compute.TaskSet.Validation.{
  stage_spec_sha256, workflow_spec_sha256, task_set_sha256, validate_stage_task_set_record,
}

-- `_workflow_stage`
abbrev pub stage_at : List StageSpec → ℕ → Result TaskSetError StageSpec
stage_at [] n = err outside_workflow
stage_at (s ∷ stages) zero = ok s
stage_at (s ∷ stages) (suc n) = stage_at stages n

unfoldable pub workflow_stage : WorkflowSpec → ℕ → Result TaskSetError StageSpec
workflow_stage workflow zero = err (below_one "stage_index")
workflow_stage workflow (suc n) = stage_at workflow.stages n

abbrev pub task_items : List (String × String) → Items
task_items [] = nil
task_items ((task_id, input_sha) ∷ tasks) =
    cons (obj (field "task_id" (str task_id) (field "input_sha256" (str input_sha) end)))
      (task_items tasks)

-- The arguments of `build_stage_task_set_record` beside the workflow. An index is a natural number.
pub record TaskSetSource : Type 0 where
  pub stage_index : ℕ
  pub submission_attempt_id : String
  pub upstream_stage_index : ℕ
  pub upstream_structure_sha256 : String
  pub source_schema : String
  pub source_schema_version : ℕ
  pub source_sha256 : String
  pub tasks : List (String × String)

abbrev pub record_body : TaskSetSource → StageType → String → String → String → Fields
record_body source t materializer workflow_sha stage_sha =
    field "schema" (str "bmd_compute.stage_task_set") (
      field "schema_version" (int (pos 1)) (
        field "parent"
          (obj (
            field "submission_attempt_id" (str source.submission_attempt_id) (
              field "workflow_sha256" (str workflow_sha) (
                field "stage_index" (int (pos source.stage_index)) (
                  field "stage_type" (str (stage_type_value t))
                    (field "stage_sha256" (str stage_sha) end))))))
          (field "upstream_structure"
            (obj (
              field "stage_index" (int (pos source.upstream_stage_index))
                (field "sha256" (str source.upstream_structure_sha256) end)))
            (field "source"
              (obj (
                field "materializer" (str materializer) (
                  field "schema" (str source.source_schema) (
                    field "schema_version" (int (pos source.source_schema_version))
                      (field "sha256" (str source.source_sha256) end)))))
              (field "task_order" (str "source_canonical")
                (field "tasks" (arr (task_items source.tasks)) end))))))

abbrev pub index_of : Option Json → ℕ
index_of (some (int (pos n))) = n
index_of _ = 0

module _ (digest : Json → String) where
  unfoldable pub build_stage_task_set_record :
      WorkflowSpec → TaskSetSource → Result TaskSetError Json
  build_stage_task_set_record workflow source = do
    stage ← workflow_stage workflow source.stage_index
    materializer ← derived_task_set_materializer stage.stage_type
    workflow_sha ← workflow_spec_sha256 digest workflow
    stage_sha ← stage_spec_sha256 digest stage
    let body = record_body source stage.stage_type materializer workflow_sha stage_sha
    hash ← task_set_sha256 digest body
    let r = put "task_set_sha256" (str hash) body
    validate_stage_task_set_record digest (obj r)
    ok (obj r)

  -- `StageTaskSet` holds the canonical form. `__post_init__` validates it again.
  unfoldable pub post_init : Json → Result TaskSetError Json
  post_init canonical = do
    validate_stage_task_set_record digest canonical
    elim (canonical_value canonical) [
      | none ↦ err not_canonical
      | some again ↦ if json_eq again canonical then ok canonical else err not_canonical_text
    ]

  unfoldable pub task_set_from_dict : Json → Result TaskSetError Json
  task_set_from_dict payload = do
    mapping (some payload) "task set"
    validate_stage_task_set_record digest payload
    elim (canonical_value payload) [
      | none ↦ err not_canonical
      | some canonical ↦ post_init canonical
    ]

  -- `verify_stage_task_set_parent` of a task set, which is a validated record.
  unfoldable pub verify_stage_task_set_parent : Json → WorkflowSpec → String → Check
  verify_stage_task_set_parent task_set workflow attempt_id = do
    r ← mapping (some task_set) "task set"
    parent ← mapping (get "parent" r) "parent"
    attempt ← attempt_id_of (some (str attempt_id))
    raise_if (not (is_text attempt (get "submission_attempt_id" parent))) other_attempt
    workflow_sha ← workflow_spec_sha256 digest workflow
    raise_if (not (is_text workflow_sha (get "workflow_sha256" parent))) other_workflow
    stage ← workflow_stage workflow (index_of (get "stage_index" parent))
    raise_if (not (is_text (stage_type_value stage.stage_type) (get "stage_type" parent)))
        other_stage_type
    stage_sha ← stage_spec_sha256 digest stage
    raise_if (not (is_text stage_sha (get "stage_sha256" parent))) other_methodology
    upstream ← mapping (get "upstream_structure" r) "upstream_structure"
    workflow_stage workflow (index_of (get "stage_index" upstream))
    ok tt
