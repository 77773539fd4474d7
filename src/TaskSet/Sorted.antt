-- ===== src/TaskSet/Sorted.antt =====
-- The canonical form of a record that is built.
use bmd_compute.Prelude.{String, some, List, [], ◌∷◌, ◌≡◌, refl}
use bmd_compute.Model.{
  StageType, int, str, arr, obj, pos, Items, nil, cons, Fields, end, field, put,
}
use bmd_compute.Serialisation.{stage_type_value}
use bmd_compute.Canonical.{canonical_value, canonical_items}
use bmd_compute.TaskSet.Build.{task_items, TaskSetSource, record_body}

-- The tasks with the keys of each in order.
abbrev pub sorted_items : List (String × String) → Items
sorted_items [] = nil
sorted_items ((task_id, input_sha) ∷ tasks) =
    cons (obj (field "input_sha256" (str input_sha) (field "task_id" (str task_id) end)))
      (sorted_items tasks)

canonical-task_items :
    (tasks : List (String × String))
    → canonical_items (task_items tasks) ≡ some (sorted_items tasks)
unfolding canonical_value
canonical-task_items [] = refl
canonical-task_items ((task_id, input_sha) ∷ tasks) = rw (canonical-task_items tasks) refl

canonical-sorted_items :
    (tasks : List (String × String))
    → canonical_items (sorted_items tasks) ≡ some (sorted_items tasks)
unfolding canonical_value
canonical-sorted_items [] = refl
canonical-sorted_items ((task_id, input_sha) ∷ tasks) = rw (canonical-sorted_items tasks) refl

-- What a record of the source contains beside it.
module _ (source : TaskSetSource) (t : StageType)
    (materializer workflow_sha stage_sha : String) where
  abbrev pub body : Fields
  body = record_body source t materializer workflow_sha stage_sha

  abbrev pub document : String → Fields
  document hash = put "task_set_sha256" (str hash) body

  -- The record with all keys in order, before and after the hash is added.
  abbrev pub sorted_with : (Fields → Fields) → Fields
  sorted_with hash =
      field "parent"
        (obj (
          field "stage_index" (int (pos source.stage_index)) (
            field "stage_sha256" (str stage_sha) (
              field "stage_type" (str (stage_type_value t)) (
                field "submission_attempt_id" (str source.submission_attempt_id)
                  (field "workflow_sha256" (str workflow_sha) end))))))
        (field "schema" (str "bmd_compute.stage_task_set") (
          field "schema_version" (int (pos 1)) (
            field "source"
              (obj (
                field "materializer" (str materializer) (
                  field "schema" (str source.source_schema) (
                    field "schema_version" (int (pos source.source_schema_version))
                      (field "sha256" (str source.source_sha256) end)))))
              (field "task_order" (str "source_canonical") (
                hash (
                  field "tasks" (arr (sorted_items source.tasks)) (
                    field "upstream_structure"
                      (obj (
                        field "sha256" (str source.upstream_structure_sha256)
                          (field "stage_index" (int (pos source.upstream_stage_index)) end)))
                      end)))))))

  abbrev pub sorted_body : Fields
  sorted_body = sorted_with (λ d. d)

  abbrev pub sorted_document : String → Fields
  sorted_document hash = sorted_with (field "task_set_sha256" (str hash))

  pub canonical-body : canonical_value (obj body) ≡ some (obj sorted_body)
  unfolding canonical_value
  canonical-body = rw (canonical-task_items source.tasks) refl

  pub canonical-document :
      (hash : String) → canonical_value (obj (document hash)) ≡ some (obj (sorted_document hash))
  unfolding canonical_value
  canonical-document hash = rw (canonical-task_items source.tasks) refl

  pub canonical-sorted_body : canonical_value (obj sorted_body) ≡ some (obj sorted_body)
  unfolding canonical_value
  canonical-sorted_body = rw (canonical-sorted_items source.tasks) refl

  pub canonical-sorted_document :
      (hash : String)
      → canonical_value (obj (sorted_document hash)) ≡ some (obj (sorted_document hash))
  unfolding canonical_value
  canonical-sorted_document hash = rw (canonical-sorted_items source.tasks) refl
