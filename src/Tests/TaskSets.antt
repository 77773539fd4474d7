-- ===== src/Tests/TaskSets.antt =====
-- A task set of one displacement, for a workflow of a relaxation and a phonon stage.
use bmd_compute.Prelude.{String, none, some, List, [], ◌∷◌, ok, ◌≡◌, refl}
use bmd_compute.Model.{Theory, StageType, StageSpec, WorkflowSpec, no_modifiers, Json, obj}
use bmd_compute.Serialisation.{stage_fields, workflow_fields, workflow_from}
use bmd_compute.Canonical.{canonical_value}
use bmd_compute.Serialisation.RoundTrip.{stage_from-fields, workflow_from-fields}
use bmd_compute.TaskSet.Validation.{
  canonical_sha256, stage_spec_sha256, workflow_spec_sha256, task_set_sha256,
  validate_stage_task_set_record,
}
use bmd_compute.TaskSet.Build.{
  record_body, TaskSetSource, build_stage_task_set_record, task_set_from_dict,
  verify_stage_task_set_parent,
}
use bmd_compute.TaskSet.Consistent.{Consistent, validate_stage_task_set_record-Consistent}
use bmd_compute.TaskSet.Sorted.{document}
use bmd_compute.TaskSet.Parents.{build-verifies}
use bmd_compute.Tests.Workflows.{stage}

abbrev some_hash : String
some_hash = "aaaaaaaaaaaaaaaaaaaaaaaaaaaaaaaaaaaaaaaaaaaaaaaaaaaaaaaaaaaaaaaa"

-- A digest for the tests.
abbrev digest : Json → String
digest value = some_hash

abbrev phonon_stage : StageSpec
phonon_stage = stage StageType.phonon_forces Theory.pbe no_modifiers

abbrev phonon_workflow : WorkflowSpec
phonon_workflow = record {
  stages = stage StageType.relax Theory.pbe no_modifiers ∷ phonon_stage ∷ [];
  label = some "phonons";
  recipe = none;
}

abbrev source : TaskSetSource
source = record {
  stage_index = 2;
  submission_attempt_id = "01234567-89ab-cdef-0123-456789abcdef";
  upstream_stage_index = 1;
  upstream_structure_sha256 = some_hash;
  source_schema = "bmd_compute.phonon_displacement_plan";
  source_schema_version = 1;
  source_sha256 = some_hash;
  tasks = ("disp_001", some_hash) ∷ [];
}

abbrev payload : Json
payload = obj (
    document source StageType.phonon_forces "bmd_compute.phonon_displacement_plan" some_hash
      some_hash some_hash)

workflow_from-fields_example :
    workflow_from (obj (workflow_fields phonon_workflow)) ≡ ok phonon_workflow
workflow_from-fields_example = workflow_from-fields phonon_workflow

hashes_workflow_fields :
    canonical_sha256 digest (obj (workflow_fields phonon_workflow)) ≡ ok some_hash
unfolding canonical_sha256 canonical_value bmd_compute.Canonical.insert_field workflow_fields
    stage_fields bmd_compute.Serialisation.sorted_values
hashes_workflow_fields = refl

hashes_workflow : workflow_spec_sha256 digest phonon_workflow ≡ ok some_hash
unfolding workflow_spec_sha256
hashes_workflow =
    rw (workflow_spec_sha256, workflow_from-fields phonon_workflow) hashes_workflow_fields

hashes_stage_fields : canonical_sha256 digest (obj (stage_fields phonon_stage)) ≡ ok some_hash
unfolding canonical_sha256 canonical_value bmd_compute.Canonical.insert_field stage_fields
    bmd_compute.Serialisation.sorted_values
hashes_stage_fields = refl

hashes_stage : stage_spec_sha256 digest phonon_stage ≡ ok some_hash
unfolding stage_spec_sha256
hashes_stage = rw (stage_spec_sha256, stage_from-fields phonon_stage) hashes_stage_fields

validates_payload : validate_stage_task_set_record digest payload ≡ ok tt
unfolding validate_stage_task_set_record bmd_compute.TaskSet.Values.mapping
    bmd_compute.TaskSet.Values.exact_keys bmd_compute.TaskSet.Values.require_version
    bmd_compute.TaskSet.Values.positive_int bmd_compute.TaskSet.Values.sha
    bmd_compute.TaskSet.Values.attempt_id_of bmd_compute.TaskSet.Values.is_attempt_id
    bmd_compute.TaskSet.Values.stage_type_of bmd_compute.TaskSet.Values.validate_task_id
    bmd_compute.TaskSet.Validation.validate_parent bmd_compute.TaskSet.Validation.validate_upstream
    bmd_compute.TaskSet.Validation.validate_source bmd_compute.TaskSet.Validation.tasks_of
    bmd_compute.TaskSet.Validation.validate_tasks bmd_compute.TaskSet.Validation.validate_task
    bmd_compute.TaskSet.Validation.require_hash task_set_sha256 canonical_sha256 canonical_value
    bmd_compute.Canonical.insert_field bmd_compute.Canonical.task_id_for_index
    bmd_compute.Prelude.Decimal.padded bmd_compute.Prelude.Decimal.decimal
    bmd_compute.Prelude.Decimal.digits_before bmd_compute.Prelude.Text.codes_eq
    bmd_compute.Policy.Incar.pop
validates_payload = refl

hashes_body :
    task_set_sha256 digest (
      record_body source StageType.phonon_forces "bmd_compute.phonon_displacement_plan" some_hash
        some_hash)
    ≡ ok some_hash
unfolding task_set_sha256 canonical_sha256 canonical_value bmd_compute.Canonical.insert_field
    bmd_compute.Policy.Incar.pop
hashes_body = refl

builds_payload : build_stage_task_set_record digest phonon_workflow source ≡ ok payload
unfolding build_stage_task_set_record bmd_compute.TaskSet.Build.workflow_stage
builds_payload = rw (hashes_workflow, hashes_stage, hashes_body, validates_payload) refl

validate_stage_task_set_record-Consistent_example : Consistent digest payload
validate_stage_task_set_record-Consistent_example =
    validate_stage_task_set_record-Consistent digest payload validates_payload

build-verifies_example :
    (task_set : Json) × (task_set_from_dict digest payload ≡ ok task_set)
    × (verify_stage_task_set_parent digest task_set phonon_workflow source.submission_attempt_id
        ≡ ok tt)
    × ((other : WorkflowSpec) (attempt_id : String)
        → verify_stage_task_set_parent digest task_set other attempt_id ≡ ok tt
        → (attempt_id ≡ source.submission_attempt_id)
          × (workflow_spec_sha256 digest other ≡ workflow_spec_sha256 digest phonon_workflow))
build-verifies_example = build-verifies digest phonon_workflow source payload builds_payload
