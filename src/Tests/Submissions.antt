-- ===== src/Tests/Submissions.antt =====
-- The names, directories and script fields of submissions.
use bmd_compute.Prelude.{ℕ, true, none, some, List, [], ◌∷◌, length, ok, err, ◌≡◌, refl, ◌↔◌}
use bmd_compute.Prelude.Text.{codes}
use bmd_compute.Registry.StageDirectories.{workflow_stage_directories, stage_directory}
use bmd_compute.RunRecords.{
  Directories, Mapped, validate_stage_directories, names_no_stage, names_twice, not_every_stage,
}
use bmd_compute.RunRecords.Directories.{Names, validate_stage_directories-Names}
use bmd_compute.Submission.{
  stage_dirs, sanitize_label, run_name, is_identifier, require_pattern, ScriptFields,
  validate_submission_script_fields, unsafe_field,
}
use bmd_compute.Submission.StageDirectories.{stage_dirs-Names}
use bmd_compute.Submission.PlainFields.{PlainFields}
use bmd_compute.Submission.Scripts.{validate_submission_script_fields-PlainFields}
use bmd_compute.Submission.Labels.{starts_alphanumeric, run_name_accepted_iff}
use bmd_compute.Tests.Workflows.{dos_workflow, accepts_dos}

abbrev two_directories : Directories
two_directories =
    (codes "stage_02", some (codes "/runs/a/stage_02"))
    ∷ (codes "stage_01", some (codes "/runs/a/stage_01"))
    ∷ []

abbrev two_mapped : Mapped
two_mapped = (1, codes "/runs/a/stage_01") ∷ (2, codes "/runs/a/stage_02") ∷ []

accepts_two : validate_stage_directories 2 two_directories ≡ ok two_mapped
unfolding validate_stage_directories bmd_compute.RunRecords.map_directories
    bmd_compute.RunRecords.stage_index_from_directory_id bmd_compute.Prelude.Text.codes_eq
    bmd_compute.Prelude.Decimal.number
accepts_two = refl

refuses_incomplete : validate_stage_directories 3 two_directories ≡ err not_every_stage
unfolding validate_stage_directories bmd_compute.RunRecords.map_directories
    bmd_compute.RunRecords.stage_index_from_directory_id bmd_compute.Prelude.Text.codes_eq
    bmd_compute.Prelude.Decimal.number
refuses_incomplete = refl

validate_stage_directories-Names_example : Names 2 two_directories two_mapped
validate_stage_directories-Names_example =
    validate_stage_directories-Names 2 two_directories two_mapped accepts_two

abbrev dos_directories : List (List ℕ)
dos_directories = stage_directory 1 ∷ stage_directory 2 ∷ stage_directory 3 ∷ []

names_dos_directories : workflow_stage_directories dos_workflow ≡ ok dos_directories
unfolding workflow_stage_directories bmd_compute.Registry.StageDirectories.directories_for
names_dos_directories = rw accepts_dos refl

stage_dirs-Names_example :
    (mapped : Mapped) × (validate_stage_directories
        (length dos_workflow.stages)
        (stage_dirs (codes "/runs/a") dos_directories)
      ≡ ok mapped)
    × Names (length dos_workflow.stages) (stage_dirs (codes "/runs/a") dos_directories) mapped
stage_dirs-Names_example =
    stage_dirs-Names (codes "/runs/a") dos_workflow dos_directories names_dos_directories

abbrev fields : ScriptFields
fields = record {
  run_name = codes "bulk-20260101_120000";
  partition = codes "compute";
  account = codes "chem-1";
  walltime = codes "24:00:00";
  attempt_comment = some (codes "bmd_attempt:01234567-89ab-cdef-0123-456789abcdef");
  paths = (codes "paths.run_dir", codes "/scratch/flows/bulk-20260101_120000") ∷ [];
  filenames = (codes "runner.script_name", codes "run_job.py") ∷ [];
  modules = codes "vasp/6.4.2" ∷ [];
}

accepts_fields : validate_submission_script_fields fields ≡ ok tt
unfolding validate_submission_script_fields require_pattern
    bmd_compute.Submission.require_safe_remote_path bmd_compute.Submission.require_relative_filename
    bmd_compute.Prelude.Text.codes_eq
accepts_fields = refl

validate_submission_script_fields-PlainFields_example : PlainFields fields
validate_submission_script_fields-PlainFields_example =
    (validate_submission_script_fields-PlainFields fields).0 accepts_fields

abbrev timestamp : List ℕ
timestamp = codes "20260101_120000"

sanitizes : sanitize_label (codes "  My bulk; run!_ ") ≡ codes "My-bulk-run"
unfolding sanitize_label bmd_compute.Submission.dash_spaces bmd_compute.Submission.keep
    bmd_compute.Submission.strip_separators bmd_compute.Prelude.Text.strip
    bmd_compute.Prelude.Text.is_space
sanitizes = refl

-- A label that begins with a dash.
refuses_dash :
    require_pattern (codes "run name") (is_identifier 96) (run_name (codes "-bulk") timestamp)
    ≡ err (unsafe_field (codes "run name"))
unfolding require_pattern run_name sanitize_label bmd_compute.Submission.dash_spaces
    bmd_compute.Submission.keep bmd_compute.Submission.strip_separators
    bmd_compute.Prelude.Text.strip bmd_compute.Prelude.Text.is_space
refuses_dash = refl

run_name_accepted_iff_example :
    (require_pattern (codes "run name") (is_identifier 96) (run_name (codes "bulk") timestamp)
      ≡ ok tt)
    ↔ (starts_alphanumeric (sanitize_label (codes "bulk")) ≡ true)
run_name_accepted_iff_example = run_name_accepted_iff (codes "bulk") timestamp refl refl
