-- ===== src/Registry/StageDirectories.antt =====
-- backend/calculations/registry.py: the directories of a workflow's stages. A name is the list of its
-- code points.
use bmd_compute.Prelude.{
  ℕ, ◌+◌, Bool, ◌&&◌, Option, none, some, List, [], ◌∷◌, ◌++◌, Result, ok, ◌>>=◌, all, length, leb,
  ◌==◌, if◌then◌else◌,
}
use bmd_compute.Prelude.Text.{codes}
use bmd_compute.Prelude.Decimal.{padded}
use bmd_compute.Model.{StageSpec, StageType, Theory, WorkflowSpec, is_stage, is_theory}
use bmd_compute.Registry.Errors.{ValidationError}
use bmd_compute.Registry.Workflow.{validate_workflow_spec}

-- `f"stage_{index:02d}"`
unfoldable pub stage_directory : ℕ → List ℕ
stage_directory index = codes "stage_" ++ padded 2 index

-- From `index` on, one for each stage.
abbrev pub numbered : ℕ → List StageSpec → List (List ℕ)
numbered index [] = []
numbered index (s ∷ stages) = stage_directory index ∷ numbered (index + 1) stages

abbrev pub is_pbe_relaxation : StageSpec → Bool
is_pbe_relaxation s = is_stage s.stage_type StageType.relax && is_theory s.theory Theory.pbe

unfoldable pub directories_for : List StageSpec → List (List ℕ)
directories_for stages =
    if leb (length stages) 1
    then []
    else if (length stages == 2) && all is_pbe_relaxation stages
    then codes "relax_01" ∷ codes "relax_02" ∷ []
    else numbered 1 stages

unfoldable pub workflow_stage_directories : WorkflowSpec → Result ValidationError (List (List ℕ))
workflow_stage_directories workflow = do
  normalized ← validate_workflow_spec workflow
  ok (directories_for normalized.stages)

abbrev pub last_of : List (List ℕ) → Option (List ℕ)
last_of [] = none
last_of (d ∷ []) = some d
last_of (_ ∷ d ∷ directories) = last_of (d ∷ directories)

unfoldable pub workflow_result_stage_directory :
    WorkflowSpec → Result ValidationError (Option (List ℕ))
workflow_result_stage_directory workflow = do
  directories ← workflow_stage_directories workflow
  ok (last_of directories)
