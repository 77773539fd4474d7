-- ===== src/Registry/DesiredOutputs.antt =====
-- backend/calculations/registry.py: the Desired Outputs and their workflows.
use bmd_compute.Prelude.{
  String, Bool, true, false, ◌&&◌, Option, none, some, List, [], ◌∷◌, Result, ok, err, ◌>>=◌,
  if◌then◌else◌,
}
use bmd_compute.Prelude.Text.{codes, codes_eq, strip}
use bmd_compute.Model.{
  Theory, StageType, no_modifiers, StageSpec, WorkflowSpec, is_theory, is_stage, end,
}
use bmd_compute.Registry.Errors.{ValidationError}
use bmd_compute.Registry.Workflow.{validate_workflow_spec}

abbrev pub plain_stage : StageType → Theory → StageSpec
plain_stage t theory = record {
  stage_type = t;
  theory = theory;
  modifiers = no_modifiers;
  label = none;
  options = end;
}

abbrev pub recipe_workflow : String → List StageSpec → WorkflowSpec
recipe_workflow name stages = record { stages = stages; label = none; recipe = some name }

-- `_desired_output_workflows`: names and workflows, without the texts. `custom` has no workflow.
abbrev pub desired_output_workflows : List (String × Option WorkflowSpec)
desired_output_workflows =
    (
      "energy_only",
      some (recipe_workflow "energy_only" (plain_stage StageType.static Theory.pbe ∷ [])),
    )
    ∷ (
      "relaxed_structure",
      some (
          recipe_workflow "relaxed_structure"
            (plain_stage StageType.relax Theory.pbe ∷ plain_stage StageType.relax Theory.pbe ∷ [])),
    )
    ∷ (
      "electronic_dos",
      some (
          recipe_workflow "electronic_dos" (
            plain_stage StageType.relax Theory.pbe
            ∷ plain_stage StageType.static Theory.hse06
            ∷ plain_stage StageType.dos Theory.hse06
            ∷ [])),
    )
    ∷ (
      "electronic_band_structure",
      some (
          recipe_workflow "electronic_band_structure" (
            plain_stage StageType.relax Theory.pbe
            ∷ plain_stage StageType.static Theory.hse06
            ∷ plain_stage StageType.band_structure Theory.hse06
            ∷ [])),
    )
    ∷ ("custom", none)
    ∷ []

abbrev validated :
    Result ValidationError WorkflowSpec → Result ValidationError (Option WorkflowSpec)
validated (ok w) = ok (some w)
validated (err e) = err e

find_output :
    List (String × Option WorkflowSpec) → String → Result ValidationError (Option WorkflowSpec)
find_output [] value = ok none
find_output ((name, none) ∷ table) value = find_output table value
find_output ((name, some w) ∷ table) value =
    let rest = find_output table value in
    if codes_eq (codes name) (strip (codes value))
    then validated (validate_workflow_spec w)
    else rest

unfoldable pub desired_output_workflow_spec : String → Result ValidationError (Option WorkflowSpec)
unfolding find_output
desired_output_workflow_spec value = find_output desired_output_workflows value

-- Two workflows have stages of the same types and theories.
abbrev same_shape : List StageSpec → List StageSpec → Bool
same_shape [] [] = true
same_shape (s ∷ stages) (t ∷ others) =
    is_stage s.stage_type t.stage_type && is_theory s.theory t.theory && same_shape stages others
same_shape _ _ = false

find_shape : List (String × Option WorkflowSpec) → List StageSpec → Result ValidationError String
find_shape [] stages = ok "custom"
find_shape ((name, none) ∷ table) stages = find_shape table stages
find_shape ((name, some w) ∷ table) stages =
    let rest = find_shape table stages in
    do
      candidate ← validate_workflow_spec w
      if same_shape stages candidate.stages then ok name else rest

unfoldable pub desired_output_from_workflow_spec : WorkflowSpec → Result ValidationError String
unfolding find_shape
desired_output_from_workflow_spec workflow = do
  w ← validate_workflow_spec workflow
  find_shape desired_output_workflows w.stages
