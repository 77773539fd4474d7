-- ===== src/Admission.antt =====
-- backend/calculations/admission.py: the workflows that are accepted as new calculations.
pub mod Narrows
use bmd_compute.Prelude.{
  ℕ, ◌+◌, Bool, true, false, not, ◌&&◌, ◌||◌, List, [], ◌∷◌, Result, ok, err, ◌>>=◌, any,
  if◌then◌else◌,
}
use bmd_compute.Model.{Theory, Modifier, soc, hse06, StageSpec, WorkflowSpec, contains, is_theory}
use bmd_compute.Registry.Errors.{ValidationError, hse06_soc_not_supported}
use bmd_compute.Registry.Workflow.{validate_workflow_spec}

abbrev pub unsupported_new_calculation_combinations : List (Theory × Modifier)
unsupported_new_calculation_combinations = (hse06, soc) ∷ []

abbrev pub same_modifier : Modifier → Modifier → Bool
same_modifier Modifier.soc Modifier.soc = true
same_modifier Modifier.dft_u Modifier.dft_u = true
same_modifier Modifier.dispersion Modifier.dispersion = true
same_modifier Modifier.spin_polarized Modifier.spin_polarized = true
same_modifier Modifier.gamma_only Modifier.gamma_only = true
same_modifier Modifier.ions_only Modifier.ions_only = true
same_modifier _ _ = false

unfoldable pub stage_is_admissible_for_new_calculation : StageSpec → Bool
stage_is_admissible_for_new_calculation stage = not (
    any (λ (theory, modifier). is_theory stage.theory theory && contains stage.modifiers modifier)
      unsupported_new_calculation_combinations)

unfoldable pub modifier_is_admissible_for_new_theory : Theory → Modifier → Bool
modifier_is_admissible_for_new_theory theory modifier = not (
    any (λ (t, m). is_theory theory t && same_modifier modifier m)
      unsupported_new_calculation_combinations)

-- The numbers of the inadmissible stages, counted from `index`.
pub inadmissible_from : ℕ → List StageSpec → List ℕ
inadmissible_from index [] = []
inadmissible_from index (s ∷ stages) =
    let rest = inadmissible_from (index + 1) stages in
    if not (stage_is_admissible_for_new_calculation s) then index ∷ rest else rest

unfoldable pub inadmissible_stage_indices : WorkflowSpec → List ℕ
unfolding inadmissible_from
inadmissible_stage_indices workflow = inadmissible_from 1 workflow.stages

accept_unless : List ℕ → WorkflowSpec → Result ValidationError WorkflowSpec
accept_unless [] w = ok w
accept_unless (i ∷ blocked) w = err (hse06_soc_not_supported (i ∷ blocked))

unfoldable pub require_admissible_new_calculation :
    WorkflowSpec → Result ValidationError WorkflowSpec
unfolding accept_unless
require_admissible_new_calculation workflow = do
  normalized ← validate_workflow_spec workflow
  accept_unless (inadmissible_stage_indices normalized) normalized
