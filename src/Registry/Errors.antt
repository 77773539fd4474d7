-- ===== src/Registry/Errors.antt =====
-- The refusals of backend/calculations/registry.py: a `CalculationValidationError` is what its
-- message names. `value_error` is the ValueError of a lookup by enumeration value.
use bmd_compute.Prelude.{ℕ, List, Result}
use bmd_compute.Model.{StageType, Theory, Modifier, ModifierSet, Purpose}

pub data ValidationError : Type 0 where
  value_error : ValidationError
  stage_not_executable : StageType → ValidationError
  unsupported_options : StageType → ValidationError
  stage_not_available : Theory → StageType → ValidationError
  modifiers_not_available : StageType → Theory → ModifierSet → ValidationError
  dispersion_option_without_modifier : ValidationError
  dispersion_needs_pbe : ValidationError
  dispersion_needs_relax_or_static : ValidationError
  unsupported_dispersion_method : ValidationError
  frozen_dft_u_without_modifier : ValidationError
  frozen_dft_u_misplaced : ValidationError
  frozen_dft_u_malformed : ValidationError
  no_stages : ValidationError
  inconsistent_dispersion : ValidationError
  inconsistent_dft_u : ℕ → ValidationError
  inconsistent_soc : ℕ → ValidationError
  stage_not_final : StageType → ValidationError
  stage_needs_static : StageType → ℕ → ValidationError
  stage_needs_same_theory : StageType → ValidationError
  unsupported_combination : Purpose → Theory → ModifierSet → ValidationError
  hse06_soc_not_supported : List ℕ → ValidationError
  not_a_stage_workflow : ValidationError
  dimensionality_analysis_failed : ValidationError
  automatic_treatment_failed : Modifier → StageType → Theory → ValidationError

-- A check raises or returns nothing.
abbrev pub Check : Type 0
Check = Result ValidationError (Unit {0})
