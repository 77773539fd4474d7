-- ===== src/Registry/Workflow.antt =====
-- The checks of a whole workflow (backend/calculations/registry.py, `validate_workflow_spec`).
pub mod WellFormed
use bmd_compute.Prelude.{
  ℕ, ◌+◌, Bool, true, false, not, ◌&&◌, ◌||◌, Option, none, some, List, [], ◌∷◌, Result, ok, err,
  ◌>>=◌, ◌>>◌, raise_if, if◌then◌else◌,
}
use bmd_compute.Model.{
  StageSpec, WorkflowSpec, StageType, Theory, Modifier, contains, is_theory, is_stage,
}
use bmd_compute.Policy.Dispersion.{DispersionMethod, dftd3, dftd3_bj}
use bmd_compute.Policy.StageDefinitions.{
  stage_reads_previous_charge_density, stage_inherits_previous_band_count,
}
use bmd_compute.Registry.Errors.{
  ValidationError, Check, value_error, no_stages, inconsistent_dispersion, inconsistent_dft_u,
  inconsistent_soc, stage_not_final, stage_needs_static, stage_needs_same_theory,
}
use bmd_compute.Registry.Support.{
  is_terminal_analysis_stage, is_relax_or_static, is_user_stage_option_key, stage_dispersion_method,
  validate_stage_option_keys, validate_stage_spec,
}

-- `[validate_stage_spec(stage) for stage in stages]`
unfoldable pub validate_stages : List StageSpec → Result ValidationError (List StageSpec)
validate_stages [] = ok []
validate_stages (s ∷ stages) = do
  t ← validate_stage_spec s
  rest ← validate_stages stages
  ok (t ∷ rest)

abbrev pub same_method : Option DispersionMethod → Option DispersionMethod → Bool
same_method none none = true
same_method (some dftd3) (some dftd3) = true
same_method (some dftd3_bj) (some dftd3_bj) = true
same_method _ _ = false

abbrev is_pbe_relax_or_static : StageSpec → Bool
is_pbe_relax_or_static s = is_relax_or_static s.stage_type && is_theory s.theory Theory.pbe

-- The body of the loop over `zip(stages, stages[1:])`.
unfoldable pub dispersion_pair : StageSpec → StageSpec → Check
dispersion_pair previous current =
    if not (is_pbe_relax_or_static previous && is_pbe_relax_or_static current) then ok tt else do
      previous_method ← stage_dispersion_method previous
      current_method ← stage_dispersion_method current
      raise_if (not (same_method previous_method current_method)) inconsistent_dispersion

abbrev differ : Bool → Bool → Bool
differ true b = not b
differ false b = b

-- The body of the loop of `_validate_previous_stage_soc_consistency`; `index` is 1-based and names
-- the current stage.
soc_check : ℕ → StageSpec → StageSpec → Bool → Bool → Check
soc_check index previous current reads_charge_density inherits_band_count =
    if not reads_charge_density && not inherits_band_count
    then ok tt
    else if reads_charge_density
        && differ (contains previous.modifiers Modifier.dft_u)
            (contains current.modifiers Modifier.dft_u)
    then err (inconsistent_dft_u index)
    else raise_if
        (differ (contains previous.modifiers Modifier.soc)
          (contains current.modifiers Modifier.soc))
        (inconsistent_soc index)

abbrev or_value_error : Option Bool → Result ValidationError Bool
or_value_error none = err value_error
or_value_error (some b) = ok b

unfoldable pub soc_pair : ℕ → StageSpec → StageSpec → Check
unfolding soc_check
soc_pair index previous current = do
  reads ← or_value_error (stage_reads_previous_charge_density current.stage_type current.theory)
  inherits ← or_value_error (stage_inherits_previous_band_count current.stage_type current.theory)
  soc_check index previous current reads inherits

abbrev pub for_pairs : (ℕ → StageSpec → StageSpec → Check) → ℕ → List StageSpec → Check
for_pairs body index [] = ok tt
for_pairs body index (s ∷ []) = ok tt
for_pairs body index (s ∷ t ∷ stages) = body index s t >> for_pairs body (index + 1) (t ∷ stages)

unfoldable pub validate_dispersion_workflow_consistency : List StageSpec → Check
validate_dispersion_workflow_consistency = for_pairs (λ _. dispersion_pair) 2

unfoldable pub validate_previous_stage_soc_consistency : List StageSpec → Check
validate_previous_stage_soc_consistency = for_pairs soc_pair 2

unfoldable pub analysis_stage_accepts_precursor : StageSpec → StageSpec → Bool
analysis_stage_accepts_precursor stage previous =
    is_theory previous.theory stage.theory
    || (is_stage stage.stage_type StageType.dos
        && is_theory stage.theory Theory.hse06
        && (is_theory previous.theory Theory.pbe || is_theory previous.theory Theory.hse06))

abbrev pub is_last : List StageSpec → Bool
is_last [] = true
is_last _ = false

-- The stage before is missing at index 0.
precursor_check : ℕ → Option StageSpec → StageSpec → Check
unfolding analysis_stage_accepts_precursor
precursor_check number none stage = err (stage_needs_static stage.stage_type number)
precursor_check number (some previous) stage =
    if not (is_stage previous.stage_type StageType.static)
    then err (stage_needs_static stage.stage_type number)
    else raise_if (not (analysis_stage_accepts_precursor stage previous))
        (stage_needs_same_theory stage.stage_type)

-- The body of the last loop; `rest` is the stages after this one.
unfoldable pub terminal_check : ℕ → Option StageSpec → StageSpec → List StageSpec → Check
unfolding precursor_check
terminal_check number previous stage rest =
    if not (is_terminal_analysis_stage stage.stage_type)
    then ok tt
    else if not (is_last rest)
    then err (stage_not_final stage.stage_type)
    else precursor_check number previous stage

unfoldable pub terminal_loop : ℕ → Option StageSpec → List StageSpec → Check
terminal_loop number previous [] = ok tt
terminal_loop number previous (s ∷ stages) =
    terminal_check number previous s stages >> terminal_loop (number + 1) (some s) stages

require_stages : List StageSpec → Check
require_stages [] = err no_stages
require_stages (s ∷ stages) = ok tt

unfoldable pub validate_workflow_spec : WorkflowSpec → Result ValidationError WorkflowSpec
unfolding require_stages
validate_workflow_spec workflow = do
  stages ← validate_stages workflow.stages
  require_stages stages
  validate_dispersion_workflow_consistency stages
  validate_previous_stage_soc_consistency stages
  terminal_loop 1 none stages
  ok (record workflow { stages = stages })

unfoldable pub validate_user_option_keys : List StageSpec → Check
validate_user_option_keys [] = ok tt
validate_user_option_keys (s ∷ stages) =
    validate_stage_option_keys is_user_stage_option_key s >> validate_user_option_keys stages

-- What a client may send as a Custom workflow.
unfoldable pub validate_user_workflow_spec : WorkflowSpec → Result ValidationError WorkflowSpec
validate_user_workflow_spec workflow =
    validate_user_option_keys workflow.stages >> validate_workflow_spec workflow
