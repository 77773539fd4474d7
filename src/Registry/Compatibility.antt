-- ===== src/Registry/Compatibility.antt =====
-- backend/calculations/registry.py: the calculation specifications that predate stage workflows,
-- and their translation to workflows and back.
pub mod RoundTrip
use bmd_compute.Prelude.{
  String, Bool, true, false, not, ◌&&◌, Option, none, some, List, [], ◌∷◌, map, Result, ok, err,
  ◌>>=◌, ◌>>◌, all, any, if◌then◌else◌,
}
use bmd_compute.Model.{
  Purpose, Theory, StageType, Modifier, ModifierSet, contains, add, discard, is_subset,
  no_modifiers, CalculationSpec, StageSpec, WorkflowSpec, is_theory, Fields, end,
}
use bmd_compute.Registry.Errors.{ValidationError, unsupported_combination, not_a_stage_workflow}
use bmd_compute.Registry.Workflow.{validate_workflow_spec}

abbrev relax_static_modifiers : ModifierSet
relax_static_modifiers =
    add Modifier.spin_polarized
      (add Modifier.dft_u (add Modifier.dispersion (add Modifier.gamma_only no_modifiers)))

abbrev static_modifiers : ModifierSet
static_modifiers = add Modifier.soc relax_static_modifiers

abbrev analysis_workflow_modifiers : ModifierSet
analysis_workflow_modifiers =
    add Modifier.spin_polarized (add Modifier.dft_u (add Modifier.gamma_only no_modifiers))

abbrev hse06_single_stage_modifiers : ModifierSet
hse06_single_stage_modifiers = add Modifier.spin_polarized (add Modifier.gamma_only no_modifiers)

abbrev hse06_static_modifiers : ModifierSet
hse06_static_modifiers =
    add Modifier.spin_polarized (add Modifier.soc (add Modifier.gamma_only no_modifiers))

abbrev named_if : Bool → String → Option String
named_if true name = some name
named_if false name = none

-- The lookup in the table that `_build_supported_compatibility_workflows` fills: the legacy name
-- of a purpose, a theory and a set of modifiers, each set being a subset of those of its loop.
abbrev pub compatibility_workflow : Purpose → Theory → ModifierSet → Option String
compatibility_workflow Purpose.static Theory.pbe m =
    named_if (is_subset m static_modifiers) "static"
compatibility_workflow Purpose.relax Theory.pbe m =
    if contains m Modifier.ions_only
    then named_if (is_subset (discard Modifier.ions_only m) relax_static_modifiers) "relax_ions"
    else named_if (is_subset m relax_static_modifiers) "relax"
compatibility_workflow Purpose.relax_static Theory.pbe m =
    named_if (is_subset m relax_static_modifiers) "relax_static"
compatibility_workflow Purpose.double_relax Theory.pbe m =
    named_if (is_subset m relax_static_modifiers) "double_relax"
compatibility_workflow Purpose.dos Theory.pbe m =
    named_if (is_subset m analysis_workflow_modifiers) "dos"
compatibility_workflow Purpose.band_structure Theory.pbe m =
    named_if (is_subset m analysis_workflow_modifiers && not (contains m Modifier.gamma_only))
      "band_structure"
compatibility_workflow Purpose.relax Theory.hse06 m =
    named_if (is_subset m hse06_single_stage_modifiers) "relax"
compatibility_workflow Purpose.relax_static Theory.hse06 m =
    named_if (is_subset m hse06_single_stage_modifiers) "relax_static"
compatibility_workflow Purpose.static Theory.hse06 m =
    named_if (is_subset m hse06_static_modifiers) "static"
compatibility_workflow _ _ m = none

unfoldable pub legacy_workflow_from_spec : CalculationSpec → Result ValidationError String
legacy_workflow_from_spec spec =
    elim (compatibility_workflow spec.purpose spec.theory spec.modifiers) [
      | none ↦ err (unsupported_combination spec.purpose spec.theory spec.modifiers)
      | some name ↦ ok name
    ]

unfoldable pub validate_calculation_spec : CalculationSpec → Result ValidationError CalculationSpec
validate_calculation_spec spec =
    elim (compatibility_workflow spec.purpose spec.theory spec.modifiers) [
      | none ↦ err (unsupported_combination spec.purpose spec.theory spec.modifiers)
      | some name ↦ ok spec
    ]

abbrev pub purpose_stage_types : Purpose → Option (List StageType)
purpose_stage_types Purpose.relax = some (StageType.relax ∷ [])
purpose_stage_types Purpose.static = some (StageType.static ∷ [])
purpose_stage_types Purpose.relax_static = some (StageType.relax ∷ StageType.static ∷ [])
purpose_stage_types Purpose.double_relax = some (StageType.relax ∷ StageType.relax ∷ [])
purpose_stage_types Purpose.dos = some (StageType.relax ∷ StageType.static ∷ StageType.dos ∷ [])
purpose_stage_types Purpose.band_structure =
    some (StageType.relax ∷ StageType.static ∷ StageType.band_structure ∷ [])
purpose_stage_types Purpose.dielectric = none

abbrev pub shared_stage : CalculationSpec → StageType → StageSpec
shared_stage spec t = record {
  stage_type = t;
  theory = spec.theory;
  modifiers = spec.modifiers;
  label = none;
  options = end;
}

shared_stages : CalculationSpec → Option (List StageType) → Result ValidationError (List StageSpec)
shared_stages spec none = err not_a_stage_workflow
shared_stages spec (some types) = ok (map (shared_stage spec) types)

unfoldable pub workflow_spec_from_calculation_spec :
    CalculationSpec → Result ValidationError WorkflowSpec
unfolding shared_stages validate_calculation_spec legacy_workflow_from_spec
workflow_spec_from_calculation_spec spec = do
  normalized ← validate_calculation_spec spec
  stages ← shared_stages normalized (purpose_stage_types normalized.purpose)
  recipe ← legacy_workflow_from_spec normalized
  validate_workflow_spec
      (record { stages = stages; label = normalized.label; recipe = some recipe })

abbrev has_options : StageSpec → Bool
has_options s = elim s.options [ end ↦ false | _ ↦ true ]

abbrev same_modifiers : ModifierSet → ModifierSet → Bool
same_modifiers a b = is_subset a b && is_subset b a

-- `stages` all have the theory and the modifiers of `first`.
abbrev pub shares_policy : StageSpec → List StageSpec → Bool
shares_policy first =
    all (λ s. is_theory s.theory first.theory && same_modifiers s.modifiers first.modifiers)

abbrev spec_of : Purpose → StageSpec → WorkflowSpec → CalculationSpec
spec_of purpose s w = record {
  purpose = purpose;
  theory = s.theory;
  modifiers = s.modifiers;
  label = w.label;
}

-- A refusal is passed on.
abbrev raising :
    Result ValidationError CalculationSpec → Result ValidationError (Option CalculationSpec)
raising (ok c) = ok (some c)
raising (err e) = err e

-- `except CalculationValidationError: return None`
abbrev catching :
    Result ValidationError CalculationSpec → Result ValidationError (Option CalculationSpec)
catching (ok c) = ok (some c)
catching (err e) = ok none

-- The choice by the stage types, for stages without options.
choose :
    WorkflowSpec → List StageType → List StageSpec → Result ValidationError (Option CalculationSpec)
unfolding validate_calculation_spec
choose w (StageType.relax ∷ []) (s ∷ stages) =
    raising (validate_calculation_spec (spec_of Purpose.relax s w))
choose w (StageType.static ∷ []) (s ∷ stages) =
    raising (validate_calculation_spec (spec_of Purpose.static s w))
choose w (StageType.relax ∷ StageType.static ∷ []) (s ∷ stages) =
    if shares_policy s stages
    then raising (validate_calculation_spec (spec_of Purpose.relax_static s w))
    else ok none
choose w (StageType.relax ∷ StageType.relax ∷ []) (s ∷ stages) =
    if shares_policy s stages
    then catching (validate_calculation_spec (spec_of Purpose.double_relax s w))
    else ok none
choose w (StageType.relax ∷ StageType.static ∷ StageType.dos ∷ []) (s ∷ stages) =
    if shares_policy s stages
    then catching (validate_calculation_spec (spec_of Purpose.dos s w))
    else ok none
choose w (StageType.relax ∷ StageType.static ∷ StageType.band_structure ∷ []) (s ∷ stages) =
    if shares_policy s stages
    then catching (validate_calculation_spec (spec_of Purpose.band_structure s w))
    else ok none
choose w _ stages = ok none

unfoldable pub calculation_spec_from_workflow_spec :
    WorkflowSpec → Result ValidationError (Option CalculationSpec)
unfolding choose
calculation_spec_from_workflow_spec workflow = do
  w ← validate_workflow_spec workflow
  if any has_options w.stages then ok none else choose w (map (λ s. s.stage_type) w.stages) w.stages
