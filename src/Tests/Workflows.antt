-- ===== src/Tests/Workflows.antt =====
-- Workflows that the registry, the admission and the automatic treatments are tried on.
use bmd_compute.Prelude.{none, some, [], ◌∷◌, map, ok, All, ◌≡◌, refl, if◌then◌else◌}
use bmd_compute.Model.{
  Purpose, Theory, StageType, Modifier, ModifierSet, add, no_modifiers, StageSpec, WorkflowSpec,
  CalculationSpec, end,
}
use bmd_compute.Policy.StageDefinitions.{
  stage_reads_previous_charge_density, stage_inherits_previous_band_count,
}
use bmd_compute.Registry.Support.{validate_stage_spec}
use bmd_compute.Registry.Support.Legal.{LegalStage, validate_stage_spec_iff}
use bmd_compute.Registry.Workflow.{validate_workflow_spec}
use bmd_compute.Registry.Workflow.WellFormed.{WellFormed, validate_workflow_spec_iff}
use bmd_compute.Registry.Compatibility.{
  validate_calculation_spec, workflow_spec_from_calculation_spec,
  calculation_spec_from_workflow_spec,
}
use bmd_compute.Registry.Compatibility.RoundTrip.{calculation_spec_round_trip}
use bmd_compute.Admission.{require_admissible_new_calculation}
use bmd_compute.Admission.Narrows.{Admissible, require_admissible_new_calculation_iff}
use bmd_compute.Treatments.Resolve.{
  Payload, Progress, ResolvedDefaultWorkflow, treat, start, mentions, if_any, soc_consideration_id,
  spin_consideration_id, resolve_default_treatments,
}
use bmd_compute.Treatments.Effect.{treated, omits_soc, numbers_where}
use bmd_compute.Registry.DesiredOutputs.{desired_output_workflows}
use bmd_compute.Treatments.Total.Outputs.{Resolves, desired_outputs-Resolves}
use bmd_compute.Treatments.Resolved.{
  resolve_default_treatments_effect, resolve_default_treatments-Admissible,
}

abbrev pub stage : StageType → Theory → ModifierSet → StageSpec
stage t theory m = record {
  stage_type = t;
  theory = theory;
  modifiers = m;
  label = none;
  options = end;
}

-- The workflow of the Desired Output `electronic_dos`.
abbrev pub dos_workflow : WorkflowSpec
dos_workflow = record {
  stages =
      stage StageType.relax Theory.pbe no_modifiers
      ∷ stage StageType.static Theory.hse06 no_modifiers
      ∷ stage StageType.dos Theory.hse06 no_modifiers
      ∷ [];
  label = none;
  recipe = some "electronic_dos";
}

-- A structure for which the considerations call for spin polarisation and SOC.
abbrev pub heavy_payload : Payload
heavy_payload = record {
  dimensionality_status = "observed";
  consideration_ids = spin_consideration_id ∷ soc_consideration_id ∷ [];
  dft_u_evaluation = none;
}

pub accepts_dos : validate_workflow_spec dos_workflow ≡ ok dos_workflow
unfolding validate_workflow_spec bmd_compute.Registry.Workflow.validate_stages validate_stage_spec
    bmd_compute.Registry.Support.validate_stage_support
    bmd_compute.Registry.Support.validate_stage_option_keys
    bmd_compute.Registry.Support.validate_dispersion_stage_support
    bmd_compute.Registry.Support.validate_frozen_dft_u_option
    bmd_compute.Registry.Workflow.validate_dispersion_workflow_consistency
    bmd_compute.Registry.Workflow.dispersion_pair
    bmd_compute.Registry.Support.stage_dispersion_method
    bmd_compute.Registry.Workflow.validate_previous_stage_soc_consistency
    bmd_compute.Registry.Workflow.soc_pair stage_reads_previous_charge_density
    stage_inherits_previous_band_count bmd_compute.Registry.Workflow.terminal_loop
    bmd_compute.Registry.Workflow.terminal_check
accepts_dos = refl

validate_stage_spec_iff_example :
    LegalStage (stage StageType.static Theory.pbe (add Modifier.soc no_modifiers))
    × (stage StageType.static Theory.pbe (add Modifier.soc no_modifiers)
        ≡ stage StageType.static Theory.pbe (add Modifier.soc no_modifiers))
unfolding validate_stage_spec bmd_compute.Registry.Support.validate_stage_support
    bmd_compute.Registry.Support.validate_stage_option_keys
    bmd_compute.Registry.Support.validate_dispersion_stage_support
    bmd_compute.Registry.Support.validate_frozen_dft_u_option
validate_stage_spec_iff_example =
    (validate_stage_spec_iff (stage StageType.static Theory.pbe (add Modifier.soc no_modifiers))
        (stage StageType.static Theory.pbe (add Modifier.soc no_modifiers))).0
      refl

validate_workflow_spec_iff_example : WellFormed dos_workflow × (dos_workflow ≡ dos_workflow)
validate_workflow_spec_iff_example =
    (validate_workflow_spec_iff dos_workflow dos_workflow).0 accepts_dos

pub dos_workflow-WellFormed : WellFormed dos_workflow
dos_workflow-WellFormed = ((validate_workflow_spec_iff dos_workflow dos_workflow).0 accepts_dos).0

accepts_dos_as_new : require_admissible_new_calculation dos_workflow ≡ ok dos_workflow
unfolding require_admissible_new_calculation bmd_compute.Admission.inadmissible_stage_indices
    bmd_compute.Admission.stage_is_admissible_for_new_calculation
accepts_dos_as_new = rw accepts_dos refl

require_admissible_new_calculation_iff_example :
    WellFormed dos_workflow × All Admissible dos_workflow.stages × (dos_workflow ≡ dos_workflow)
require_admissible_new_calculation_iff_example =
    (require_admissible_new_calculation_iff dos_workflow dos_workflow).0 accepts_dos_as_new

abbrev calculation : CalculationSpec
calculation = record {
  purpose = Purpose.relax_static;
  theory = Theory.pbe;
  modifiers = add Modifier.spin_polarized no_modifiers;
  label = some "bulk";
}

calculation_spec_round_trip_example :
    (w : WorkflowSpec) × (workflow_spec_from_calculation_spec calculation ≡ ok w)
    × (calculation_spec_from_workflow_spec w ≡ ok (some calculation))
unfolding validate_calculation_spec
calculation_spec_round_trip_example = calculation_spec_round_trip calculation refl

abbrev pub spin : ModifierSet
spin = add Modifier.spin_polarized no_modifiers

-- Every stage gets spin polarisation, and SOC is left out of stages 2 and 3.
abbrev pub resolved_dos : ResolvedDefaultWorkflow
resolved_dos = record {
  base_workflow = dos_workflow;
  resolved_workflow = record dos_workflow {
    stages =
        stage StageType.relax Theory.pbe spin
        ∷ stage StageType.static Theory.hse06 spin
        ∷ stage StageType.dos Theory.hse06 spin
        ∷ [];
  };
  applied_treatments =
      record {
        consideration_id = spin_consideration_id;
        modifier = Modifier.spin_polarized;
        stage_indices = 1 ∷ 2 ∷ 3 ∷ [];
      }
      ∷ [];
  advisory_consideration_ids = [];
  not_applicable_considerations = [];
  omitted_treatments =
      record {
        consideration_id = soc_consideration_id;
        modifier = Modifier.soc;
        stage_indices = 2 ∷ 3 ∷ [];
      }
      ∷ [];
}

pub resolves_dos : resolve_default_treatments heavy_payload dos_workflow ≡ ok resolved_dos
unfolding resolve_default_treatments validate_workflow_spec bmd_compute.Treatments.Resolve.treat
    bmd_compute.Treatments.Resolve.spin_step bmd_compute.Treatments.Resolve.dispersion_step
    bmd_compute.Treatments.Resolve.soc_step bmd_compute.Treatments.Resolve.dft_u_step
    bmd_compute.Treatments.Apply.apply_spin_polarisation
    bmd_compute.Treatments.Apply.apply_dispersion bmd_compute.Treatments.Apply.apply_soc
    bmd_compute.Treatments.Apply.apply_dft_u bmd_compute.Treatments.Apply.validate_automatic_stage
    bmd_compute.Admission.modifier_is_admissible_for_new_theory
    bmd_compute.Registry.Workflow.validate_stages validate_stage_spec
    bmd_compute.Registry.Support.validate_stage_support
    bmd_compute.Registry.Support.validate_stage_option_keys
    bmd_compute.Registry.Support.validate_dispersion_stage_support
    bmd_compute.Registry.Support.validate_frozen_dft_u_option
    bmd_compute.Registry.Workflow.validate_dispersion_workflow_consistency
    bmd_compute.Registry.Workflow.dispersion_pair
    bmd_compute.Registry.Support.stage_dispersion_method
    bmd_compute.Registry.Workflow.validate_previous_stage_soc_consistency
    bmd_compute.Registry.Workflow.soc_pair stage_reads_previous_charge_density
    stage_inherits_previous_band_count bmd_compute.Registry.Workflow.terminal_loop
    bmd_compute.Registry.Workflow.terminal_check
resolves_dos = refl

resolve_default_treatments_effect_example :
    (resolved_dos.base_workflow ≡ dos_workflow)
    × WellFormed resolved_dos.resolved_workflow
    × (resolved_dos.resolved_workflow
        ≡ record dos_workflow { stages = map (treated heavy_payload) dos_workflow.stages })
    × (resolved_dos.omitted_treatments ≡ (
        if mentions soc_consideration_id heavy_payload.consideration_ids
        then if_any soc_consideration_id Modifier.soc
            (numbers_where omits_soc 1 dos_workflow.stages)
        else []))
resolve_default_treatments_effect_example =
    resolve_default_treatments_effect heavy_payload dos_workflow resolved_dos resolves_dos

resolve_default_treatments-Admissible_example :
    require_admissible_new_calculation resolved_dos.resolved_workflow
    ≡ ok resolved_dos.resolved_workflow
resolve_default_treatments-Admissible_example =
    resolve_default_treatments-Admissible heavy_payload dos_workflow resolved_dos
      (λ e. refl, (λ e. refl, (λ e. refl, tt))) resolves_dos

desired_outputs-Resolves_example : All (Resolves heavy_payload) desired_output_workflows
desired_outputs-Resolves_example = desired_outputs-Resolves heavy_payload refl tt
