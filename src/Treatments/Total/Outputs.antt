-- ===== src/Treatments/Total/Outputs.antt =====
-- Each Desired Output is treatable, and so the service resolves it for every structure.
use bmd_compute.Prelude.{
  String, Bool, true, false, Option, none, some, List, [], ◌∷◌, All, Result, ok, err, ◌≡◌, refl,
  arith, succeeds, str_eq,
}
use bmd_compute.Model.{StageType, Theory, WorkflowSpec}
use bmd_compute.Registry.Support.{is_frozen_dft_u}
use bmd_compute.Registry.DesiredOutputs.{desired_output_workflows, plain_stage, recipe_workflow}
use bmd_compute.Registry.Workflow.{validate_workflow_spec}
use bmd_compute.Treatments.Apply.{
  Applied, AppliedSoc, apply_spin_polarisation, apply_dispersion, apply_soc, apply_dft_u,
}
use bmd_compute.Treatments.Resolve.{
  Payload, ResolvedDefaultWorkflow, resolve_default_treatments, evaluation_of,
}
use bmd_compute.Treatments.Total.{Treatable, Treatable-resolves, Frozen, spun, dispersed, coupled}

abbrev energy_only : WorkflowSpec
energy_only = recipe_workflow "energy_only" (plain_stage StageType.static Theory.pbe ∷ [])

abbrev relaxed_structure : WorkflowSpec
relaxed_structure =
    recipe_workflow "relaxed_structure"
      (plain_stage StageType.relax Theory.pbe ∷ plain_stage StageType.relax Theory.pbe ∷ [])

abbrev electronic : String → StageType → WorkflowSpec
electronic name t = recipe_workflow name (
    plain_stage StageType.relax Theory.pbe
    ∷ plain_stage StageType.static Theory.hse06
    ∷ plain_stage t Theory.hse06
    ∷ [])

abbrev electronic_dos : WorkflowSpec
electronic_dos = electronic "electronic_dos" StageType.dos

abbrev electronic_band_structure : WorkflowSpec
electronic_band_structure = electronic "electronic_band_structure" StageType.band_structure

-- A workflow on which the checks and the treatments are computed.
Computes : WorkflowSpec → Type 0
unfolding validate_workflow_spec bmd_compute.Policy.Dispersion.dispersion_method_from_options
    bmd_compute.Registry.Workflow.validate_stages bmd_compute.Registry.Support.validate_stage_spec
    bmd_compute.Registry.Support.validate_stage_support
    bmd_compute.Registry.Support.validate_stage_option_keys
    bmd_compute.Registry.Support.validate_dispersion_stage_support
    bmd_compute.Registry.Support.validate_frozen_dft_u_option
    bmd_compute.Registry.Workflow.validate_dispersion_workflow_consistency
    bmd_compute.Registry.Workflow.dispersion_pair
    bmd_compute.Registry.Support.stage_dispersion_method
    bmd_compute.Registry.Workflow.validate_previous_stage_soc_consistency
    bmd_compute.Registry.Workflow.soc_pair
    bmd_compute.Policy.StageDefinitions.stage_reads_previous_charge_density
    bmd_compute.Policy.StageDefinitions.stage_inherits_previous_band_count
    bmd_compute.Registry.Workflow.terminal_loop bmd_compute.Registry.Workflow.terminal_check
    bmd_compute.Prelude.Text.codes_eq bmd_compute.Prelude.Text.strip
    bmd_compute.Treatments.Apply.apply_spin_polarisation
    bmd_compute.Treatments.Apply.apply_dispersion bmd_compute.Treatments.Apply.apply_soc
    bmd_compute.Treatments.Apply.apply_dft_u bmd_compute.Treatments.Apply.validate_automatic_stage
    bmd_compute.Admission.modifier_is_admissible_for_new_theory
Computes w = Treatable w

energy_only-Treatable : Treatable energy_only
unfolding Computes
energy_only-Treatable = record {
  base_valid = ground arith;
  spin_applies = succeeds (apply_spin_polarisation 1 energy_only.stages) (λ y e. ground (arith, e));
  dispersion_applies =
      λ a. succeeds (apply_dispersion 1 (spun a energy_only.stages)) (λ y e. ground (arith, e));
  soc_applies =
      λ a b. succeeds (apply_soc 1 (dispersed a b energy_only.stages)) (λ y e. ground (arith, e));
  dft_u_applies = λ a b c v f.
      succeeds (apply_dft_u v 1 (coupled a b c energy_only.stages)) (λ y e. ground (arith, e, f));
  result_valid = λ a b c d v f. ground (arith, f);
}

relaxed_structure-Treatable : Treatable relaxed_structure
unfolding Computes
relaxed_structure-Treatable = record {
  base_valid = ground arith;
  spin_applies =
      succeeds (apply_spin_polarisation 1 relaxed_structure.stages) (λ y e. ground (arith, e));
  dispersion_applies = λ a.
      succeeds (apply_dispersion 1 (spun a relaxed_structure.stages)) (λ y e. ground (arith, e));
  soc_applies = λ a b.
      succeeds (apply_soc 1 (dispersed a b relaxed_structure.stages)) (λ y e. ground (arith, e));
  dft_u_applies = λ a b c v f.
      succeeds (apply_dft_u v 1 (coupled a b c relaxed_structure.stages))
        (λ y e. ground (arith, e, f));
  result_valid = λ a b c d v f. ground (arith, f);
}

electronic_dos-Treatable : Treatable electronic_dos
unfolding Computes
electronic_dos-Treatable = record {
  base_valid = ground arith;
  spin_applies =
      succeeds (apply_spin_polarisation 1 electronic_dos.stages) (λ y e. ground (arith, e));
  dispersion_applies =
      λ a. succeeds (apply_dispersion 1 (spun a electronic_dos.stages)) (λ y e. ground (arith, e));
  soc_applies = λ a b.
      succeeds (apply_soc 1 (dispersed a b electronic_dos.stages)) (λ y e. ground (arith, e));
  dft_u_applies = λ a b c v f.
      succeeds (apply_dft_u v 1 (coupled a b c electronic_dos.stages))
        (λ y e. ground (arith, e, f));
  result_valid = λ a b c d v f. ground (arith, f);
}

electronic_band_structure-Treatable : Treatable electronic_band_structure
unfolding Computes
electronic_band_structure-Treatable = record {
  base_valid = ground arith;
  spin_applies =
      succeeds (apply_spin_polarisation 1 electronic_band_structure.stages)
        (λ y e. ground (arith, e));
  dispersion_applies = λ a.
      succeeds (apply_dispersion 1 (spun a electronic_band_structure.stages))
        (λ y e. ground (arith, e));
  soc_applies = λ a b.
      succeeds (apply_soc 1 (dispersed a b electronic_band_structure.stages))
        (λ y e. ground (arith, e));
  dft_u_applies = λ a b c v f.
      succeeds (apply_dft_u v 1 (coupled a b c electronic_band_structure.stages))
        (λ y e. ground (arith, e, f));
  result_valid = λ a b c d v f. ground (arith, f);
}

-- The service resolves a workflow, where there is one.
abbrev pub Resolves : Payload → String × Option WorkflowSpec → Type 0
Resolves payload (name, none) = Unit
Resolves payload (name, some w) =
    (r : ResolvedDefaultWorkflow) × (resolve_default_treatments payload w ≡ ok r)

-- For every payload whose dimensionality analysis did not fail and whose DFT+U parameters, where
-- they are applied, are frozen ones, the automatic treatments resolve the workflow of every
-- Desired Output that has one.
pub desired_outputs-Resolves :
    (payload : Payload)
    → str_eq payload.dimensionality_status "analysis_failed" ≡ false
    → Frozen (evaluation_of payload)
    → All (Resolves payload) desired_output_workflows
desired_outputs-Resolves payload analysed frozen = (
  Treatable-resolves payload energy_only energy_only-Treatable analysed frozen,
  (
    Treatable-resolves payload relaxed_structure relaxed_structure-Treatable analysed frozen,
    (
      Treatable-resolves payload electronic_dos electronic_dos-Treatable analysed frozen,
      (
        Treatable-resolves payload electronic_band_structure electronic_band_structure-Treatable
            analysed frozen,
        (tt, tt),
      ),
    ),
  ),
)
