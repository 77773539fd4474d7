-- ===== src/Tests/Considerations.antt =====
-- Nickel oxide: an element of the spin screen and a DFT+U element.
use bmd_compute.Prelude.{String, Bool, true, false, some, [], ◌∷◌, ok, map, All, ◌≡◌, refl, ap, ◌∙◌}
use bmd_compute.Model.{Modifier, int, float, pos, Fields, end, field}
use bmd_compute.Registry.Workflow.WellFormed.{WellFormed}
use bmd_compute.Registry.DesiredOutputs.{desired_output_workflows}
use bmd_compute.Treatments.Resolve.{Payload, resolve_default_treatments}
use bmd_compute.Considerations.DftU.{HubbardTable, Composition, evaluate_dft_u}
use bmd_compute.Considerations.Frozen.{NumericTable}
use bmd_compute.Considerations.Method.{Evidence, method_consideration_payload}
use bmd_compute.Considerations.Detections.{DimensionalityObservation}
use bmd_compute.Considerations.Capabilities.{workflow_modifier_support}
use bmd_compute.Considerations.Outcome.{treated_for, resolve_default_treatments-treated_for}
use bmd_compute.Considerations.Resolves.{ResolvesFor, desired_outputs-ResolvesFor}
use bmd_compute.Considerations.Support.{StagesWith, Describes, workflow_modifier_support-numbers}
use bmd_compute.Considerations.Runs.{Supports, Selects, Fails}
use bmd_compute.Tests.Workflows.{
  heavy_payload, resolved_dos, resolves_dos, dos_workflow, dos_workflow-WellFormed,
}

abbrev u_values : String → Fields
u_values anion = field "Ni" (float "6.2") end

abbrev no_values : String → Fields
no_values anion = end

abbrev table : HubbardTable
table = record {
  ldautype = int (pos 2);
  anions = "F" ∷ "O" ∷ [];
  l_values = no_values;
  u_values = u_values;
  j_values = no_values;
}

table-NumericTable : NumericTable table
table-NumericTable = record {
  ldautype = refl;
  l_values = λ anion. refl;
  u_values = λ anion. refl;
  j_values = λ anion. refl;
}

-- The guesses are numbered; the only one leaves d electrons.
abbrev nickel_oxide : Composition Bool
nickel_oxide = record {
  symbols = "Ni" ∷ "O" ∷ [];
  most_electronegative = some "O";
  oxi_state_guesses = true ∷ [];
}

abbrev positive : String → Bool
positive text = true

abbrev leaves_d0 : Bool → String → Bool
leaves_d0 guess symbol = false

abbrev bulk : DimensionalityObservation
bulk = record { status = "observed"; dimensionality = some 3 }

applies_u : (evaluate_dft_u positive leaves_d0 table nickel_oxide).decision ≡ "apply"
unfolding evaluate_dft_u
applies_u = refl

desired_outputs-ResolvesFor_example :
    All
      (ResolvesFor (record {
        elements = "Ni" ∷ "O" ∷ [];
        observation = bulk;
        evaluation = evaluate_dft_u positive leaves_d0 table nickel_oxide;
      }))
      desired_output_workflows
desired_outputs-ResolvesFor_example =
    desired_outputs-ResolvesFor positive leaves_d0 table nickel_oxide ("Ni" ∷ "O" ∷ []) bulk
      table-NumericTable refl

workflow_modifier_support-numbers_example :
    StagesWith
      (Supports Modifier.soc)
      1
      dos_workflow.stages
      (workflow_modifier_support (some dos_workflow) Modifier.soc).supported
    × StagesWith
        (Selects Modifier.soc)
        1
        dos_workflow.stages
        (workflow_modifier_support (some dos_workflow) Modifier.soc).selected
    × StagesWith
        (Fails Modifier.soc)
        1
        dos_workflow.stages
        (workflow_modifier_support (some dos_workflow) Modifier.soc).unsupported_selected
    × Describes
        (workflow_modifier_support (some dos_workflow) Modifier.soc).selection_state
        (workflow_modifier_support (some dos_workflow) Modifier.soc).selected
        (workflow_modifier_support (some dos_workflow) Modifier.soc).supported
workflow_modifier_support-numbers_example =
    workflow_modifier_support-numbers dos_workflow Modifier.soc dos_workflow-WellFormed

-- Iridium is in the spin screen and in the SOC screen.
abbrev iridium : Composition Bool
iridium = record { symbols = "Ir" ∷ []; most_electronegative = some "Ir"; oxi_state_guesses = [] }

abbrev iridium_evidence : Evidence
iridium_evidence = record {
  elements = "Ir" ∷ [];
  observation = bulk;
  evaluation = evaluate_dft_u positive leaves_d0 table iridium;
}

observes_iridium : method_consideration_payload (some dos_workflow) iridium_evidence ≡ heavy_payload
unfolding method_consideration_payload bmd_compute.Considerations.Method.method_considerations
    bmd_compute.Considerations.Detections.detect_with bmd_compute.Considerations.Method.triggers
    bmd_compute.Considerations.Detections.classes_for_element
    bmd_compute.Considerations.Method.element_consideration
    bmd_compute.Considerations.Detections.is_two_dimensional_connectivity evaluate_dft_u
observes_iridium = refl

resolves_iridium :
    resolve_default_treatments
      (method_consideration_payload (some dos_workflow) iridium_evidence)
      dos_workflow
    ≡ ok resolved_dos
resolves_iridium =
    ap (λ (p : Payload). resolve_default_treatments p dos_workflow) observes_iridium ∙ resolves_dos

resolve_default_treatments-treated_for_example :
    WellFormed resolved_dos.resolved_workflow
    × (resolved_dos.resolved_workflow
        ≡ record dos_workflow { stages = map (treated_for iridium_evidence) dos_workflow.stages })
resolve_default_treatments-treated_for_example =
    resolve_default_treatments-treated_for iridium_evidence dos_workflow resolved_dos
      resolves_iridium
