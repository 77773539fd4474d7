-- ===== src/Considerations/Capabilities.antt =====
-- backend/calculations/method_considerations.py: the stages that support a modifier, in general and in
-- a workflow.
use bmd_compute.Prelude.{
  ℕ, ◌+◌, Bool, true, false, Option, none, some, List, [], ◌∷◌, ok, err, if◌then◌else◌,
}
use bmd_compute.Model.{
  StageType, Theory, Modifier, contains, add, no_modifiers, StageSpec, WorkflowSpec, end,
}
use bmd_compute.Registry.Support.{validate_stage_spec}
use bmd_compute.Registry.Workflow.{validate_workflow_spec}
use bmd_compute.Admission.{stage_is_admissible_for_new_calculation}

unfoldable pub stage_is_supported : StageSpec → Bool
stage_is_supported stage = elim (validate_stage_spec stage) [
  | err _ ↦ false
  | ok _ ↦ stage_is_admissible_for_new_calculation stage
]

abbrev plain : StageType → Theory → Modifier → StageSpec
plain stage_type theory modifier = record {
  stage_type = stage_type;
  theory = theory;
  modifiers = add modifier no_modifiers;
  label = none;
  options = end;
}

abbrev pub Capability : Type 0
Capability = StageType × Theory

-- The pairs in the order of the values of the stage types and theories.
abbrev pub all_capabilities : List Capability
all_capabilities =
    (StageType.band_structure, Theory.hse06)
    ∷ (StageType.band_structure, Theory.pbe)
    ∷ (StageType.band_structure, Theory.r2scan)
    ∷ (StageType.dos, Theory.hse06)
    ∷ (StageType.dos, Theory.pbe)
    ∷ (StageType.dos, Theory.r2scan)
    ∷ (StageType.phonon_forces, Theory.hse06)
    ∷ (StageType.phonon_forces, Theory.pbe)
    ∷ (StageType.phonon_forces, Theory.r2scan)
    ∷ (StageType.relax, Theory.hse06)
    ∷ (StageType.relax, Theory.pbe)
    ∷ (StageType.relax, Theory.r2scan)
    ∷ (StageType.static, Theory.hse06)
    ∷ (StageType.static, Theory.pbe)
    ∷ (StageType.static, Theory.r2scan)
    ∷ []

unfoldable pub supported_among : Modifier → List Capability → List Capability
supported_among modifier [] = []
supported_among modifier ((t, theory) ∷ pairs) =
    let rest = supported_among modifier pairs in
    if stage_is_supported (plain t theory modifier) then (t, theory) ∷ rest else rest

unfoldable pub supported_modifier_stage_capabilities : Modifier → List Capability
supported_modifier_stage_capabilities modifier = supported_among modifier all_capabilities

pub data SelectionState : Type 0 where
  workflow_not_provided not_selected already_selected : SelectionState
  unsupported_for_workflow invalid_workflow : SelectionState

pub record WorkflowSupport : Type 0 where
  pub selection_state : SelectionState
  pub selected : List ℕ
  pub supported : List ℕ
  pub unsupported_selected : List ℕ

abbrev pub stage_with_modifier_added : StageSpec → Modifier → StageSpec
stage_with_modifier_added stage modifier = record stage { modifiers = add modifier stage.modifiers }

-- One stage of the loop, before the later ones.
abbrev pub noted : ℕ → Bool → Bool → WorkflowSupport → WorkflowSupport
noted index true true s = record s {
  selected = index ∷ s.selected;
  supported = index ∷ s.supported;
}
noted index true false s = record s { unsupported_selected = index ∷ s.unsupported_selected }
noted index false true s = record s { supported = index ∷ s.supported }
noted index false false s = s

abbrev nothing : SelectionState → WorkflowSupport
nothing state = record {
  selection_state = state;
  selected = [];
  supported = [];
  unsupported_selected = [];
}

unfoldable pub stages_support : Modifier → ℕ → List StageSpec → WorkflowSupport
stages_support modifier index [] = nothing SelectionState.unsupported_for_workflow
stages_support modifier index (stage ∷ stages) =
    noted index (contains stage.modifiers modifier)
      (if contains stage.modifiers modifier
        then stage_is_supported stage
        else stage_is_supported (stage_with_modifier_added stage modifier))
      (stages_support modifier (index + 1) stages)

abbrev pub state_of : List ℕ → List ℕ → SelectionState
state_of (_ ∷ _) supported = SelectionState.already_selected
state_of [] (_ ∷ _) = SelectionState.not_selected
state_of [] [] = SelectionState.unsupported_for_workflow

abbrev pub selected_stage_indices : Modifier → ℕ → List StageSpec → List ℕ
selected_stage_indices modifier index [] = []
selected_stage_indices modifier index (stage ∷ stages) =
    let rest = selected_stage_indices modifier (index + 1) stages in
    if contains stage.modifiers modifier then index ∷ rest else rest

unfoldable pub workflow_modifier_support : Option WorkflowSpec → Modifier → WorkflowSupport
workflow_modifier_support none modifier = nothing SelectionState.workflow_not_provided
workflow_modifier_support (some workflow) modifier = elim (validate_workflow_spec workflow) [
  | err _ ↦ record (nothing SelectionState.invalid_workflow) {
    selected = selected_stage_indices modifier 1 workflow.stages;
  }
  | ok normalized ↦
      let support = stages_support modifier 1 normalized.stages in
      record support { selection_state = state_of support.selected support.supported }
]
