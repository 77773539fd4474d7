-- ===== src/Considerations/Method.antt =====
-- backend/calculations/method_considerations.py: the considerations for a workflow and a structure. The
-- texts of a consideration are not modelled.
use bmd_compute.Prelude.{
  String, Bool, false, Option, none, some, List, [], ◌∷◌, ◌++◌, map, str_eq, if◌then◌else◌,
}
use bmd_compute.Model.{Modifier, WorkflowSpec, Json, null}
use bmd_compute.Treatments.Resolve.{
  Payload, spin_consideration_id, dispersion_consideration_id, soc_consideration_id,
  dft_u_consideration_id,
}
use bmd_compute.Considerations.DftU.{Evaluation}
use bmd_compute.Considerations.Detections.{
  TriggerClasses, soc_trigger_classes, spin_trigger_classes, classes_for_element,
  ordered_trigger_classes, StructureDetection, is_none, detect_structure_features,
  DimensionalityObservation, is_two_dimensional_connectivity,
}
use bmd_compute.Considerations.Capabilities.{
  Capability, supported_modifier_stage_capabilities, WorkflowSupport, workflow_modifier_support,
}

pub record MethodConsideration : Type 0 where
  pub consideration_id : String
  pub modifier : Modifier
  pub suppressed : Bool
  pub trigger_elements : List String
  pub trigger_classes : List String
  pub capabilities : List Capability
  pub workflow_support : WorkflowSupport

-- What the structure gives the considerations.
pub record Evidence : Type 0 where
  pub elements : List String
  pub observation : DimensionalityObservation
  pub evaluation : Evaluation

abbrev consideration :
    Option WorkflowSpec → String → Modifier → Bool → List String → List String → MethodConsideration
consideration workflow name modifier suppressed elements classes = record {
  consideration_id = name;
  modifier = modifier;
  suppressed = suppressed;
  trigger_elements = elements;
  trigger_classes = classes;
  capabilities = supported_modifier_stage_capabilities modifier;
  workflow_support = workflow_modifier_support workflow modifier;
}

-- The elements of the detections with a class.
unfoldable pub triggers : TriggerClasses → List StructureDetection → List String
unfolding classes_for_element
triggers classes [] = []
triggers classes (d ∷ detections) =
    let rest = triggers classes detections in
    if is_none (classes_for_element classes d.element) then rest else d.element ∷ rest

unfoldable pub element_consideration :
    Option WorkflowSpec
    → String
    → Modifier
    → TriggerClasses
    → List String
    → List MethodConsideration
element_consideration workflow name modifier classes [] = []
element_consideration workflow name modifier classes (e ∷ elements) =
    consideration workflow name modifier false (e ∷ elements)
      (ordered_trigger_classes classes (e ∷ elements))
    ∷ []

-- A class of the DFT+U rule is named by its anion.
abbrev anion_class : Option String → List String
anion_class none = []
anion_class (some anion) = anion ∷ []

abbrev pub dispersion_part :
    Option WorkflowSpec → DimensionalityObservation → List MethodConsideration
dispersion_part workflow observation =
    if is_two_dimensional_connectivity observation
    then consideration workflow dispersion_consideration_id Modifier.dispersion false []
        ("two_dimensional_bonded_connectivity" ∷ [])
      ∷ []
    else []

abbrev pub dft_u_part : Option WorkflowSpec → Evaluation → List MethodConsideration
dft_u_part workflow evaluation =
    if evaluation.mp_rule_triggered
    then consideration workflow dft_u_consideration_id Modifier.dft_u
        (str_eq evaluation.decision "suppress") evaluation.triggering_elements
        (anion_class evaluation.deciding_anion)
      ∷ []
    else []

unfoldable pub method_considerations : Option WorkflowSpec → Evidence → List MethodConsideration
method_considerations workflow evidence =
    let detections = detect_structure_features evidence.elements in
    dispersion_part workflow evidence.observation
    ++ element_consideration workflow spin_consideration_id Modifier.spin_polarized
        spin_trigger_classes (triggers spin_trigger_classes detections)
    ++ element_consideration workflow soc_consideration_id Modifier.soc soc_trigger_classes
        (triggers soc_trigger_classes detections)
    ++ dft_u_part workflow evidence.evaluation

abbrev pub or_null : Option Json → Json
or_null none = null
or_null (some v) = v

-- What the treatments read of `method_consideration_payload`.
unfoldable pub method_consideration_payload : Option WorkflowSpec → Evidence → Payload
method_consideration_payload workflow evidence = record {
  dimensionality_status = evidence.observation.status;
  consideration_ids =
      map (λ (c : MethodConsideration). c.consideration_id)
        (method_considerations workflow evidence);
  dft_u_evaluation =
      if evidence.evaluation.mp_rule_triggered
      then some (record {
        decision = evidence.evaluation.decision;
        parameters = or_null evidence.evaluation.parameters;
      })
      else none;
}
