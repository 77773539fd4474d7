-- ===== src/Considerations/Resolves.antt =====
-- For every structure the treatments resolve the workflows of the Desired Outputs.
use bmd_compute.Prelude.{
  String, Bool, true, false, Option, none, some, List, [], ◌∷◌, ◌++◌, ok, All, ◌≡◌, refl, sym, ap,
  ap₂, ◌∙◌, subst, arith, str_eq, if◌then◌else◌,
}
use bmd_compute.Model.{Modifier, WorkflowSpec, Json}
use bmd_compute.Registry.Support.{is_frozen_dft_u}
use bmd_compute.Registry.DesiredOutputs.{desired_output_workflows}
use bmd_compute.Treatments.Resolve.{
  DftUEvaluation, Payload, ResolvedDefaultWorkflow, resolve_default_treatments,
  spin_consideration_id, soc_consideration_id,
}
use bmd_compute.Treatments.Total.{Frozen}
use bmd_compute.Treatments.Total.Outputs.{Resolves, desired_outputs-Resolves}
use bmd_compute.Considerations.DftU.{HubbardTable, Composition, Evaluation, evaluate_dft_u}
use bmd_compute.Considerations.Frozen.{NumericTable, HasFrozen, evaluate_dft_u-HasFrozen}
use bmd_compute.Considerations.Method.{
  MethodConsideration, element_consideration, Evidence, triggers, dispersion_part, dft_u_part,
  method_considerations, or_null, method_consideration_payload,
}
use bmd_compute.Considerations.Detections.{
  TriggerClasses, soc_trigger_classes, spin_trigger_classes, DimensionalityObservation,
  detect_structure_features,
}
use bmd_compute.Considerations.Observed.{ids_of}
use bmd_compute.Considerations.Outcome.{observed_evaluation, evaluation_of-payload}

abbrev payload_with : String → List String → Option DftUEvaluation → Payload
payload_with status ids evaluation = record {
  dimensionality_status = status;
  consideration_ids = ids;
  dft_u_evaluation = evaluation;
}

ids_of-append : (a b : List MethodConsideration) → ids_of (a ++ b) ≡ ids_of a ++ ids_of b
ids_of-append [] b = refl
ids_of-append (c ∷ a) b = ap (λ l. c.consideration_id ∷ l) (ids_of-append a b)

-- The identifiers do not depend on the workflow.
ids_of-element :
    (v w : Option WorkflowSpec) (name : String) (m : Modifier) (classes : TriggerClasses)
    (elements : List String)
    → ids_of (element_consideration v name m classes elements)
      ≡ ids_of (element_consideration w name m classes elements)
unfolding element_consideration
ids_of-element v w name m classes [] = refl
ids_of-element v w name m classes (e ∷ elements) = refl

ids_of-same :
    (a a' b b' : List MethodConsideration)
    → ids_of a ≡ ids_of a'
    → ids_of b ≡ ids_of b'
    → ids_of (a ++ b) ≡ ids_of (a' ++ b')
ids_of-same a a' b b' same_a same_b =
    ids_of-append a b
    ∙ ap₂ {A = List String} {B = List String} (λ x y. x ++ y) same_a same_b
    ∙ sym (ids_of-append a' b')

ids_of-dispersion :
    (v w : Option WorkflowSpec) (o : DimensionalityObservation)
    → ids_of (dispersion_part v o) ≡ ids_of (dispersion_part w o)
ids_of-dispersion v w o = ground arith

ids_of-dft_u :
    (v w : Option WorkflowSpec) (e : Evaluation) → ids_of (dft_u_part v e) ≡ ids_of (dft_u_part w e)
ids_of-dft_u v w e = ground arith

ids_of-workflow :
    (v w : Option WorkflowSpec) (e : Evidence)
    → ids_of (method_considerations v e) ≡ ids_of (method_considerations w e)
unfolding method_considerations
ids_of-workflow v w e =
    let detections = detect_structure_features e.elements in
    let spin_elements = triggers spin_trigger_classes detections in
    let soc_elements = triggers soc_trigger_classes detections in
    let spin_part = λ (x : Option WorkflowSpec).
      element_consideration x spin_consideration_id Modifier.spin_polarized spin_trigger_classes
        spin_elements in
    let soc_part = λ (x : Option WorkflowSpec).
      element_consideration x soc_consideration_id Modifier.soc soc_trigger_classes soc_elements in
    let first = λ (x : Option WorkflowSpec). dispersion_part x e.observation in
    ids_of-same (first v ++ spin_part v ++ soc_part v) (first w ++ spin_part w ++ soc_part w)
      (dft_u_part v e.evaluation) (dft_u_part w e.evaluation)
      (ids_of-same (first v ++ spin_part v) (first w ++ spin_part w) (soc_part v) (soc_part w)
        (ids_of-same (first v) (first w) (spin_part v) (spin_part w)
          (ids_of-dispersion v w e.observation)
          (ids_of-element v w spin_consideration_id Modifier.spin_polarized spin_trigger_classes
            spin_elements))
        (ids_of-element v w soc_consideration_id Modifier.soc soc_trigger_classes soc_elements))
      (ids_of-dft_u v w e.evaluation)

payload-workflow :
    (v w : Option WorkflowSpec) (e : Evidence)
    → method_consideration_payload v e ≡ method_consideration_payload w e
unfolding method_consideration_payload
payload-workflow v w e =
    ap
      (λ (ids : List String).
        payload_with e.observation.status ids (observed_evaluation e.evaluation))
      (ids_of-workflow v w e)

-- The payload of the structure for the workflow resolves it.
abbrev pub ResolvesFor : Evidence → String × Option WorkflowSpec → Type 0
ResolvesFor e (name, none) = Unit
ResolvesFor e (name, some w) =
    (r : ResolvedDefaultWorkflow) × (resolve_default_treatments
        (method_consideration_payload (some w) e) w
      ≡ ok r)

outputs-ResolvesFor :
    (e : Evidence) (outputs : List (String × Option WorkflowSpec))
    → All (Resolves (method_consideration_payload none e)) outputs
    → All (ResolvesFor e) outputs
outputs-ResolvesFor e [] resolve = tt
outputs-ResolvesFor e ((name, none) ∷ outputs) (resolve, later) =
    (tt, outputs-ResolvesFor e outputs later)
outputs-ResolvesFor e ((name, some w) ∷ outputs) ((r, resolved), later) = (
  (
    r,
    ap (λ (p : Payload). resolve_default_treatments p w) (payload-workflow (some w) none e)
        ∙ resolved,
  ),
  outputs-ResolvesFor e outputs later,
)

parameters-Frozen :
    (triggered : Bool) (decision : String) (parameters : Option Json)
    → (str_eq decision "apply" ≡ true
        → (p : Json) × (parameters ≡ some p) × (is_frozen_dft_u p ≡ true))
    → Frozen (
        if triggered
        then some (record { decision = decision; parameters = or_null parameters })
        else none)
parameters-Frozen true decision parameters has = λ apply.
    let (p, same, frozen) = has apply in
    subst (λ x. is_frozen_dft_u (or_null x) ≡ true) (sym same) frozen
parameters-Frozen false decision parameters has = tt

observed_evaluation-Frozen :
    (e : Evaluation)
    → (str_eq e.decision "apply" ≡ true → HasFrozen e)
    → Frozen (observed_evaluation e)
observed_evaluation-Frozen e has = parameters-Frozen e.mp_rule_triggered e.decision e.parameters has

module _ {Guess : Type 0} (is_positive_float : String → Bool) (is_d0 : Guess → String → Bool) where
  -- For every structure whose dimensionality analysis did not fail, and a table of +U values that
  -- are numbers with an integer LDAUTYPE, the automatic treatments resolve the workflow of every
  -- Desired Output that has one.
  pub desired_outputs-ResolvesFor :
      (table : HubbardTable) (composition : Composition Guess) (elements : List String)
      (observation : DimensionalityObservation)
      → NumericTable table
      → str_eq observation.status "analysis_failed" ≡ false
      → All
          (ResolvesFor (record {
            elements = elements;
            observation = observation;
            evaluation = evaluate_dft_u is_positive_float is_d0 table composition;
          }))
          desired_output_workflows
  unfolding method_consideration_payload
  desired_outputs-ResolvesFor table composition elements observation numeric analysed =
      let e : Evidence = record {
        elements = elements;
        observation = observation;
        evaluation = evaluate_dft_u is_positive_float is_d0 table composition;
      } in
      outputs-ResolvesFor e desired_output_workflows (
        desired_outputs-Resolves (method_consideration_payload none e) analysed (
          subst Frozen (sym (evaluation_of-payload none e)) (
            observed_evaluation-Frozen (evaluate_dft_u is_positive_float is_d0 table composition)
              (λ apply.
                evaluate_dft_u-HasFrozen is_positive_float is_d0 table composition numeric apply))))
