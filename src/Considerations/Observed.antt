-- ===== src/Considerations/Observed.antt =====
-- What the payload of a structure mentions, and what becomes of a workflow that is treated by it.
use bmd_compute.Prelude.{
  String, Bool, not, ◌&&◌, ◌||◌, Option, List, [], ◌∷◌, ◌++◌, any, map, ◌≡◌, refl, ap, ◌∙◌, arith,
  str_eq,
}
use bmd_compute.Model.{Modifier, WorkflowSpec}
use bmd_compute.Treatments.Resolve.{
  mentions, spin_consideration_id, dispersion_consideration_id, soc_consideration_id,
  dft_u_consideration_id,
}
use bmd_compute.Considerations.DftU.{is_member, Evaluation}
use bmd_compute.Considerations.Method.{
  triggers, MethodConsideration, element_consideration, Evidence, dispersion_part, dft_u_part,
  method_considerations, method_consideration_payload,
}
use bmd_compute.Considerations.Detections.{
  TriggerClasses, soc_trigger_classes, spin_trigger_classes, classes_for_element, is_none,
  detect_with, is_two_dimensional_connectivity, DimensionalityObservation,
}

-- The element is in one of the classes.
abbrev pub is_screened : TriggerClasses → String → Bool
is_screened classes element = any (λ (c : String × List String). is_member element c.1) classes

classes_for_element-screened :
    (classes : TriggerClasses) (e : String)
    → is_none (classes_for_element classes e) ≡ not (is_screened classes e)
unfolding classes_for_element
classes_for_element-screened [] e = refl
classes_for_element-screened ((name, elements) ∷ classes) e =
    ground (arith, classes_for_element-screened classes e)

module _ (soc spin : TriggerClasses) where
  spin_triggers-screened :
      (elements : List String)
      → is_none (triggers spin (detect_with soc spin elements))
        ≡ not (any (is_screened spin) elements)
  unfolding triggers detect_with
  spin_triggers-screened [] = refl
  spin_triggers-screened (e ∷ elements) =
      ground (arith, classes_for_element-screened spin e, spin_triggers-screened elements)

  soc_triggers-screened :
      (elements : List String)
      → is_none (triggers soc (detect_with soc spin elements))
        ≡ not (any (is_screened soc) elements)
  unfolding triggers detect_with
  soc_triggers-screened [] = refl
  soc_triggers-screened (e ∷ elements) =
      ground (arith, classes_for_element-screened soc e, soc_triggers-screened elements)

abbrev pub ids_of : List MethodConsideration → List String
ids_of considerations = map (λ (c : MethodConsideration). c.consideration_id) considerations

mentions-append :
    (name : String) (a b : List MethodConsideration)
    → mentions name (ids_of (a ++ b)) ≡ (mentions name (ids_of a) || mentions name (ids_of b))
mentions-append name [] b = refl
mentions-append name (c ∷ a) b = ground (arith, mentions-append name a b)

mentions-element :
    (name own : String) (workflow : Option WorkflowSpec) (m : Modifier) (classes : TriggerClasses)
    (elements : List String)
    → mentions name (ids_of (element_consideration workflow own m classes elements))
      ≡ (str_eq name own && not (is_none elements))
unfolding element_consideration
mentions-element name own workflow m classes [] = ground arith
mentions-element name own workflow m classes (e ∷ elements) = ground arith

double_negation : (a b : Bool) → (a && not (not b)) ≡ (a && b)
double_negation a b = ground arith

-- Four lists, one after the other.
joined :
    {whole three two a b c d a' b' c' d' : Bool}
    → whole ≡ (three || d)
    → three ≡ (two || c)
    → two ≡ (a || b)
    → a ≡ a'
    → b ≡ b'
    → c ≡ c'
    → d ≡ d'
    → whole ≡ (((a' || b') || c') || d')
joined e1 e2 e3 ea eb ec ed = cc

-- The identifiers by what the structure shows.
abbrev pub mentioned : Bool → Bool → Bool → Bool → String → Bool
mentioned layered spin soc dft_u name =
    (((str_eq name dispersion_consideration_id && layered)
        || (str_eq name spin_consideration_id && spin))
      || (str_eq name soc_consideration_id && soc))
    || (str_eq name dft_u_consideration_id && dft_u)

mentions-dispersion :
    (name : String) (workflow : Option WorkflowSpec) (o : DimensionalityObservation)
    → mentions name (ids_of (dispersion_part workflow o))
      ≡ (str_eq name dispersion_consideration_id && is_two_dimensional_connectivity o)
mentions-dispersion name workflow o = ground arith

mentions-dft_u :
    (name : String) (workflow : Option WorkflowSpec) (e : Evaluation)
    → mentions name (ids_of (dft_u_part workflow e))
      ≡ (str_eq name dft_u_consideration_id && e.mp_rule_triggered)
mentions-dft_u name workflow e = ground arith

pub mentions-payload :
    (name : String) (workflow : Option WorkflowSpec) (e : Evidence)
    → mentions name (method_consideration_payload workflow e).consideration_ids
      ≡ mentioned
          (is_two_dimensional_connectivity e.observation)
          (any (is_screened spin_trigger_classes) e.elements)
          (any (is_screened soc_trigger_classes) e.elements)
          e.evaluation.mp_rule_triggered
          name
unfolding method_consideration_payload method_considerations
mentions-payload name workflow e =
    let detections = detect_with soc_trigger_classes spin_trigger_classes e.elements in
    let spin_elements = triggers spin_trigger_classes detections in
    let soc_elements = triggers soc_trigger_classes detections in
    let spin_part =
      element_consideration workflow spin_consideration_id Modifier.spin_polarized
        spin_trigger_classes spin_elements in
    let soc_part =
      element_consideration workflow soc_consideration_id Modifier.soc soc_trigger_classes
        soc_elements in
    let first = dispersion_part workflow e.observation in
    let last = dft_u_part workflow e.evaluation in
    joined (mentions-append name (first ++ spin_part ++ soc_part) last)
      (mentions-append name (first ++ spin_part) soc_part) (mentions-append name first spin_part)
      (mentions-dispersion name workflow e.observation)
      (mentions-element name spin_consideration_id workflow Modifier.spin_polarized
          spin_trigger_classes spin_elements
        ∙ ap (λ b. str_eq name spin_consideration_id && not b)
            (spin_triggers-screened soc_trigger_classes spin_trigger_classes e.elements)
        ∙ double_negation (str_eq name spin_consideration_id)
            (any (is_screened spin_trigger_classes) e.elements))
      (mentions-element name soc_consideration_id workflow Modifier.soc soc_trigger_classes
          soc_elements
        ∙ ap (λ b. str_eq name soc_consideration_id && not b)
            (soc_triggers-screened soc_trigger_classes spin_trigger_classes e.elements)
        ∙ double_negation (str_eq name soc_consideration_id)
            (any (is_screened soc_trigger_classes) e.elements))
      (mentions-dft_u name workflow e.evaluation)
