-- ===== src/Considerations/Outcome.antt =====
-- What becomes of a workflow that is treated by the considerations of a structure.
use bmd_compute.Prelude.{
  Bool, Option, none, some, List, [], ◌∷◌, ok, any, map, ◌≡◌, refl, ap, ap₂, ◌∙◌, arith,
  if◌then◌else◌,
}
use bmd_compute.Model.{StageSpec, WorkflowSpec}
use bmd_compute.Registry.Workflow.WellFormed.{WellFormed}
use bmd_compute.Treatments.Resolve.{
  DftUEvaluation, ResolvedDefaultWorkflow, resolve_default_treatments, evaluation_of,
  spin_consideration_id, dispersion_consideration_id, soc_consideration_id, dft_u_consideration_id,
}
use bmd_compute.Treatments.Effect.{with_spin, with_dispersion, with_soc, with_dft_u, treated}
use bmd_compute.Treatments.Resolved.{resolve_default_treatments_effect}
use bmd_compute.Considerations.DftU.{Evaluation}
use bmd_compute.Considerations.Method.{Evidence, or_null, method_consideration_payload}
use bmd_compute.Considerations.Detections.{
  soc_trigger_classes, spin_trigger_classes, is_two_dimensional_connectivity,
}
use bmd_compute.Considerations.Observed.{is_screened, mentioned, mentions-payload}

-- The evaluation that the payload carries.
abbrev pub observed_evaluation : Evaluation → Option DftUEvaluation
observed_evaluation e =
    if e.mp_rule_triggered
    then some (record { decision = e.decision; parameters = or_null e.parameters })
    else none

pub evaluation_of-payload :
    (workflow : Option WorkflowSpec) (e : Evidence)
    → evaluation_of (method_consideration_payload workflow e) ≡ observed_evaluation e.evaluation
unfolding method_consideration_payload
evaluation_of-payload workflow e =
    ground (arith, mentions-payload dft_u_consideration_id workflow e)

-- A stage with the treatments that the structure calls for: spin polarisation for an element of the
-- spin screen, a dispersion correction for two-dimensional connectivity, SOC for an element of the
-- SOC screen, and the +U parameters where the DFT+U rule applies them.
abbrev pub treated_for : Evidence → StageSpec → StageSpec
treated_for e s = with_dft_u (observed_evaluation e.evaluation) (
    with_soc (any (is_screened soc_trigger_classes) e.elements) (
      with_dispersion (is_two_dimensional_connectivity e.observation)
        (with_spin (any (is_screened spin_trigger_classes) e.elements) s)))

treated_by : Option DftUEvaluation → Bool → Bool → Bool → StageSpec → StageSpec
treated_by u soc layered spin s =
    with_dft_u u (with_soc soc (with_dispersion layered (with_spin spin s)))

treated_by-same :
    (s : StageSpec) {u v : Option DftUEvaluation} {a a' b b' c c' : Bool}
    → u ≡ v
    → a ≡ a'
    → b ≡ b'
    → c ≡ c'
    → treated_by u a b c s ≡ treated_by v a' b' c' s
treated_by-same s e1 e2 e3 e4 = cc

-- Of the four identifiers, each is itself only.
module _ (layered spin soc dft_u : Bool) where
  only_spin : mentioned layered spin soc dft_u spin_consideration_id ≡ spin
  only_spin = ground arith

  only_soc : mentioned layered spin soc dft_u soc_consideration_id ≡ soc
  only_soc = ground arith

  only_dispersion : mentioned layered spin soc dft_u dispersion_consideration_id ≡ layered
  only_dispersion = ground arith

treated-payload :
    (workflow : Option WorkflowSpec) (e : Evidence) (s : StageSpec)
    → treated (method_consideration_payload workflow e) s ≡ treated_for e s
unfolding treated_by
treated-payload workflow e s =
    let layered = is_two_dimensional_connectivity e.observation in
    let spin = any (is_screened spin_trigger_classes) e.elements in
    let soc = any (is_screened soc_trigger_classes) e.elements in
    let dft_u = e.evaluation.mp_rule_triggered in
    treated_by-same s (evaluation_of-payload workflow e)
      (mentions-payload soc_consideration_id workflow e ∙ only_soc layered spin soc dft_u)
      (mentions-payload dispersion_consideration_id workflow e
        ∙ only_dispersion layered spin soc dft_u)
      (mentions-payload spin_consideration_id workflow e ∙ only_spin layered spin soc dft_u)

map-treated :
    (workflow : Option WorkflowSpec) (e : Evidence) (stages : List StageSpec)
    → map (treated (method_consideration_payload workflow e)) stages ≡ map (treated_for e) stages
map-treated workflow e [] = refl
map-treated workflow e (s ∷ stages) =
    ap₂ {A = StageSpec} {B = List StageSpec} (λ x l. x ∷ l) (treated-payload workflow e s)
      (map-treated workflow e stages)

-- When the automatic treatments resolve a workflow for a structure, the result is well formed, and
-- every stage has the treatments that the structure calls for: spin polarisation where an element
-- is in the spin screen, a dispersion correction where the connectivity is two-dimensional, SOC
-- where an element is in the SOC screen, and the +U parameters where the DFT+U rule applies them,
-- each on the stages that receive it.
pub resolve_default_treatments-treated_for :
    (e : Evidence) (w : WorkflowSpec) (r : ResolvedDefaultWorkflow)
    → resolve_default_treatments (method_consideration_payload (some w) e) w ≡ ok r
    → WellFormed r.resolved_workflow
      × (r.resolved_workflow ≡ record w { stages = map (treated_for e) w.stages })
resolve_default_treatments-treated_for e w r resolved =
    let (_, well_formed, same, _) =
      resolve_default_treatments_effect (method_consideration_payload (some w) e) w r resolved in
    (
      well_formed,
      same ∙ ap (λ (l : List StageSpec). record w { stages = l }) (map-treated (some w) e w.stages),
    )
