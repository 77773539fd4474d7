-- ===== src/Treatments/Resolve.antt =====
-- backend/calculations/default_treatments.py: the treatments that a Desired Output workflow gets
-- automatically. What `method_consideration_payload` observed of the structure is an argument.
use bmd_compute.Prelude.{
  ℕ, String, Bool, ◌||◌, Option, none, some, List, [], ◌∷◌, ◌++◌, Result, ok, ◌>>=◌, ◌>>◌, raise_if,
  any, str_eq, if◌then◌else◌,
}
use bmd_compute.Model.{Modifier, StageSpec, WorkflowSpec, Json}
use bmd_compute.Registry.Errors.{ValidationError, dimensionality_analysis_failed}
use bmd_compute.Registry.Workflow.{validate_workflow_spec}
use bmd_compute.Treatments.Apply.{apply_spin_polarisation, apply_dispersion, apply_soc, apply_dft_u}

-- The DFT+U consideration's `dft_u_evaluation`.
pub record DftUEvaluation : Type 0 where
  pub decision : String
  pub parameters : Json

-- What the resolution reads of the payload: the dimensionality status, the identifiers of the
-- considerations, and the DFT+U evaluation where the payload has one.
pub record Payload : Type 0 where
  pub dimensionality_status : String
  pub consideration_ids : List String
  pub dft_u_evaluation : Option DftUEvaluation

pub record AppliedDefaultTreatment : Type 0 where
  pub consideration_id : String
  pub modifier : Modifier
  pub stage_indices : List ℕ

pub record ResolvedDefaultWorkflow : Type 0 where
  pub base_workflow : WorkflowSpec
  pub resolved_workflow : WorkflowSpec
  pub applied_treatments : List AppliedDefaultTreatment
  pub advisory_consideration_ids : List String
  pub not_applicable_considerations : List String
  pub omitted_treatments : List AppliedDefaultTreatment

abbrev pub spin_consideration_id : String
spin_consideration_id = "spin.composition_screen"

abbrev pub dispersion_consideration_id : String
dispersion_consideration_id = "dispersion.two_dimensional_connectivity"

abbrev pub soc_consideration_id : String
soc_consideration_id = "soc.heavy_elements"

abbrev pub dft_u_consideration_id : String
dft_u_consideration_id = "dftu.mp_oxide_fluoride"

-- The local variables of `resolve_default_treatments`.
pub record Progress : Type 0 where
  pub stages : List StageSpec
  pub applied : List AppliedDefaultTreatment
  pub not_applicable : List String
  pub omitted : List AppliedDefaultTreatment

abbrev treatment : String → Modifier → List ℕ → AppliedDefaultTreatment
treatment name m indices = record { consideration_id = name; modifier = m; stage_indices = indices }

-- A treatment that applies to no stage is None.
abbrev pub if_any : String → Modifier → List ℕ → List AppliedDefaultTreatment
if_any name m [] = []
if_any name m (i ∷ indices) = treatment name m (i ∷ indices) ∷ []

abbrev pub mentions : String → List String → Bool
mentions name = any (λ candidate. str_eq name candidate)

unfoldable pub spin_step : List String → Progress → Result ValidationError Progress
spin_step ids p =
    if mentions spin_consideration_id ids
    then (do
      (stages, indices) ← apply_spin_polarisation 1 p.stages
      ok (record p {
        stages = stages;
        applied = p.applied ++ treatment spin_consideration_id Modifier.spin_polarized indices ∷ [];
      }))
    else ok p

unfoldable pub dispersion_step : List String → Progress → Result ValidationError Progress
dispersion_step ids p =
    if mentions dispersion_consideration_id ids
    then (do
      (stages, indices) ← apply_dispersion 1 p.stages
      ok (record p {
        stages = stages;
        applied = p.applied ++ if_any dispersion_consideration_id Modifier.dispersion indices;
      }))
    else ok p

abbrev none_of : List ℕ → List ℕ → String → List String
none_of [] [] name = name ∷ []
none_of _ _ name = []

unfoldable pub soc_step : List String → Progress → Result ValidationError Progress
soc_step ids p =
    if mentions soc_consideration_id ids
    then (do
      (stages, indices, omitted) ← apply_soc 1 p.stages
      ok (record p {
        stages = stages;
        applied = p.applied ++ if_any soc_consideration_id Modifier.soc indices;
        omitted = p.omitted ++ if_any soc_consideration_id Modifier.soc omitted;
        not_applicable = p.not_applicable ++ none_of indices omitted soc_consideration_id;
      }))
    else ok p

unfoldable pub dft_u_step : Option DftUEvaluation → Progress → Result ValidationError Progress
dft_u_step none p = ok p
dft_u_step (some evaluation) p =
    if str_eq evaluation.decision "apply"
    then (do
      (stages, indices) ← apply_dft_u evaluation.parameters 1 p.stages
      ok (record p {
        stages = stages;
        applied = p.applied ++ if_any dft_u_consideration_id Modifier.dft_u indices;
        not_applicable = p.not_applicable ++ none_of indices [] dft_u_consideration_id;
      }))
    else ok (record p { not_applicable = p.not_applicable ++ dft_u_consideration_id ∷ [] })

-- `_dft_u_evaluation`: only a payload with the DFT+U consideration has an evaluation.
abbrev pub evaluation_of : Payload → Option DftUEvaluation
evaluation_of payload =
    if mentions dft_u_consideration_id payload.consideration_ids
    then payload.dft_u_evaluation
    else none

abbrev applied_mentions : String → List AppliedDefaultTreatment → Bool
applied_mentions name = any (λ t. str_eq name t.consideration_id)

advisory : Progress → List String → List String
advisory p [] = []
advisory p (name ∷ ids) =
    let rest = advisory p ids in
    if applied_mentions name p.applied
      || mentions name p.not_applicable
      || applied_mentions name p.omitted
    then rest
    else name ∷ rest

abbrev pub start : WorkflowSpec → Progress
start w = record { stages = w.stages; applied = []; not_applicable = []; omitted = [] }

-- The steps in the order of the code.
unfoldable pub treat : Payload → Progress → Result ValidationError Progress
unfolding spin_step dispersion_step soc_step dft_u_step
treat payload p0 = do
  p1 ← spin_step payload.consideration_ids p0
  p2 ← dispersion_step payload.consideration_ids p1
  p3 ← soc_step payload.consideration_ids p2
  dft_u_step (evaluation_of payload) p3

unfoldable pub resolve_default_treatments :
    Payload → WorkflowSpec → Result ValidationError ResolvedDefaultWorkflow
unfolding advisory
resolve_default_treatments payload base_workflow = do
  base ← validate_workflow_spec base_workflow
  raise_if (str_eq payload.dimensionality_status "analysis_failed") dimensionality_analysis_failed
  p ← treat payload (start base)
  resolved ← validate_workflow_spec (record base { stages = p.stages })
  ok (record {
    base_workflow = base;
    resolved_workflow = resolved;
    applied_treatments = p.applied;
    advisory_consideration_ids = advisory p payload.consideration_ids;
    not_applicable_considerations = p.not_applicable;
    omitted_treatments = p.omitted;
  })
