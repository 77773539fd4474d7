-- ===== src/Treatments/Total.antt =====
-- The automatic treatments resolve every Desired Output.
pub mod Outputs
use bmd_compute.Prelude.{
  ℕ, String, Bool, true, false, Option, none, some, List, [], ◌∷◌, map, All, Result, ok, err,
  raise_if, ◌≡◌, refl, arith, Bool-cases, Result-cases, inl, inr, str_eq, ap, sym, ◌∙◌, subst,
}
use bmd_compute.Model.{StageSpec, WorkflowSpec, Json, null}
use bmd_compute.Registry.Errors.{ValidationError, dimensionality_analysis_failed}
use bmd_compute.Registry.Support.{is_frozen_dft_u}
use bmd_compute.Registry.Workflow.{validate_workflow_spec}
use bmd_compute.Treatments.Apply.{
  Applied, AppliedSoc, apply_spin_polarisation, apply_dispersion, apply_soc, apply_dft_u,
}
use bmd_compute.Treatments.Resolve.{
  DftUEvaluation, Payload, Progress, ResolvedDefaultWorkflow, resolve_default_treatments, treat,
  start, spin_step, dispersion_step, soc_step, dft_u_step, evaluation_of, mentions,
  spin_consideration_id, dispersion_consideration_id, soc_consideration_id,
}
use bmd_compute.Treatments.Effect.{
  with_spin, with_dispersion, with_soc, with_parameters, with_dft_u, applies, spin_step_effect,
  dispersion_step_effect, soc_step_effect, dft_u_step_effect,
}
use bmd_compute.Treatments.Resolved.{map-map_treated}

-- The stages with the treatments that the flags call for.
abbrev pub spun : Bool → List StageSpec → List StageSpec
spun a = map (with_spin a)

abbrev pub dispersed : Bool → Bool → List StageSpec → List StageSpec
dispersed a b = map (λ s. with_dispersion b (with_spin a s))

abbrev pub coupled : Bool → Bool → Bool → List StageSpec → List StageSpec
coupled a b c = map (λ s. with_soc c (with_dispersion b (with_spin a s)))

abbrev pub corrected : Bool → Bool → Bool → Bool → Json → List StageSpec → List StageSpec
corrected a b c d v =
    map (λ s. with_parameters d v (with_soc c (with_dispersion b (with_spin a s))))

-- No combination of treatments fails on the workflow.
pub record Treatable (w : WorkflowSpec) : Type 0 where
  pub base_valid : validate_workflow_spec w ≡ ok w
  pub spin_applies : (x : Applied) × (apply_spin_polarisation 1 w.stages ≡ ok x)
  pub dispersion_applies :
      (a : Bool) → (x : Applied) × (apply_dispersion 1 (spun a w.stages) ≡ ok x)
  pub soc_applies : (a b : Bool) → (x : AppliedSoc) × (apply_soc 1 (dispersed a b w.stages) ≡ ok x)
  pub dft_u_applies :
      (a b c : Bool) (v : Json)
      → is_frozen_dft_u v ≡ true
      → (x : Applied) × (apply_dft_u v 1 (coupled a b c w.stages) ≡ ok x)
  pub result_valid :
      (a b c d : Bool) (v : Json)
      → (d ≡ true → is_frozen_dft_u v ≡ true)
      → validate_workflow_spec (record w { stages = corrected a b c d v w.stages })
        ≡ ok (record w { stages = corrected a b c d v w.stages })

spin_step_total :
    (ids : List String) (p : Progress) (x : Applied)
    → apply_spin_polarisation 1 p.stages ≡ ok x
    → (q : Progress) × (spin_step ids p ≡ ok q)
unfolding spin_step
spin_step_total ids p x h = elim (Result-cases (spin_step ids p)) [
  | inl (q, e) ↦ (q, e)
  | inr (y, e) ↦ absurd (ground (arith, h, e))
]

dispersion_step_total :
    (ids : List String) (p : Progress) (x : Applied)
    → apply_dispersion 1 p.stages ≡ ok x
    → (q : Progress) × (dispersion_step ids p ≡ ok q)
unfolding dispersion_step
dispersion_step_total ids p x h = elim (Result-cases (dispersion_step ids p)) [
  | inl (q, e) ↦ (q, e)
  | inr (y, e) ↦ absurd (ground (arith, h, e))
]

soc_step_total :
    (ids : List String) (p : Progress) (x : AppliedSoc)
    → apply_soc 1 p.stages ≡ ok x
    → (q : Progress) × (soc_step ids p ≡ ok q)
unfolding soc_step
soc_step_total ids p x h = elim (Result-cases (soc_step ids p)) [
  | inl (q, e) ↦ (q, e)
  | inr (y, e) ↦ absurd (ground (arith, h, e))
]

-- The DFT+U parameters are frozen where the evaluation applies them.
abbrev pub Frozen : Option DftUEvaluation → Type 0
Frozen none = Unit
Frozen (some e) = applies e ≡ true → is_frozen_dft_u e.parameters ≡ true

dft_u_step_total :
    (evaluation : Option DftUEvaluation) (p : Progress)
    → Frozen evaluation
    → ((v : Json) → is_frozen_dft_u v ≡ true → (x : Applied) × (apply_dft_u v 1 p.stages ≡ ok x))
    → (q : Progress) × (dft_u_step evaluation p ≡ ok q)
unfolding dft_u_step
dft_u_step_total none p f h = (p, refl)
dft_u_step_total (some e) p f h = elim (Result-cases (dft_u_step (some e) p)) [
  | inl (q, k) ↦ (q, k)
  | inr (y, k) ↦ elim (Bool-cases (applies e)) [
    | inl on ↦ let (x, l) = h e.parameters (f on) in absurd (ground (arith, on, l, k))
    | inr off ↦ absurd (ground (arith, off, k))
  ]
]

evaluated : Option DftUEvaluation → Bool × Json
evaluated none = (false, null)
evaluated (some e) = (applies e, e.parameters)

evaluated-Frozen :
    (evaluation : Option DftUEvaluation)
    → Frozen evaluation
    → (evaluated evaluation).0 ≡ true
    → is_frozen_dft_u (evaluated evaluation).1 ≡ true
unfolding evaluated
evaluated-Frozen none f h = cc
evaluated-Frozen (some e) f h = f h

with_dft_u-evaluated :
    (evaluation : Option DftUEvaluation) (f : StageSpec → StageSpec) (stages : List StageSpec)
    → map (with_dft_u evaluation) (map f stages)
      ≡ map (λ s. with_parameters (evaluated evaluation).0 (evaluated evaluation).1 (f s)) stages
unfolding evaluated
with_dft_u-evaluated none f stages = map-map_treated (with_dft_u none) f stages
with_dft_u-evaluated (some e) f stages = map-map_treated (with_dft_u (some e)) f stages

-- The steps of the resolution, one after the other.
assemble :
    (payload : Payload) (w : WorkflowSpec) (p1 p2 p3 p4 : Progress) (x : WorkflowSpec)
    → validate_workflow_spec w ≡ ok w
    → str_eq payload.dimensionality_status "analysis_failed" ≡ false
    → spin_step payload.consideration_ids (start w) ≡ ok p1
    → dispersion_step payload.consideration_ids p1 ≡ ok p2
    → soc_step payload.consideration_ids p2 ≡ ok p3
    → dft_u_step (evaluation_of payload) p3 ≡ ok p4
    → validate_workflow_spec (record w { stages = p4.stages }) ≡ ok x
    → (r : ResolvedDefaultWorkflow) × (resolve_default_treatments payload w ≡ ok r)
unfolding resolve_default_treatments treat
assemble payload w p1 p2 p3 p4 x valid analysed k1 k2 k3 k4 result =
    elim (Result-cases (resolve_default_treatments payload w)) [
      | inl (r, e) ↦ (r, e)
      | inr (y, e) ↦ absurd (ground (arith, valid, analysed, k1, k2, k3, k4, result, e))
    ]

-- A treatable workflow is resolved for every payload with a successful analysis.
pub Treatable-resolves :
    (payload : Payload) (w : WorkflowSpec)
    → Treatable w
    → str_eq payload.dimensionality_status "analysis_failed" ≡ false
    → Frozen (evaluation_of payload)
    → (r : ResolvedDefaultWorkflow) × (resolve_default_treatments payload w ≡ ok r)
Treatable-resolves payload w t analysed frozen =
    let ids = payload.consideration_ids in
    let a = mentions spin_consideration_id ids in
    let b = mentions dispersion_consideration_id ids in
    let c = mentions soc_consideration_id ids in
    let d = (evaluated (evaluation_of payload)).0 in
    let v = (evaluated (evaluation_of payload)).1 in
    let (x1, h1) = t.spin_applies in
    let (p1, k1) = spin_step_total ids (start w) x1 h1 in
    let e1 = (spin_step_effect ids (start w) p1 k1).0 in
    let (x2, h2) = t.dispersion_applies a in
    let (p2, k2) = dispersion_step_total ids p1 x2 (ap (apply_dispersion 1) e1 ∙ h2) in
    let e2 : p2.stages ≡ dispersed a b w.stages =
      (dispersion_step_effect ids p1 p2 k2).0
      ∙ ap (map (with_dispersion b)) e1
      ∙ map-map_treated (with_dispersion b) (with_spin a) w.stages in
    let (x3, h3) = t.soc_applies a b in
    let (p3, k3) = soc_step_total ids p2 x3 (ap (apply_soc 1) e2 ∙ h3) in
    let e3 : p3.stages ≡ coupled a b c w.stages =
      (soc_step_effect ids p2 p3 k3).0
      ∙ ap (map (with_soc c)) e2
      ∙ map-map_treated (with_soc c) (λ s. with_dispersion b (with_spin a s)) w.stages in
    let dft_u : (u : Json)
        → is_frozen_dft_u u ≡ true
        → (x : Applied) × (apply_dft_u u 1 p3.stages ≡ ok x) =
      λ u f. let (x, h) = t.dft_u_applies a b c u f in (x, ap (apply_dft_u u 1) e3 ∙ h) in
    let (p4, k4) = dft_u_step_total (evaluation_of payload) p3 frozen dft_u in
    let e4 : p4.stages ≡ corrected a b c d v w.stages =
      (dft_u_step_effect (evaluation_of payload) p3 p4 k4).0
      ∙ ap (map (with_dft_u (evaluation_of payload))) e3
      ∙ with_dft_u-evaluated (evaluation_of payload)
          (λ s. with_soc c (with_dispersion b (with_spin a s))) w.stages in
    let valid = t.result_valid a b c d v (evaluated-Frozen (evaluation_of payload) frozen) in
    assemble payload w p1 p2 p3 p4 (record w { stages = corrected a b c d v w.stages }) t.base_valid
      analysed k1 k2 k3 k4 (ap (λ l. validate_workflow_spec (record w { stages = l })) e4 ∙ valid)
