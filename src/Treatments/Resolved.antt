-- ===== src/Treatments/Resolved.antt =====
-- What the resolution of the automatic treatments does to a workflow.
use bmd_compute.Prelude.{
  ℕ, ◌+◌, Bool, Option, none, some, List, [], ◌∷◌, map, ok, ok-injective, >>=-eq-ok, >>-eq-ok,
  raise_if, All, ◌≡◌, refl, ap, ap₂, subst, sym, ◌∙◌, arith, str_eq, if◌then◌else◌,
}
use bmd_compute.Model.{Modifier, StageSpec, WorkflowSpec}
use bmd_compute.Registry.Errors.{ValidationError, dimensionality_analysis_failed}
use bmd_compute.Registry.Workflow.{validate_workflow_spec}
use bmd_compute.Registry.Workflow.WellFormed.{WellFormed, validate_workflow_spec_iff}
use bmd_compute.Admission.{require_admissible_new_calculation}
use bmd_compute.Admission.Narrows.{Admissible, require_admissible_new_calculation_iff}
use bmd_compute.Treatments.Resolve.{
  DftUEvaluation, Payload, ResolvedDefaultWorkflow, Progress, spin_step, dispersion_step, soc_step,
  treat, start, mentions, evaluation_of, if_any, spin_consideration_id, dispersion_consideration_id,
  soc_consideration_id, resolve_default_treatments,
}
use bmd_compute.Treatments.Effect.{
  with_spin, with_dispersion, omits_soc, with_soc, with_dft_u, treated, numbers_where,
  spin_step_effect, dispersion_step_effect, soc_step_effect, dft_u_step_effect,
}

pub map-map_treated :
    (f g : StageSpec → StageSpec) (stages : List StageSpec)
    → map f (map g stages) ≡ map (λ s. f (g s)) stages
map-map_treated f g [] = refl
map-map_treated f g (s ∷ stages) = ap (λ l. f (g s) ∷ l) (map-map_treated f g stages)

-- The test for an omitted stage does not see the earlier treatments.
numbers-map :
    (f : StageSpec → StageSpec)
    → ((s : StageSpec) → omits_soc (f s) ≡ omits_soc s)
    → (n : ℕ) (stages : List StageSpec)
    → numbers_where omits_soc n (map f stages) ≡ numbers_where omits_soc n stages
numbers-map f h n [] = refl
numbers-map f h n (s ∷ stages) = rw (h s, numbers-map f h (n + 1) stages)

omits_kept :
    (a b : Bool) (s : StageSpec) → omits_soc (with_dispersion b (with_spin a s)) ≡ omits_soc s
omits_kept a b s = ground arith

-- The steps together: each stage is treated, and the stages where SOC is left out are recorded.
treat_effect :
    (payload : Payload) (w : WorkflowSpec) (q : Progress)
    → treat payload (start w) ≡ ok q
    → (q.stages ≡ map (treated payload) w.stages)
      × (q.omitted ≡ (
          if mentions soc_consideration_id payload.consideration_ids
          then if_any soc_consideration_id Modifier.soc (numbers_where omits_soc 1 w.stages)
          else []))
unfolding treat
treat_effect payload w q h =
    let ids = payload.consideration_ids in
    let (p1, h1, k1) = >>=-eq-ok (spin_step ids (start w)) _ h in
    let (p2, h2, k2) = >>=-eq-ok (dispersion_step ids p1) _ k1 in
    let (p3, h3, k3) = >>=-eq-ok (soc_step ids p2) _ k2 in
    let e1 = spin_step_effect ids (start w) p1 h1 in
    let e2 = dispersion_step_effect ids p1 p2 h2 in
    let e3 = soc_step_effect ids p2 p3 h3 in
    let e4 = dft_u_step_effect (evaluation_of payload) p3 q k3 in
    let f1 = with_spin (mentions spin_consideration_id ids) in
    let f2 = with_dispersion (mentions dispersion_consideration_id ids) in
    let f3 = with_soc (mentions soc_consideration_id ids) in
    let f4 = with_dft_u (evaluation_of payload) in
    let g2 = λ (s : StageSpec). f2 (f1 s) in
    let g3 = λ (s : StageSpec). f3 (g2 s) in
    let m2 = map-map_treated f2 f1 w.stages in
    let m3 = map-map_treated f3 g2 w.stages in
    let m4 = map-map_treated f4 g3 w.stages in
    let kept =
      numbers-map g2
        (omits_kept (mentions spin_consideration_id ids) (mentions dispersion_consideration_id ids))
        1 w.stages in
    let stages2 : p2.stages ≡ map g2 w.stages = cc (e1.0, e2.0, m2) in
    let omitted2 : p2.omitted ≡ [] = cc (e1.1, e2.1) in
    (cc (stages2, e3.0, e4.0, m3, m4), e4.1 ∙ e3.1 ∙ (rw (stages2, omitted2, kept)))

-- The parts of a successful resolution.
resolve_default_treatments_parts :
    (payload : Payload) (w : WorkflowSpec) (r : ResolvedDefaultWorkflow)
    → resolve_default_treatments payload w ≡ ok r
    → (base : WorkflowSpec) × (p : Progress) × (validate_workflow_spec w ≡ ok base)
      × (treat payload (start base) ≡ ok p)
      × (validate_workflow_spec (record base { stages = p.stages }) ≡ ok r.resolved_workflow)
      × (r.base_workflow ≡ base)
      × (r.omitted_treatments ≡ p.omitted)
unfolding resolve_default_treatments
resolve_default_treatments_parts payload w r h =
    let failed =
      raise_if (str_eq payload.dimensionality_status "analysis_failed")
        dimensionality_analysis_failed in
    let (base, hb, k0) = >>=-eq-ok (validate_workflow_spec w) _ h in
    let (_, k1) = >>-eq-ok failed _ k0 in
    let (p, hp, k2) = >>=-eq-ok (treat payload (start base)) _ k1 in
    let (v, hv, k3) = >>=-eq-ok (validate_workflow_spec (record base { stages = p.stages })) _ k2 in
    let same = ok-injective ValidationError k3 in
    (
      base,
      p,
      hb,
      hp,
      hv ∙ ap (λ x. ok (ResolvedDefaultWorkflow.resolved_workflow x)) same,
      sym (ap (λ x. ResolvedDefaultWorkflow.base_workflow x) same),
      sym (ap (λ x. ResolvedDefaultWorkflow.omitted_treatments x) same),
    )

-- When the automatic treatments resolve a workflow, the base workflow is returned unchanged, the
-- resolved workflow is well formed and is the base workflow with every stage treated as the
-- payload calls for, and the omission record names exactly the HSE06 stages, relaxations aside,
-- when the payload calls for SOC.
pub resolve_default_treatments_effect :
    (payload : Payload) (w : WorkflowSpec) (r : ResolvedDefaultWorkflow)
    → resolve_default_treatments payload w ≡ ok r
    → (r.base_workflow ≡ w)
      × WellFormed r.resolved_workflow
      × (r.resolved_workflow ≡ record w { stages = map (treated payload) w.stages })
      × (r.omitted_treatments ≡ (
          if mentions soc_consideration_id payload.consideration_ids
          then if_any soc_consideration_id Modifier.soc (numbers_where omits_soc 1 w.stages)
          else []))
resolve_default_treatments_effect payload w r h =
    let (base, p, hb, hp, hv, eb, eo) = resolve_default_treatments_parts payload w r h in
    let (_, same) = (validate_workflow_spec_iff w base).0 hb in
    let (wf, e) =
      (validate_workflow_spec_iff (record base { stages = p.stages }) r.resolved_workflow).0 hv in
    let (stages, omitted) = treat_effect payload base p hp in
    let e_stages : p.stages ≡ map (treated payload) w.stages =
      stages ∙ ap (λ x. map (treated payload) (WorkflowSpec.stages x)) same in
    let e_record : r.resolved_workflow ≡ record w { stages = map (treated payload) w.stages } =
      e
      ∙ ap₂ {A = WorkflowSpec} {B = List StageSpec} (λ x l. record x { stages = l }) same
          e_stages in
    let omissions = λ (x : WorkflowSpec).
      if mentions soc_consideration_id payload.consideration_ids
      then if_any soc_consideration_id Modifier.soc (numbers_where omits_soc 1 x.stages)
      else [] in
    (eb ∙ same, subst WellFormed (sym e) wf, e_record, eo ∙ omitted ∙ ap omissions same)

dft_u-Admissible :
    (e : Option DftUEvaluation) (s : StageSpec) → Admissible s → Admissible (with_dft_u e s)
dft_u-Admissible none s a h = a h
dft_u-Admissible (some e) s a h = ground (arith, a)

soc-Admissible : (b : Bool) (s : StageSpec) → Admissible s → Admissible (with_soc b s)
soc-Admissible b s a h = ground (arith, a)

dispersion-Admissible : (b : Bool) (s : StageSpec) → Admissible s → Admissible (with_dispersion b s)
dispersion-Admissible b s a h = ground (arith, a)

spin-Admissible : (b : Bool) (s : StageSpec) → Admissible s → Admissible (with_spin b s)
spin-Admissible b s a h = ground (arith, a)

Admissible-treated :
    (payload : Payload) (s : StageSpec) → Admissible s → Admissible (treated payload s)
Admissible-treated payload s a =
    let ids = payload.consideration_ids in
    let s1 = with_spin (mentions spin_consideration_id ids) s in
    let s2 = with_dispersion (mentions dispersion_consideration_id ids) s1 in
    let s3 = with_soc (mentions soc_consideration_id ids) s2 in
    let a1 = spin-Admissible (mentions spin_consideration_id ids) s a in
    let a2 = dispersion-Admissible (mentions dispersion_consideration_id ids) s1 a1 in
    let a3 = soc-Admissible (mentions soc_consideration_id ids) s2 a2 in
    dft_u-Admissible (evaluation_of payload) s3 a3

all-treated :
    (payload : Payload) (stages : List StageSpec)
    → All Admissible stages
    → All Admissible (map (treated payload) stages)
all-treated payload [] a = tt
all-treated payload (s ∷ stages) a =
    (Admissible-treated payload s a.0, all-treated payload stages a.1)

-- When every stage of the base workflow is admissible, the workflow that the automatic treatments
-- resolve passes the admission of new calculations.
pub resolve_default_treatments-Admissible :
    (payload : Payload) (w : WorkflowSpec) (r : ResolvedDefaultWorkflow)
    → All Admissible w.stages
    → resolve_default_treatments payload w ≡ ok r
    → require_admissible_new_calculation r.resolved_workflow ≡ ok r.resolved_workflow
resolve_default_treatments-Admissible payload w r a h =
    let (_, wf, e, _) = resolve_default_treatments_effect payload w r h in
    (require_admissible_new_calculation_iff r.resolved_workflow r.resolved_workflow).1
      (wf, rw e (all-treated payload w.stages a), refl)
