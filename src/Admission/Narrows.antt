-- ===== src/Admission/Narrows.antt =====
-- Admission accepts exactly the well-formed workflows without SOC on an HSE06 stage.
use bmd_compute.Prelude.{
  ℕ, ◌+◌, true, false, List, [], ◌∷◌, ok, >>=-eq-ok, All, ◌≡◌, refl, ◌↔◌, arith, Bool-cases, inl,
  inr, sym, ap, ◌∙◌,
}
use bmd_compute.Model.{Theory, Modifier, StageSpec, WorkflowSpec, contains}
use bmd_compute.Registry.Workflow.{validate_workflow_spec}
use bmd_compute.Registry.Workflow.WellFormed.{WellFormed, validate_workflow_spec_iff}
use bmd_compute.Admission.{
  stage_is_admissible_for_new_calculation, inadmissible_from, inadmissible_stage_indices,
  accept_unless, require_admissible_new_calculation,
}

-- The stage does not combine HSE06 with SOC.
abbrev pub Admissible : StageSpec → Type 0
Admissible s = s.theory ≡ Theory.hse06 → contains s.modifiers Modifier.soc ≡ false

pub stage_is_Admissible_iff :
    (s : StageSpec) → (stage_is_admissible_for_new_calculation s ≡ true) ↔ Admissible s
unfolding stage_is_admissible_for_new_calculation
stage_is_Admissible_iff s = (λ h e. ground arith, λ h. ground (arith, h))

pub inadmissible_iff :
    (n : ℕ) (stages : List StageSpec) → (inadmissible_from n stages ≡ []) ↔ All Admissible stages
unfolding inadmissible_from
inadmissible_iff n [] = (λ _. tt, λ _. refl)
inadmissible_iff n (s ∷ stages) =
    let one = stage_is_Admissible_iff s in
    let more = inadmissible_iff (n + 1) stages in
    elim (Bool-cases (stage_is_admissible_for_new_calculation s)) [
      | inl e ↦ (λ h. (one.0 e, more.0 (rw e at h)), λ h. rw (e, more.1 h.1))
      | inr e ↦ (λ h. absurd (ground arith), λ h. absurd (ground (arith, one.1 h.0)))
    ]

accept_unless_iff :
    (blocked : List ℕ) (w v : WorkflowSpec)
    → (accept_unless blocked w ≡ ok v) ↔ ((blocked ≡ []) × (w ≡ v))
unfolding accept_unless
accept_unless_iff [] w v = (λ h. (refl, cc), λ h. cc (h.1))
accept_unless_iff (i ∷ blocked) w v = (λ h. cc, λ h. cc (h.0))

-- A new calculation is admitted exactly when its workflow is well formed and no HSE06 stage has
-- SOC, and it is admitted as given.
pub require_admissible_new_calculation_iff :
    (w v : WorkflowSpec)
    → (require_admissible_new_calculation w ≡ ok v)
      ↔ (WellFormed w × All Admissible w.stages × (v ≡ w))
unfolding require_admissible_new_calculation inadmissible_stage_indices
require_admissible_new_calculation_iff w v = (
  λ h.
      let (u, hu, k) = >>=-eq-ok (validate_workflow_spec w) _ h in
      let (wf, same) = (validate_workflow_spec_iff w u).0 hu in
      let (empty, e) = (accept_unless_iff (inadmissible_from 1 u.stages) u v).0 k in
      (wf, (inadmissible_iff 1 w.stages).0 (rw same at empty), sym e ∙ same),
  λ h.
      rw ((validate_workflow_spec_iff w w).1 (h.0, refl), (inadmissible_iff 1 w.stages).1 h.1)
        (ap ok (sym h.2)),
)
