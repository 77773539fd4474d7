-- ===== src/Registry/Workflow/WellFormed.antt =====
-- What a well-formed workflow is, and that `validate_workflow_spec` accepts exactly these.
use bmd_compute.Prelude.{
  ℕ, ◌+◌, true, Option, none, some, List, [], ◌∷◌, ok, ◌≡◌, ◌≢◌, refl, ◌↔◌, ◌⊎◌, inl, inr, arith,
  sym, ap, ◌∙◌, >>-eq-ok, >>=-eq-ok, Bool-cases, All,
}
use bmd_compute.Model.{StageSpec, WorkflowSpec, StageType, Theory, Modifier, contains}
use bmd_compute.Policy.Dispersion.{DispersionMethod}
use bmd_compute.Policy.StageDefinitions.Facts.{
  fixed_density, is_analysis, stage_reads_previous_charge_density_lem,
  stage_inherits_previous_band_count_lem,
}
use bmd_compute.Registry.Errors.{Check}
use bmd_compute.Registry.Support.{is_relax_or_static, stage_dispersion_method, validate_stage_spec}
use bmd_compute.Registry.Support.Legal.{LegalStage, validate_stage_spec_iff}
use bmd_compute.Registry.Workflow.{
  validate_stages, dispersion_pair, soc_pair, for_pairs, validate_dispersion_workflow_consistency,
  validate_previous_stage_soc_consistency, terminal_check, terminal_loop, validate_workflow_spec,
  require_stages,
}

-- `R` holds of each two neighbouring stages.
abbrev pub Neighbours {ℓ} : (StageSpec → StageSpec → Type ℓ) → List StageSpec → Type ℓ
Neighbours R [] = Unit
Neighbours R (s ∷ []) = Unit
Neighbours R (s ∷ t ∷ stages) = R s t × Neighbours R (t ∷ stages)

-- A stage that uses electronic data of the stage before it agrees with it on SOC, and on DFT+U if
-- it restarts from its charge density.
pub record SameElectronics (p s : StageSpec) : Type 0 where
  pub same_soc :
      is_analysis s.stage_type ≡ true
      → contains p.modifiers Modifier.soc ≡ contains s.modifiers Modifier.soc
  pub same_dft_u :
      fixed_density s.stage_type s.theory ≡ true
      → contains p.modifiers Modifier.dft_u ≡ contains s.modifiers Modifier.dft_u

-- Two PBE relaxations or static stages have the same dispersion correction.
pub record SameDispersion (p s : StageSpec) : Type 0 where
  pub same_method :
      p.theory ≡ Theory.pbe
      → s.theory ≡ Theory.pbe
      → is_relax_or_static p.stage_type ≡ true
      → is_relax_or_static s.stage_type ≡ true
      → stage_dispersion_method p ≡ stage_dispersion_method s

-- The stage before an analysis stage: static, at the same theory, or PBE before an HSE06 DOS.
pub record Precedes (p s : StageSpec) : Type 0 where
  pub static : p.stage_type ≡ StageType.static
  pub theory :
      (p.theory ≡ s.theory)
      ⊎ ((s.stage_type ≡ StageType.dos) × (s.theory ≡ Theory.hse06) × (p.theory ≡ Theory.pbe))

abbrev pub PrecededBy : Option StageSpec → StageSpec → Type 0
PrecededBy none s = ⊥
PrecededBy (some p) s = Precedes p s

-- DOS and band structure stages stand last, behind a fitting static stage.
abbrev pub Placed : Option StageSpec → List StageSpec → Type 0
Placed previous [] = Unit
Placed previous (s ∷ stages) =
    (is_analysis s.stage_type ≡ true → (stages ≡ []) × PrecededBy previous s)
    × Placed (some s) stages

pub record WellFormed (w : WorkflowSpec) : Type 0 where
  pub non_empty : w.stages ≢ []
  pub legal : All LegalStage w.stages
  pub same_dispersion : Neighbours SameDispersion w.stages
  pub same_electronics : Neighbours SameElectronics w.stages
  pub placed : Placed none w.stages

stages_sound :
    (stages checked : List StageSpec)
    → validate_stages stages ≡ ok checked
    → All LegalStage stages × (checked ≡ stages)
unfolding validate_stages
stages_sound [] checked h = (tt, cc)
stages_sound (s ∷ stages) checked h =
    let (t, ht, k) = >>=-eq-ok (validate_stage_spec s) _ h in
    let (rest, hr, e) = >>=-eq-ok (validate_stages stages) _ k in
    let (l, same) = (validate_stage_spec_iff s t).0 ht in
    let (ls, sames) = stages_sound stages rest hr in ((l, ls), cc)

stages_complete :
    (stages : List StageSpec) → All LegalStage stages → validate_stages stages ≡ ok stages
unfolding validate_stages
stages_complete [] l = refl
stages_complete (s ∷ stages) l =
    rw ((validate_stage_spec_iff s s).1 (l.0, refl), stages_complete stages l.1)

pairs_iff :
    (body : ℕ → StageSpec → StageSpec → Check) (R : StageSpec → StageSpec → Type 0)
    → ((n : ℕ) (s t : StageSpec) → LegalStage s → LegalStage t → (body n s t ≡ ok tt) ↔ R s t)
    → (n : ℕ) (stages : List StageSpec) → All LegalStage stages
    → (for_pairs body n stages ≡ ok tt) ↔ Neighbours R stages
pairs_iff body R step n [] l = (λ _. tt, λ _. refl)
pairs_iff body R step n (s ∷ []) l = (λ _. tt, λ _. refl)
pairs_iff body R step n (s ∷ t ∷ stages) l =
    let one = step n s t l.0 l.1.0 in
    let more = pairs_iff body R step (n + 1) (t ∷ stages) l.1 in
    (
      λ h. let (a, b) = >>-eq-ok (body n s t) _ h in (one.0 a, more.0 b),
      λ h. rw (one.1 h.0, more.1 h.1),
    )

method_total :
    (s : StageSpec)
    → LegalStage s
    → (o : Option DispersionMethod) × (stage_dispersion_method s ≡ ok o)
unfolding stage_dispersion_method
method_total s l = elim (Bool-cases (contains s.modifiers Modifier.dispersion)) [
  | inl e ↦ let (m, q) = l.dispersion_method e in (some m, rw (e, q, stage_dispersion_method))
  | inr e ↦ (none, rw (e, stage_dispersion_method))
]

dispersion_pair_iff :
    (n : ℕ) (p s : StageSpec)
    → LegalStage p
    → LegalStage s
    → (dispersion_pair p s ≡ ok tt) ↔ SameDispersion p s
unfolding dispersion_pair
dispersion_pair_iff n p s lp ls =
    let (m, hm) = method_total p lp in
    let (k, hk) = method_total s ls in
    (λ h. record { same_method = λ a b c d. ground arith }, λ h. ground (arith, h.same_method))

soc_pair_iff :
    (n : ℕ) (p s : StageSpec)
    → LegalStage p
    → LegalStage s
    → (soc_pair n p s ≡ ok tt) ↔ SameElectronics p s
unfolding soc_pair
soc_pair_iff n p s lp ls =
    let reads = stage_reads_previous_charge_density_lem s.stage_type s.theory in
    let inherits = stage_inherits_previous_band_count_lem s.stage_type s.theory in
    (
      λ h. record {
        same_soc = λ a. ground (arith, ls.executable);
        same_dft_u = λ a. ground (arith, ls.executable);
      },
      λ h. ground (arith, h.same_soc, h.same_dft_u, ls.executable),
    )

terminal_check_iff :
    (n : ℕ) (previous : Option StageSpec) (s : StageSpec) (rest : List StageSpec)
    → (terminal_check n previous s rest ≡ ok tt)
      ↔ (is_analysis s.stage_type ≡ true → (rest ≡ []) × PrecededBy previous s)
unfolding terminal_check
terminal_check_iff n none s rest = (λ h a. ground arith, λ h. ground (arith, h))
terminal_check_iff n (some p) s [] =
    (λ h a. (refl, record { static = ground arith; theory = ground arith }), λ h. ground (arith, h))
terminal_check_iff n (some p) s (t ∷ rest) = (λ h a. ground arith, λ h. ground (arith, h))

terminal_loop_iff :
    (n : ℕ) (previous : Option StageSpec) (stages : List StageSpec)
    → (terminal_loop n previous stages ≡ ok tt) ↔ Placed previous stages
unfolding terminal_loop
terminal_loop_iff n previous [] = (λ _. tt, λ _. refl)
terminal_loop_iff n previous (s ∷ stages) =
    let one = terminal_check_iff n previous s stages in
    let more = terminal_loop_iff (n + 1) (some s) stages in
    (
      λ h. let (a, b) = >>-eq-ok (terminal_check n previous s stages) _ h in (one.0 a, more.0 b),
      λ h. rw (one.1 h.0, more.1 h.1),
    )

nonempty_iff : (stages : List StageSpec) → (require_stages stages ≡ ok tt) ↔ (stages ≢ [])
unfolding require_stages
nonempty_iff [] = (λ h. cc, λ h. absurd (h refl))
nonempty_iff (s ∷ stages) = (λ h e. cc, λ h. refl)

WellFormed-of_valid :
    (w v : WorkflowSpec) → validate_workflow_spec w ≡ ok v → WellFormed w × (v ≡ w)
unfolding validate_workflow_spec validate_dispersion_workflow_consistency
    validate_previous_stage_soc_consistency
WellFormed-of_valid w v h =
    let (stages, h0, k0) = >>=-eq-ok (validate_stages w.stages) _ h in
    let (legal, same) = stages_sound w.stages stages h0 in
    let (h1, k1) = >>-eq-ok (require_stages stages) _ k0 in
    let (h2, k2) = >>-eq-ok (validate_dispersion_workflow_consistency stages) _ k1 in
    let (h3, k3) = >>-eq-ok (validate_previous_stage_soc_consistency stages) _ k2 in
    let (h4, k4) = >>-eq-ok (terminal_loop 1 none stages) _ k3 in
    (
      record {
        non_empty = (nonempty_iff w.stages).0 (rw same at h1);
        legal = legal;
        same_dispersion =
            (pairs_iff (λ _. dispersion_pair) SameDispersion dispersion_pair_iff 2 w.stages legal).0
              (rw same at h2);
        same_electronics =
            (pairs_iff soc_pair SameElectronics soc_pair_iff 2 w.stages legal).0 (rw same at h3);
        placed = (terminal_loop_iff 1 none w.stages).0 (rw same at h4);
      },
      cc,
    )

valid_of_WellFormed : (w : WorkflowSpec) → WellFormed w → validate_workflow_spec w ≡ ok w
unfolding validate_workflow_spec validate_dispersion_workflow_consistency
    validate_previous_stage_soc_consistency
valid_of_WellFormed w f = rw (
  stages_complete w.stages f.legal,
  (nonempty_iff w.stages).1 f.non_empty,
  (pairs_iff (λ _. dispersion_pair) SameDispersion dispersion_pair_iff 2 w.stages f.legal).1
      f.same_dispersion,
  (pairs_iff soc_pair SameElectronics soc_pair_iff 2 w.stages f.legal).1 f.same_electronics,
  (terminal_loop_iff 1 none w.stages).1 f.placed,
)

-- validate_workflow_spec accepts exactly the well-formed workflows (non-empty, every stage legal,
-- neighbouring stages consistent in dispersion, SOC and DFT+U, analysis stages last behind a
-- fitting static stage), and returns them unchanged.
pub validate_workflow_spec_iff :
    (w v : WorkflowSpec) → (validate_workflow_spec w ≡ ok v) ↔ (WellFormed w × (v ≡ w))
validate_workflow_spec_iff w v =
    (WellFormed-of_valid w v, λ h. valid_of_WellFormed w h.0 ∙ ap ok (sym h.1))
