-- ===== src/Considerations/Runs.antt =====
-- Which stages a new calculation can run, as they are and with one modifier more, and that the loop
-- over the stages of a workflow decides it.
use bmd_compute.Prelude.{
  Bool, true, false, not, ◌&&◌, if◌then◌else◌, ◌≡◌, ◌≢◌, refl, sym, ap, ◌∙◌, subst, inl, inr, arith,
  Bool-cases, Result-cases,
}
use bmd_compute.Model.{Modifier, contains, StageSpec}
use bmd_compute.Registry.Support.{validate_stage_spec}
use bmd_compute.Registry.Support.Legal.{LegalStage, validate_stage_spec_iff}
use bmd_compute.Admission.Narrows.{Admissible, stage_is_Admissible_iff}
use bmd_compute.Considerations.Capabilities.{stage_is_supported, stage_with_modifier_added}

-- A new calculation can run the stage.
abbrev pub Runs : StageSpec → Type 0
Runs s = LegalStage s × Admissible s

-- The stage that differs in the one modifier, which it has.
pub record Extends (m : Modifier) (s t : StageSpec) : Type 0 where
  pub stage_type : t.stage_type ≡ s.stage_type
  pub theory : t.theory ≡ s.theory
  pub label : t.label ≡ s.label
  pub options : t.options ≡ s.options
  pub has : contains t.modifiers m ≡ true
  pub others : (k : Modifier) → k ≢ m → contains t.modifiers k ≡ contains s.modifiers k

abbrev pub Supports : Modifier → StageSpec → Type 0
Supports m s = (t : StageSpec) × Extends m s t × Runs t

abbrev pub Selects : Modifier → StageSpec → Type 0
Selects m s = (contains s.modifiers m ≡ true) × Runs s

-- The stage has the modifier, and a new calculation cannot run it.
abbrev pub Fails : Modifier → StageSpec → Type 0
Fails m s = (contains s.modifiers m ≡ true) × ¬ (Runs s)

Runs-of_supported : (s : StageSpec) → stage_is_supported s ≡ true → Runs s
unfolding stage_is_supported
Runs-of_supported s h = elim (Result-cases (validate_stage_spec s)) [
  | inl (t, e) ↦
      (((validate_stage_spec_iff s t).0 e).0, (stage_is_Admissible_iff s).0 (ground (arith, e, h)))
  | inr (x, e) ↦ absurd (ground (arith, e, h))
]

supported_of_Runs : (s : StageSpec) → Runs s → stage_is_supported s ≡ true
unfolding stage_is_supported
supported_of_Runs s (legal, admissible) =
    rw ((validate_stage_spec_iff s s).1 (legal, refl), stage_is_supported)
      ((stage_is_Admissible_iff s).1 admissible)

-- The code's stage is the one that differs in the modifier.
Extends-added : (m : Modifier) (s : StageSpec) → Extends m s (stage_with_modifier_added s m)
Extends-added m s = record {
  stage_type = refl;
  theory = refl;
  label = refl;
  options = refl;
  has = ground arith;
  others = λ k other. ground (arith, other);
}

Extends-unique :
    (m : Modifier) (s t : StageSpec) → Extends m s t → t ≡ stage_with_modifier_added s m
Extends-unique m s t e = ground (
  arith,
  e.stage_type,
  e.theory,
  e.label,
  e.options,
  e.has,
  e.others Modifier.soc,
  e.others Modifier.dft_u,
  e.others Modifier.dispersion,
  e.others Modifier.spin_polarized,
  e.others Modifier.gamma_only,
  e.others Modifier.ions_only,
)

supported_or_not : (s : StageSpec) → stage_is_supported s ≡ false → ¬ (Runs s)
supported_or_not s h runs = ground (arith, h, supported_of_Runs s runs)

-- What the loop asks of a stage.
abbrev pub asked : Modifier → StageSpec → Bool
asked m s =
    if contains s.modifiers m
    then stage_is_supported s
    else stage_is_supported (stage_with_modifier_added s m)

Extends-self : (m : Modifier) (s : StageSpec) → contains s.modifiers m ≡ true → Extends m s s
Extends-self m s has = record {
  stage_type = refl;
  theory = refl;
  label = refl;
  options = refl;
  has = has;
  others = λ k other. refl;
}

asked-added :
    (m : Modifier) (s : StageSpec) → asked m s ≡ stage_is_supported (stage_with_modifier_added s m)
asked-added m s = elim (Bool-cases (contains s.modifiers m)) [
  | inl has ↦ rw has (ap stage_is_supported (Extends-unique m s s (Extends-self m s has)))
  | inr lacks ↦ rw lacks refl
]

pub asked-Supports : (m : Modifier) (s : StageSpec) → asked m s ≡ true → Supports m s
asked-Supports m s h = (
  stage_with_modifier_added s m,
  Extends-added m s,
  Runs-of_supported (stage_with_modifier_added s m) (sym (asked-added m s) ∙ h),
)

pub asked-not-Supports : (m : Modifier) (s : StageSpec) → asked m s ≡ false → ¬ (Supports m s)
asked-not-Supports m s h (t, extends, runs) =
    supported_or_not (stage_with_modifier_added s m) (sym (asked-added m s) ∙ h)
      (subst Runs (Extends-unique m s t extends) runs)

asked_when_selected :
    (m : Modifier) (s : StageSpec)
    → contains s.modifiers m ≡ true
    → asked m s ≡ stage_is_supported s
asked_when_selected m s has = rw has refl

pub asked-Selects :
    (m : Modifier) (s : StageSpec) → contains s.modifiers m && asked m s ≡ true → Selects m s
asked-Selects m s h =
    let has : contains s.modifiers m ≡ true = ground (arith, h) in
    let own : asked m s ≡ true = ground (arith, h) in
    (has, Runs-of_supported s (sym (asked_when_selected m s has) ∙ own))

pub asked-not-Selects :
    (m : Modifier) (s : StageSpec) → contains s.modifiers m && asked m s ≡ false → ¬ (Selects m s)
asked-not-Selects m s h (has, runs) =
    let own : asked m s ≡ true = asked_when_selected m s has ∙ supported_of_Runs s runs in
    ground (arith, h, has, own)

pub asked-Fails :
    (m : Modifier) (s : StageSpec) → contains s.modifiers m && not (asked m s) ≡ true → Fails m s
asked-Fails m s h =
    let has : contains s.modifiers m ≡ true = ground (arith, h) in
    let own : asked m s ≡ false = ground (arith, h) in
    (has, supported_or_not s (sym (asked_when_selected m s has) ∙ own))

pub asked-not-Fails :
    (m : Modifier) (s : StageSpec)
    → contains s.modifiers m && not (asked m s) ≡ false
    → ¬ (Fails m s)
asked-not-Fails m s h (has, fails) =
    let own : asked m s ≡ true = ground (arith, h, has) in
    fails (Runs-of_supported s (sym (asked_when_selected m s has) ∙ own))
