-- ===== src/Registry/Compatibility/RoundTrip.antt =====
-- Every supported calculation becomes a workflow, and the workflow gives it back.
use bmd_compute.Prelude.{
  String, true, false, none, some, List, [], ◌∷◌, map, ok, ◌≡◌, ◌≢◌, refl, arith, All, any,
  Option-cases, inl, inr,
}
use bmd_compute.Model.{
  Purpose, Theory, StageType, Modifier, ModifierSet, contains, CalculationSpec, StageSpec,
  WorkflowSpec, end, is_theory,
}
use bmd_compute.Registry.Support.{stage_dispersion_method}
use bmd_compute.Policy.Dispersion.{default_dispersion_method, dispersion_method_from_options}
use bmd_compute.Registry.Support.Legal.{LegalStage, allowed}
use bmd_compute.Registry.Workflow.WellFormed.{
  WellFormed, validate_workflow_spec_iff, SameDispersion, SameElectronics, Precedes, Neighbours,
  Placed,
}
use bmd_compute.Registry.Compatibility.{
  compatibility_workflow, validate_calculation_spec, shared_stage,
  workflow_spec_from_calculation_spec, calculation_spec_from_workflow_spec, choose, has_options,
  same_modifiers, purpose_stage_types,
}

default_method : dispersion_method_from_options end ≡ ok default_dispersion_method
unfolding dispersion_method_from_options
default_method = refl

shared_legal :
    (c : CalculationSpec) (t : StageType)
    → t ≢ StageType.phonon_forces
    → c.theory ≢ Theory.r2scan
    → ((m : Modifier) → contains c.modifiers m ≡ true → allowed c.theory t m ≡ true)
    → LegalStage (shared_stage c t)
shared_legal c t nt nr mods = record {
  executable = nt;
  implemented = nr;
  modifiers = mods;
  option_keys = λ k h. cc;
  dispersion_selected = λ h. cc;
  dispersion_method = λ h. (default_dispersion_method, default_method);
  frozen_dft_u = λ v h. cc;
}

shared_dispersion :
    (c : CalculationSpec) (s t : StageType) → SameDispersion (shared_stage c s) (shared_stage c t)
unfolding stage_dispersion_method
shared_dispersion c s t = record { same_method = λ _ _ _ _. refl }

shared_electronics :
    (c : CalculationSpec) (s t : StageType) → SameElectronics (shared_stage c s) (shared_stage c t)
shared_electronics c s t = record { same_soc = λ _. refl; same_dft_u = λ _. refl }

abbrev types_of : Purpose → List StageType
types_of p = elim (purpose_stage_types p) [ none ↦ [] | some types ↦ types ]

abbrev Carries : Theory → ModifierSet → StageType → Type 0
Carries theory mods t =
    (t ≢ StageType.phonon_forces)
    × ((m : Modifier) → contains mods m ≡ true → allowed theory t m ≡ true)

-- The stage types of a purpose carry the modifiers that the table accepts for the purpose.
compatible_carries :
    (p : Purpose) (theory : Theory) (mods : ModifierSet) (name : String)
    → compatibility_workflow p theory mods ≡ some name
    → All (Carries theory mods) (types_of p)
compatible_carries Purpose.relax theory mods name h = ((λ e. cc, λ m c. ground arith), tt)
compatible_carries Purpose.static theory mods name h = ((λ e. cc, λ m c. ground arith), tt)
compatible_carries Purpose.relax_static theory mods name h =
    ((λ e. cc, λ m c. ground arith), ((λ e. cc, λ m c. ground arith), tt))
compatible_carries Purpose.double_relax theory mods name h =
    ((λ e. cc, λ m c. ground arith), ((λ e. cc, λ m c. ground arith), tt))
compatible_carries Purpose.dos theory mods name h = (
  (λ e. cc, λ m c. ground arith),
  ((λ e. cc, λ m c. ground arith), ((λ e. cc, λ m c. ground arith), tt)),
)
compatible_carries Purpose.band_structure theory mods name h = (
  (λ e. cc, λ m c. ground arith),
  ((λ e. cc, λ m c. ground arith), ((λ e. cc, λ m c. ground arith), tt)),
)
compatible_carries Purpose.dielectric theory mods name h = tt

compatible_theory :
    (p : Purpose) (theory : Theory) (mods : ModifierSet) (name : String)
    → compatibility_workflow p theory mods ≡ some name
    → (theory ≢ Theory.r2scan) × (p ≢ Purpose.dielectric)
compatible_theory p theory mods name h = (λ e. ground arith, λ e. ground arith)

all_shared :
    (c : CalculationSpec) (types : List StageType)
    → c.theory ≢ Theory.r2scan
    → All (Carries c.theory c.modifiers) types
    → All LegalStage (map (shared_stage c) types)
all_shared c [] nr l = tt
all_shared c (t ∷ types) nr l = (shared_legal c t l.0.0 nr l.0.1, all_shared c types nr l.1)

Neighbours-shared :
    (R : StageSpec → StageSpec → Type 0) (c : CalculationSpec)
    → ((s t : StageType) → R (shared_stage c s) (shared_stage c t))
    → (types : List StageType) → Neighbours R (map (shared_stage c) types)
Neighbours-shared R c h [] = tt
Neighbours-shared R c h (s ∷ []) = tt
Neighbours-shared R c h (s ∷ t ∷ types) = (h s t, Neighbours-shared R c h (t ∷ types))

same_theory :
    (s t : StageSpec) → s.theory ≡ t.theory → s.stage_type ≡ StageType.static → Precedes s t
same_theory s t e h = record { static = h; theory = inl e }

purpose-Placed :
    (c : CalculationSpec) (p : Purpose) → Placed none (map (shared_stage c) (types_of p))
purpose-Placed c Purpose.relax = (λ a. cc, tt)
purpose-Placed c Purpose.static = (λ a. cc, tt)
purpose-Placed c Purpose.relax_static = (λ a. cc, (λ a. cc, tt))
purpose-Placed c Purpose.double_relax = (λ a. cc, (λ a. cc, tt))
purpose-Placed c Purpose.dos = (λ a. cc, (λ a. cc, (λ a. (refl, same_theory _ _ refl refl), tt)))
purpose-Placed c Purpose.band_structure =
    (λ a. cc, (λ a. cc, (λ a. (refl, same_theory _ _ refl refl), tt)))
purpose-Placed c Purpose.dielectric = tt

some_stages :
    (c : CalculationSpec) (p : Purpose)
    → p ≢ Purpose.dielectric
    → map (shared_stage c) (types_of p) ≢ []
some_stages c Purpose.dielectric h e = h refl
some_stages c Purpose.relax h e = cc
some_stages c _ h e = cc

abbrev workflow_of : CalculationSpec → String → WorkflowSpec
workflow_of c name = record {
  stages = map (shared_stage c) (types_of c.purpose);
  label = c.label;
  recipe = some name;
}

abbrev Supported : CalculationSpec → String → Type 0
Supported c name = compatibility_workflow c.purpose c.theory c.modifiers ≡ some name

workflow_of-WellFormed :
    (c : CalculationSpec) (name : String) → Supported c name → WellFormed (workflow_of c name)
workflow_of-WellFormed c name h = record {
  non_empty = some_stages c c.purpose (compatible_theory c.purpose c.theory c.modifiers name h).1;
  legal =
      all_shared c (types_of c.purpose) (compatible_theory c.purpose c.theory c.modifiers name h).0
        (compatible_carries c.purpose c.theory c.modifiers name h);
  same_dispersion = Neighbours-shared SameDispersion c (shared_dispersion c) (types_of c.purpose);
  same_electronics =
      Neighbours-shared SameElectronics c (shared_electronics c) (types_of c.purpose);
  placed = purpose-Placed c c.purpose;
}

purpose_types : (p : Purpose) → p ≢ Purpose.dielectric → purpose_stage_types p ≡ some (types_of p)
purpose_types p h = ground arith

to_workflow :
    (c : CalculationSpec) (name : String)
    → Supported c name
    → workflow_spec_from_calculation_spec c ≡ ok (workflow_of c name)
unfolding workflow_spec_from_calculation_spec
to_workflow c name h =
    let valid =
      (validate_workflow_spec_iff (workflow_of c name) (workflow_of c name)).1
        (workflow_of-WellFormed c name h, refl) in
    let known = (compatible_theory c.purpose c.theory c.modifiers name h).1 in
    ground (arith, h, valid, purpose_types c.purpose known)

theory_self : (theory : Theory) → is_theory theory theory ≡ true
theory_self theory = ground arith

modifiers_self : (m : ModifierSet) → same_modifiers m m ≡ true
modifiers_self m = ground arith

-- Among the shared stages of a supported purpose, the choice finds the purpose.
choose_lem :
    (p : Purpose) (c : CalculationSpec) (w : WorkflowSpec) (name : String)
    → compatibility_workflow p c.theory c.modifiers ≡ some name
    → choose w
        (map (λ s. s.stage_type) (map (shared_stage c) (types_of p)))
        (map (shared_stage c) (types_of p))
      ≡ ok (
          some
            (record { purpose = p; theory = c.theory; modifiers = c.modifiers; label = w.label }))
unfolding choose
choose_lem Purpose.relax c w name h = rw (h, validate_calculation_spec)
choose_lem Purpose.static c w name h = rw (h, validate_calculation_spec)
choose_lem Purpose.relax_static c w name h =
    rw (theory_self c.theory, modifiers_self c.modifiers, h, validate_calculation_spec)
choose_lem Purpose.double_relax c w name h =
    rw (theory_self c.theory, modifiers_self c.modifiers, h, validate_calculation_spec)
choose_lem Purpose.dos c w name h =
    rw (theory_self c.theory, modifiers_self c.modifiers, h, validate_calculation_spec)
choose_lem Purpose.band_structure c w name h =
    rw (theory_self c.theory, modifiers_self c.modifiers, h, validate_calculation_spec)
choose_lem Purpose.dielectric c w name h =
    absurd ((compatible_theory Purpose.dielectric c.theory c.modifiers name h).1 refl)

no_options :
    (c : CalculationSpec) (types : List StageType)
    → any has_options (map (shared_stage c) types) ≡ false
no_options c [] = refl
no_options c (t ∷ types) = no_options c types

from_workflow :
    (c : CalculationSpec) (name : String)
    → Supported c name
    → calculation_spec_from_workflow_spec (workflow_of c name) ≡ ok (some c)
unfolding calculation_spec_from_workflow_spec
from_workflow c name h =
    let valid =
      (validate_workflow_spec_iff (workflow_of c name) (workflow_of c name)).1
        (workflow_of-WellFormed c name h, refl) in
    rw (valid, no_options c (types_of c.purpose))
      (choose_lem c.purpose c (workflow_of c name) name h)

-- Every supported calculation specification translates to a workflow, and the workflow translates
-- back to it.
pub calculation_spec_round_trip :
    (c : CalculationSpec)
    → validate_calculation_spec c ≡ ok c
    → (w : WorkflowSpec) × (workflow_spec_from_calculation_spec c ≡ ok w)
      × (calculation_spec_from_workflow_spec w ≡ ok (some c))
unfolding validate_calculation_spec
calculation_spec_round_trip c h =
    elim (Option-cases (compatibility_workflow c.purpose c.theory c.modifiers)) [
      | inl e ↦ absurd (ground arith)
      | inr (name, e) ↦ (workflow_of c name, to_workflow c name e, from_workflow c name e)
    ]
