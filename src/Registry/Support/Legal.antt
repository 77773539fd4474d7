-- ===== src/Registry/Support/Legal.antt =====
-- What a legal stage is, independently of the order of the checks, and that the checks of
-- backend/calculations/registry.py decide it.
use bmd_compute.Prelude.{
  String, Bool, true, false, not, some, ok, ◌≡◌, ◌≢◌, refl, ◌↔◌, ◌⊎◌, inl, inr, arith, sym, ◌∙◌,
  eq_refl, >>-eq-ok, Option-cases, eq_iff, raise_if, raise_if-eq-ok,
}
use bmd_compute.Model.{
  StageSpec, StageType, Theory, Modifier, ModifierSet, contains, is_subset, subset_member, Json,
  Fields, end, field, get,
}
use bmd_compute.Policy.Incar.{has}
use bmd_compute.Policy.Dispersion.{DispersionMethod, dispersion_method_from_options}
use bmd_compute.Registry.Errors.{stage_not_executable, unsupported_options, modifiers_not_available}
use bmd_compute.Registry.Support.{
  is_relax_or_static, supported_modifiers_for_stage, is_stage_option_key, all_keys,
  validate_stage_option_keys, stage_dispersion_method, validate_dispersion_stage_support,
  is_frozen_dft_u, validate_frozen_dft_u_option, validate_stage_support, validate_stage_spec,
  require_theory_stage, stage_type_is_executable,
}

not-false : {b : Bool} → not b ≡ false → b ≡ true
not-false {b} h = ground arith

-- The modifiers of each stage type and theory, as a table.
abbrev pub allowed : Theory → StageType → Modifier → Bool
allowed Theory.r2scan t m = false
allowed theory t Modifier.spin_polarized = true
allowed Theory.pbe t Modifier.dft_u = true
allowed Theory.pbe StageType.relax Modifier.dispersion = true
allowed Theory.pbe StageType.static Modifier.dispersion = true
allowed Theory.pbe StageType.phonon_forces Modifier.dispersion = true
allowed Theory.pbe StageType.static Modifier.soc = true
allowed Theory.pbe StageType.relax Modifier.ions_only = true
allowed Theory.hse06 StageType.static Modifier.soc = true
allowed Theory.hse06 StageType.dos Modifier.soc = true
allowed Theory.hse06 StageType.band_structure Modifier.soc = true
allowed theory StageType.band_structure Modifier.gamma_only = false
allowed theory t Modifier.gamma_only = true
allowed theory t m = false

pub supported-allowed :
    (theory : Theory) (t : StageType) (m : Modifier)
    → contains (supported_modifiers_for_stage t theory) m ≡ allowed theory t m
supported-allowed theory t m = ground arith

pub record LegalStage (s : StageSpec) : Type 0 where
  pub executable : s.stage_type ≢ StageType.phonon_forces
  pub implemented : s.theory ≢ Theory.r2scan
  pub modifiers :
      (m : Modifier) → contains s.modifiers m ≡ true → allowed s.theory s.stage_type m ≡ true
  pub option_keys : (k : String) → has k s.options ≡ true → (k ≡ "dispersion") ⊎ (k ≡ "dft_u")
  pub dispersion_selected :
      has "dispersion" s.options ≡ true → contains s.modifiers Modifier.dispersion ≡ true
  pub dispersion_method :
      contains s.modifiers Modifier.dispersion ≡ true
      → (m : DispersionMethod) × (dispersion_method_from_options s.options ≡ ok m)
  pub frozen_dft_u :
      (v : Json)
      → get "dft_u" s.options ≡ some v
      → (contains s.modifiers Modifier.dft_u ≡ true)
        × (s.theory ≡ Theory.pbe)
        × (is_relax_or_static s.stage_type ≡ true)
        × (is_frozen_dft_u v ≡ true)

subset_of_members :
    (s t : ModifierSet)
    → ((m : Modifier) → contains s m ≡ true → contains t m ≡ true)
    → is_subset s t ≡ true
subset_of_members s t h = ground (
  arith,
  h Modifier.soc,
  h Modifier.dft_u,
  h Modifier.dispersion,
  h Modifier.spin_polarized,
  h Modifier.gamma_only,
  h Modifier.ions_only,
)

keys_sound :
    (d : Fields) (k : String)
    → all_keys is_stage_option_key d ≡ true
    → has k d ≡ true
    → (k ≡ "dispersion") ⊎ (k ≡ "dft_u")
keys_sound end k h g = cc
keys_sound (field j v d) k h g =
    ground (arith, eq_iff j k, eq_iff j "dispersion", eq_iff j "dft_u", keys_sound d k)

has_key : (j : String) (v : Json) (d : Fields) → has j (field j v d) ≡ true
has_key j v d = rw (eq_refl j, has)

has_rest : (j k : String) (v : Json) (d : Fields) → has k d ≡ true → has k (field j v d) ≡ true
has_rest j k v d h = ground arith

keys_complete :
    (d : Fields)
    → ((k : String) → has k d ≡ true → (k ≡ "dispersion") ⊎ (k ≡ "dft_u"))
    → all_keys is_stage_option_key d ≡ true
keys_complete end h = refl
keys_complete (field j v d) h = ground (
  arith,
  h j (has_key j v d),
  eq_iff j "dispersion",
  eq_iff j "dft_u",
  keys_complete d (λ k g. h k (has_rest j k v d g)),
)

dispersion_iff :
    (s : StageSpec)
    → is_subset s.modifiers (supported_modifiers_for_stage s.stage_type s.theory) ≡ true
    → validate_dispersion_stage_support s ≡ ok tt
    → (has "dispersion" s.options ≡ true → contains s.modifiers Modifier.dispersion ≡ true)
      × (contains s.modifiers Modifier.dispersion ≡ true
          → (m : DispersionMethod) × (dispersion_method_from_options s.options ≡ ok m))
unfolding validate_dispersion_stage_support stage_dispersion_method
dispersion_iff s sub h = (ground arith, ground arith)

frozen_sound :
    (s : StageSpec)
    → validate_frozen_dft_u_option s ≡ ok tt
    → (v : Json) → get "dft_u" s.options ≡ some v
    → (contains s.modifiers Modifier.dft_u ≡ true)
      × (s.theory ≡ Theory.pbe)
      × (is_relax_or_static s.stage_type ≡ true)
      × (is_frozen_dft_u v ≡ true)
unfolding validate_frozen_dft_u_option
frozen_sound s h v e = ground arith

frozen_complete : (s : StageSpec) → LegalStage s → validate_frozen_dft_u_option s ≡ ok tt
unfolding validate_frozen_dft_u_option
frozen_complete s l = elim (Option-cases (get "dft_u" s.options)) [
  | inl e ↦ rw (e, validate_frozen_dft_u_option)
  | inr (v, e) ↦ ground (arith, l.frozen_dft_u v e)
]

dispersion_complete : (s : StageSpec) → LegalStage s → validate_dispersion_stage_support s ≡ ok tt
unfolding validate_dispersion_stage_support stage_dispersion_method
dispersion_complete s l = ground (
  arith,
  l.modifiers Modifier.dispersion,
  l.dispersion_selected,
  l.dispersion_method,
  l.executable,
)

require_theory_lem :
    (t : StageType) (theory : Theory)
    → require_theory_stage t theory ≡ ok tt
    → (t ≢ StageType.phonon_forces) × (theory ≢ Theory.r2scan)
require_theory_lem t theory h = (ground arith, ground arith)

-- What the checks have tested when they pass.
record Passed (s : StageSpec) : Type 0 where
  executable : stage_type_is_executable s.stage_type ≡ true
  keys : all_keys is_stage_option_key s.options ≡ true
  theory : require_theory_stage s.stage_type s.theory ≡ ok tt
  subset : is_subset s.modifiers (supported_modifiers_for_stage s.stage_type s.theory) ≡ true
  dispersion : validate_dispersion_stage_support s ≡ ok tt
  frozen : validate_frozen_dft_u_option s ≡ ok tt

Passed-of_valid : (s : StageSpec) → validate_stage_support s ≡ ok tt → Passed s
unfolding validate_stage_support validate_stage_option_keys
Passed-of_valid s h =
    let not_executable = stage_not_executable s.stage_type in
    let bad_options = unsupported_options s.stage_type in
    let bad_modifiers = modifiers_not_available s.stage_type s.theory s.modifiers in
    let supported = supported_modifiers_for_stage s.stage_type s.theory in
    let (h0, k0) =
      >>-eq-ok (raise_if (not (stage_type_is_executable s.stage_type)) not_executable) _ h in
    let (h1, k1) = >>-eq-ok (validate_stage_option_keys is_stage_option_key s) _ k0 in
    let (h2, k2) = >>-eq-ok (require_theory_stage s.stage_type s.theory) _ k1 in
    let (h3, k3) = >>-eq-ok (raise_if (not (is_subset s.modifiers supported)) bad_modifiers) _ k2 in
    let (h4, h5) = >>-eq-ok (validate_dispersion_stage_support s) _ k3 in
    record {
      executable = not-false (raise_if-eq-ok _ not_executable h0);
      keys = not-false (raise_if-eq-ok _ bad_options h1);
      theory = h2;
      subset = not-false (raise_if-eq-ok _ bad_modifiers h3);
      dispersion = h4;
      frozen = h5;
    }

valid_of_Passed : (s : StageSpec) → Passed s → validate_stage_support s ≡ ok tt
unfolding validate_stage_support validate_stage_option_keys
valid_of_Passed s p =
    rw (p.executable, p.keys, p.theory, p.subset, p.dispersion, p.frozen, validate_stage_support)

legal_of_valid : (s : StageSpec) → validate_stage_support s ≡ ok tt → LegalStage s
legal_of_valid s h =
    let p = Passed-of_valid s h in
    let (selected, method) = dispersion_iff s p.subset p.dispersion in
    let (executable, implemented) = require_theory_lem s.stage_type s.theory p.theory in
    record {
      executable = executable;
      implemented = implemented;
      modifiers = λ m c.
          sym (supported-allowed s.theory s.stage_type m)
          ∙ subset_member s.modifiers _ m p.subset c;
      option_keys = λ k. keys_sound s.options k p.keys;
      dispersion_selected = selected;
      dispersion_method = method;
      frozen_dft_u = frozen_sound s p.frozen;
    }

theory_of_legal :
    (t : StageType) (theory : Theory)
    → t ≢ StageType.phonon_forces
    → theory ≢ Theory.r2scan
    → require_theory_stage t theory ≡ ok tt
theory_of_legal t theory h k = ground arith

executable_of_legal :
    (t : StageType) → t ≢ StageType.phonon_forces → stage_type_is_executable t ≡ true
executable_of_legal t h = ground arith

valid_of_legal : (s : StageSpec) → LegalStage s → validate_stage_support s ≡ ok tt
valid_of_legal s l = valid_of_Passed s (record {
  executable = executable_of_legal s.stage_type l.executable;
  keys = keys_complete s.options l.option_keys;
  theory = theory_of_legal s.stage_type s.theory l.executable l.implemented;
  subset =
      subset_of_members s.modifiers (supported_modifiers_for_stage s.stage_type s.theory)
        (λ m c. supported-allowed s.theory s.stage_type m ∙ l.modifiers m c);
  dispersion = dispersion_complete s l;
  frozen = frozen_complete s l;
})

-- validate_stage_spec accepts exactly the legal stages (executable type, implemented theory,
-- modifiers of the table, known options that belong to their modifiers and are well formed), and
-- returns them unchanged.
pub validate_stage_spec_iff :
    (s t : StageSpec) → (validate_stage_spec s ≡ ok t) ↔ (LegalStage s × (t ≡ s))
unfolding validate_stage_spec
validate_stage_spec_iff s t = (
  λ h. let (v, e) = >>-eq-ok (validate_stage_support s) _ h in (legal_of_valid s v, cc),
  λ h. rw (valid_of_legal s h.0, validate_stage_spec, h.1),
)
