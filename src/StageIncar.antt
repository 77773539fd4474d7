-- ===== src/StageIncar.antt =====
-- backend/workflows.py: the INCAR settings of a stage, from the settings of the user, the modifiers
-- and the policies. A set of modifiers is given by its members. The moments that
-- `apply_soc_magmom_settings` computes from the sites are an argument, since they are arithmetic on
-- floats; it is `none` for a structure without readable sites. The resources are normalized ones.
pub mod Layers
pub mod Tags
pub mod Required
pub mod Kept
use bmd_compute.Prelude.{
  ℕ, String, Bool, true, false, ◌||◌, Option, none, some, List, [], ◌∷◌, map, any, if◌then◌else◌,
  ◌==◌, leb, ◌-◌,
}
use mathlib.Core.List.{reverse}
use bmd_compute.Prelude.Text.{codes, codes_eq, strip, starts_with}
use bmd_compute.Model.{
  StageType, Theory, Modifier, ModifierSet, add, Json, null, bool, int, str, arr, pos, ℤ, nil, cons,
  Fields, get, put,
}
use bmd_compute.Policy.Incar.{has, setdefault, pop}
use bmd_compute.Policy.Theory.{
  CalculationStage, theory_uses_hybrid_functional, theory_incar_settings,
  apply_theory_incar_settings,
}
use bmd_compute.Policy.BaseIncar.{
  apply_static_compatibility_incar_settings, apply_relax_compatibility_incar_settings,
  apply_stage_restart_incar_settings, apply_stage_base_incar_settings,
  apply_hse_dos_base_incar_settings, apply_hse_band_structure_base_incar_settings,
}

-- `calculation_modifiers_from_options`
abbrev pub calculation_modifiers_from_options : ModifierSet → Bool → ModifierSet
calculation_modifiers_from_options modifiers spin_polarized =
    if spin_polarized then add Modifier.spin_polarized modifiers else modifiers

unfoldable pub apply_spin_settings : Bool → Bool → Fields → Fields
apply_spin_settings spin_polarized non_collinear settings =
    if non_collinear
    then settings
    else put "ISPIN" (int (pos (if spin_polarized then 2 else 1))) settings

abbrev pub dft_u_incar_keys : List String
dft_u_incar_keys = "LDAU" ∷ "LDAUTYPE" ∷ "LDAUL" ∷ "LDAUU" ∷ "LDAUJ" ∷ "LDAUPRINT" ∷ "LMAXMIX" ∷ []

-- `for key in keys: settings[key] = None`
unfoldable pub clear : List String → Fields → Fields
clear [] settings = settings
clear (k ∷ names) settings = clear names (put k null settings)

unfoldable pub apply_dft_u_settings : Bool → Fields → Fields
apply_dft_u_settings dft_u settings = if dft_u then settings else clear dft_u_incar_keys settings

abbrev pub z_axis : Json
z_axis = arr (cons (int (pos 0)) (cons (int (pos 0)) (cons (int (pos 1)) nil)))

-- The settings of SOC, in the order of the assignments.
unfoldable pub apply_soc_settings : Fields → Fields
apply_soc_settings settings = put "ISPIN" null (
    put "LELF" null (
      put "GGA_COMPAT" (bool false) (
        setdefault "SAXIS" z_axis (
          put "ISYM" (int (pos 0))
            (put "LNONCOLLINEAR" (bool true) (put "LSORBIT" (bool true) settings))))))

unfoldable pub apply_modifier_incar_settings : ModifierSet → Fields → Fields
apply_modifier_incar_settings modifiers user_incar =
    let settings =
      apply_dft_u_settings modifiers.has_dft_u
        (apply_spin_settings modifiers.has_spin_polarized modifiers.has_soc user_incar) in
    if modifiers.has_soc then apply_soc_settings settings else settings

unfoldable pub apply_soc_magmom_settings : Option (Fields → Json) → Fields → Fields
apply_soc_magmom_settings none settings = settings
apply_soc_magmom_settings (some moments) settings = put "MAGMOM" (moments settings) settings

abbrev pub default_ncore : ℕ
default_ncore = 8

unfoldable pub apply_resource_incar_settings : Bool → Fields → Fields
apply_resource_incar_settings allow_ncore settings =
    if allow_ncore then put "NCORE" (int (pos default_ncore)) settings else pop "NCORE" settings

abbrev pub stage_allows_automatic_ncore : StageType → Bool
stage_allows_automatic_ncore StageType.relax = true
stage_allows_automatic_ncore StageType.static = true
stage_allows_automatic_ncore StageType.dos = true
stage_allows_automatic_ncore _ = false

unfoldable pub apply_stage_resource_incar_settings : StageType → Fields → Fields
apply_stage_resource_incar_settings stage_type settings =
    if stage_allows_automatic_ncore stage_type
    then put "NCORE" (int (pos default_ncore)) settings
    else settings

upper_code : ℕ → ℕ
upper_code c = if leb 97 c then (if leb c 122 then c - 32 else c) else c

abbrev drop_dots : List ℕ → List ℕ
drop_dots [] = []
drop_dots (c ∷ text) = let rest = drop_dots text in if c == 46 then rest else c ∷ text

-- `value.strip().strip(".").upper()`
unfoldable pub flag_text : String → List ℕ
unfolding upper_code
flag_text value = map upper_code (reverse (drop_dots (reverse (drop_dots (strip (codes value))))))

-- `"HSE" in gga.upper()`
abbrev contains_text : List ℕ → List ℕ → Bool
contains_text part [] = false
contains_text part (c ∷ text) = starts_with part (c ∷ text) || contains_text part text

unfoldable pub names_hse : Option Json → Bool
unfolding upper_code
names_hse (some (str s)) = contains_text (codes "HSE") (map upper_code (codes s))
names_hse _ = false

unfoldable pub is_true_flag : Option Json → Bool
is_true_flag (some (str s)) =
    codes_eq (flag_text s) (codes "T")
    || codes_eq (flag_text s) (codes "TRUE")
    || codes_eq (flag_text s) (codes "YES")
is_true_flag (some (bool b)) = b
is_true_flag _ = false

unfoldable pub is_hse_incar : Fields → Bool
is_hse_incar settings =
    is_true_flag (get "LHFCALC" settings)
    || any (λ k. has k settings) ("AEXX" ∷ "HFSCREEN" ∷ "ALDAC" ∷ "LHFCALC_HYBRID" ∷ [])
    || names_hse (get "GGA" settings)

unfoldable pub incar_static : Fields → Option Fields
incar_static settings = apply_static_compatibility_incar_settings settings

-- `settings.setdefault(k, other[k])`, where `other` has the key.
abbrev pub setdefault_from : String → Fields → Fields → Fields
setdefault_from k other settings = elim (get k other) [
  | none ↦ settings
  | some v ↦ setdefault k v settings
]

unfoldable pub incar_relax : Fields → Fields → Option Fields
incar_relax settings explicit = elim (apply_relax_compatibility_incar_settings settings explicit) [
  | none ↦ none
  | some user_settings ↦
      let hse = theory_incar_settings Theory.hse06 CalculationStage.relax in
      some (
        if is_hse_incar user_settings || is_hse_incar explicit
        then setdefault_from "ALGO" hse (setdefault_from "PRECFOCK" hse user_settings)
        else user_settings)
]

-- The settings of the user with those of the modifiers.
unfoldable pub modified : ModifierSet → Option (Fields → Json) → Fields → Fields
modified modifiers moments incar =
    let settings = apply_modifier_incar_settings modifiers incar in
    if modifiers.has_soc then apply_soc_magmom_settings moments settings else settings

-- The arguments of `_static_user_incar_settings`.
pub record StaticRequest : Type 0 where
  pub hse : Bool
  pub prep_for_gw : Bool
  pub intent : String
  pub theory : Theory
  pub spin_polarized : Bool
  pub modifiers : ModifierSet
  pub incar : Fields
  pub resource_stage_type : StageType
  pub moments : Option (Fields → Json)

abbrev pub written_for_gw : Bool → Fields → Fields
written_for_gw prep settings =
    if prep then put "LCHARG" (bool true) (put "LWAVE" (bool true) settings) else settings

module _ (int_of_float : Json → Option ℤ) where
  -- What follows the modifiers, up to the resources.
  unfoldable pub static_layers : StaticRequest → Fields → Option Fields
  static_layers request user_incar =
      let policy_theory = if request.hse then Theory.hse06 else request.theory in
      let themed = apply_theory_incar_settings user_incar policy_theory CalculationStage.static in
      let hybrid = theory_uses_hybrid_functional policy_theory || is_hse_incar themed in
      let parallel = if hybrid then pop "NPAR" (pop "KPAR" themed) else themed in
      elim (apply_stage_base_incar_settings int_of_float StageType.static parallel request.intent
        Fields.end) [
          | none ↦ none
          | some based ↦
              let written = written_for_gw request.prep_for_gw based in
              some (
                if request.prep_for_gw
                then apply_resource_incar_settings false written
                else apply_stage_resource_incar_settings request.resource_stage_type written)
        ]

  unfoldable pub static_user_incar_settings : StaticRequest → Option Fields
  static_user_incar_settings request = static_layers request (
      modified (calculation_modifiers_from_options request.modifiers request.spin_polarized)
        request.moments request.incar)

  -- `_static_restart_incar_settings`: of the request, it sets the theory and the intent.
  unfoldable pub static_restart_incar_settings : StaticRequest → Option Fields
  static_restart_incar_settings request =
      let hse = is_hse_incar request.incar in
      elim (static_user_incar_settings (record request {
        hse = hse;
        prep_for_gw = false;
        intent = "final";
        theory = if hse then Theory.hse06 else Theory.pbe;
      })) [
        | none ↦ none
        | some settings ↦ apply_stage_restart_incar_settings request.resource_stage_type settings
      ]

  unfoldable pub hse_band_structure_incar_settings :
      ModifierSet → Option (Fields → Json) → Fields → Fields
  hse_band_structure_incar_settings modifiers moments incar =
      apply_stage_resource_incar_settings StageType.band_structure (
        apply_theory_incar_settings
          (apply_hse_band_structure_base_incar_settings int_of_float
            (modified modifiers moments incar))
          Theory.hse06 CalculationStage.band_structure)

  unfoldable pub hse_dos_incar_settings : ModifierSet → Option (Fields → Json) → Fields → Fields
  hse_dos_incar_settings modifiers moments incar =
      apply_stage_resource_incar_settings StageType.dos (
        apply_theory_incar_settings
          (apply_hse_dos_base_incar_settings int_of_float (modified modifiers moments incar))
          Theory.hse06 CalculationStage.dos)
