-- ===== src/Registry/Support.antt =====
-- The checks of a single stage (backend/calculations/registry.py, `_validate_stage_support`).
pub mod Legal
use bmd_compute.Prelude.{
  ℕ, String, Bool, true, false, not, ◌&&◌, ◌||◌, Option, none, some, List, [], ◌∷◌, Result, ok, err,
  ◌>>=◌, ◌>>◌, raise_if, if◌then◌else◌, str_eq,
}
use bmd_compute.Model.{
  StageSpec, StageType, Theory, Modifier, ModifierSet, contains, add, discard, is_subset,
  no_modifiers, is_theory, is_stage, Json, bool, int, float, obj, Fields, end, field, get,
}
use bmd_compute.Policy.Incar.{has}
use bmd_compute.Policy.Theory.{calculation_stage, CalculationStage, theory_supported_stages}
use bmd_compute.Policy.Dispersion.{DispersionMethod, dispersion_method_from_options}
use bmd_compute.Registry.Errors.{
  ValidationError, Check, value_error, stage_not_executable, unsupported_options,
  stage_not_available, modifiers_not_available, dispersion_option_without_modifier,
  dispersion_needs_pbe, dispersion_needs_relax_or_static, unsupported_dispersion_method,
  frozen_dft_u_without_modifier, frozen_dft_u_misplaced, frozen_dft_u_malformed,
}

-- backend/calculations/stage_materialization.py
abbrev pub stage_type_is_executable : StageType → Bool
stage_type_is_executable StageType.phonon_forces = false
stage_type_is_executable _ = true

abbrev pub is_terminal_analysis_stage : StageType → Bool
is_terminal_analysis_stage StageType.dos = true
is_terminal_analysis_stage StageType.band_structure = true
is_terminal_analysis_stage _ = false

abbrev pub is_relax_or_static : StageType → Bool
is_relax_or_static StageType.relax = true
is_relax_or_static StageType.static = true
is_relax_or_static _ = false

abbrev active_ui_modifiers : ModifierSet
active_ui_modifiers =
    add Modifier.spin_polarized
      (add Modifier.dft_u (add Modifier.dispersion (add Modifier.gamma_only no_modifiers)))

abbrev hse06_single_stage_modifiers : ModifierSet
hse06_single_stage_modifiers = add Modifier.spin_polarized (add Modifier.gamma_only no_modifiers)

abbrev hse06_static_modifiers : ModifierSet
hse06_static_modifiers =
    add Modifier.spin_polarized (add Modifier.soc (add Modifier.gamma_only no_modifiers))

abbrev hse06_band_structure_modifiers : ModifierSet
hse06_band_structure_modifiers = add Modifier.spin_polarized (add Modifier.soc no_modifiers)

abbrev pub supported_modifiers_for_stage : StageType → Theory → ModifierSet
supported_modifiers_for_stage t Theory.pbe =
    let s0 = active_ui_modifiers in
    let s1 = if is_stage t StageType.static then add Modifier.soc s0 else s0 in
    let s2 = if is_stage t StageType.relax then add Modifier.ions_only s1 else s1 in
    let s3 = if is_terminal_analysis_stage t then discard Modifier.dispersion s2 else s2 in
    if is_stage t StageType.band_structure then discard Modifier.gamma_only s3 else s3
supported_modifiers_for_stage t Theory.hse06 =
    if is_stage t StageType.band_structure
    then hse06_band_structure_modifiers
    else if is_stage t StageType.static
    then hse06_static_modifiers
    else if is_stage t StageType.dos
    then hse06_static_modifiers
    else hse06_single_stage_modifiers
supported_modifiers_for_stage t Theory.r2scan = no_modifiers

abbrev pub is_stage_option_key : String → Bool
is_stage_option_key k = str_eq k "dispersion" || str_eq k "dft_u"

abbrev pub is_user_stage_option_key : String → Bool
is_user_stage_option_key k = str_eq k "dispersion"

abbrev pub all_keys : (String → Bool) → Fields → Bool
all_keys allowed end = true
all_keys allowed (field k v d) = allowed k && all_keys allowed d

unfoldable pub validate_stage_option_keys : (String → Bool) → StageSpec → Check
validate_stage_option_keys allowed stage =
    raise_if (not (all_keys allowed stage.options)) (unsupported_options stage.stage_type)

-- `_stage_dispersion_method`: the method, or none without the modifier.
unfoldable pub stage_dispersion_method :
    StageSpec → Result ValidationError (Option DispersionMethod)
stage_dispersion_method stage =
    if contains stage.modifiers Modifier.dispersion
    then (elim (dispersion_method_from_options stage.options) [
      | ok m ↦ ok (some m)
      | err _ ↦ err unsupported_dispersion_method
    ])
    else ok none

unfoldable pub validate_dispersion_stage_support : StageSpec → Check
validate_dispersion_stage_support stage =
    let has_option = has "dispersion" stage.options in
    let has_modifier = contains stage.modifiers Modifier.dispersion in
    if has_option && not has_modifier
    then err dispersion_option_without_modifier
    else if not has_modifier
    then ok tt
    else if not (is_theory stage.theory Theory.pbe)
    then err dispersion_needs_pbe
    else if not (is_relax_or_static stage.stage_type)
    then err dispersion_needs_relax_or_static
    else stage_dispersion_method stage >> ok tt

abbrev pub is_number : Option Json → Bool
is_number (some (bool _)) = true
is_number (some (int _)) = true
is_number (some (float _)) = true
is_number _ = false

abbrev pub is_integer : Option Json → Bool
is_integer (some (bool _)) = true
is_integer (some (int _)) = true
is_integer _ = false

abbrev is_species_value : Json → Bool
is_species_value (obj d) = is_number (get "L" d) && is_number (get "U" d) && is_number (get "J" d)
is_species_value _ = false

abbrev pub all_species_values : Fields → Bool
all_species_values end = true
all_species_values (field k v d) = is_species_value v && all_species_values d

abbrev is_species_table : Option Json → Bool
is_species_table (some (obj (field k v d))) = all_species_values (field k v d)
is_species_table _ = false

-- The frozen parameters have a non-empty table of species with numbers L, U and J, and an integer
-- LDAUTYPE. `isinstance(True, int)` holds.
abbrev pub is_frozen_dft_u : Json → Bool
is_frozen_dft_u (obj d) = is_species_table (get "species" d) && is_integer (get "LDAUTYPE" d)
is_frozen_dft_u _ = false

unfoldable pub validate_frozen_dft_u_option : StageSpec → Check
validate_frozen_dft_u_option stage = elim (get "dft_u" stage.options) [
  | none ↦ ok tt
  | some frozen ↦
      if not (contains stage.modifiers Modifier.dft_u)
      then err frozen_dft_u_without_modifier
      else if not (is_theory stage.theory Theory.pbe) || not (is_relax_or_static stage.stage_type)
      then err frozen_dft_u_misplaced
      else if is_frozen_dft_u frozen
      then ok tt
      else err frozen_dft_u_malformed
]

abbrev require_theory_stage : StageType → Theory → Check
require_theory_stage t theory = elim (calculation_stage t) [
  | none ↦ err value_error
  | some stage ↦
      raise_if (not (theory_supported_stages theory stage)) (stage_not_available theory t)
]

unfoldable pub validate_stage_support : StageSpec → Check
validate_stage_support stage = do
  raise_if (not (stage_type_is_executable stage.stage_type)) (stage_not_executable stage.stage_type)
  validate_stage_option_keys is_stage_option_key stage
  require_theory_stage stage.stage_type stage.theory
  raise_if
      (not
        (is_subset stage.modifiers (supported_modifiers_for_stage stage.stage_type stage.theory)))
      (modifiers_not_available stage.stage_type stage.theory stage.modifiers)
  validate_dispersion_stage_support stage
  validate_frozen_dft_u_option stage

-- The copy that `validate_stage_spec` makes has the fields of its argument.
unfoldable pub validate_stage_spec : StageSpec → Result ValidationError StageSpec
validate_stage_spec stage = validate_stage_support stage >> ok stage
