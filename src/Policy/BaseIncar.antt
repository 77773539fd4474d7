-- ===== src/Policy/BaseIncar.antt =====
-- backend/calculations/vasp_stage_definitions.py: the INCAR settings that a stage starts from.
pub mod Preserved
pub mod Relaxations
use bmd_compute.Prelude.{
  ℕ, String, Bool, true, false, Option, none, some, max, ◌==◌, str_eq, if◌then◌else◌,
}
use bmd_compute.Prelude.Text.{codes, codes_eq, strip, lower}
use bmd_compute.Model.{StageType, Theory, Json, null, int, float, ℤ, pos, negsuc, Fields, get, put}
use bmd_compute.Policy.Incar.{
  setdefault, update, apply_defaults, apply_explicit_user_preserved_defaults,
}
use bmd_compute.Policy.StageDefinitions.{
  StageIncarPolicy, VaspStageDefinition, stage_definition, StageOverride, theory_stage_override_for,
}

-- `value == -5`; the float of this value prints as "-5.0".
abbrev is_tetrahedron : Option Json → Bool
is_tetrahedron none = true
is_tetrahedron (some (int (negsuc n))) = n == 4
is_tetrahedron (some (float text)) = str_eq text "-5.0"
is_tetrahedron (some _) = false

unfoldable pub apply_conditional_tetrahedron_sigma : Fields → Fields
apply_conditional_tetrahedron_sigma settings =
    if is_tetrahedron (get "ISMEAR" settings) then setdefault "SIGMA" null settings else settings

unfoldable pub apply_static_compatibility_incar_settings : Fields → Option Fields
apply_static_compatibility_incar_settings user_incar = elim (stage_definition StageType.static) [
  | none ↦ none
  | some definition ↦
      let policy = definition.incar_policy in
      let settings = apply_defaults user_incar policy.compatibility_defaults in
      some (
        if policy.compatibility_conditional_sigma_for_tetrahedron
        then apply_conditional_tetrahedron_sigma settings
        else settings)
]

unfoldable pub apply_relax_compatibility_incar_settings : Fields → Fields → Option Fields
apply_relax_compatibility_incar_settings user_incar explicit =
    elim (stage_definition StageType.relax) [
      | none ↦ none
      | some definition ↦
          let policy = definition.incar_policy in
          let settings =
            apply_explicit_user_preserved_defaults user_incar
              policy.explicit_user_preserved_defaults explicit in
          some (apply_defaults settings policy.compatibility_defaults)
    ]

unfoldable pub apply_stage_restart_incar_settings : StageType → Fields → Option Fields
apply_stage_restart_incar_settings stage_type user_incar = elim (stage_definition stage_type) [
  | none ↦ none
  | some definition ↦ some (update user_incar definition.restart_policy.incar_amendments)
]

-- `str(intent or "final").strip().lower() == "prep"`
unfoldable pub is_prep : String → Bool
is_prep intent =
    codes_eq (lower (strip (codes (if str_eq intent "" then "final" else intent)))) (codes "prep")

-- `max(encut_now, floor)`, where an exception makes `encut_now` 0.
abbrev pub raised_to : ℕ → Option ℤ → ℕ
raised_to floor (some (pos n)) = max n floor
raised_to floor _ = floor

-- A float is carried as its text, so that `int(float(value))` is an argument; `none` is an
-- exception.
module _ (int_of_float : Json → Option ℤ) where
  abbrev pub encut_now : Fields → Option ℤ
  encut_now settings = elim (get "ENCUT" settings) [
    | none ↦ some (pos 0)
    | some value ↦ int_of_float value
  ]

  unfoldable pub apply_encut_floor : Fields → Option ℕ → Fields
  apply_encut_floor settings none = settings
  apply_encut_floor settings (some floor) =
      put "ENCUT" (int (pos (raised_to floor (encut_now settings)))) settings

  unfoldable pub static_base_settings : StageIncarPolicy → Fields → Bool → Fields
  static_base_settings policy settings prep =
      if prep
      then (let defaulted = apply_defaults settings policy.prep_defaults in
          let smeared =
            if policy.prep_conditional_sigma_for_tetrahedron
            then apply_conditional_tetrahedron_sigma defaulted
            else defaulted in
          apply_encut_floor smeared policy.prep_encut_floor)
      else apply_encut_floor (apply_defaults settings policy.final_defaults)
          policy.final_encut_floor

  abbrev base_settings : VaspStageDefinition → Fields → String → Fields → StageType → Fields
  base_settings definition settings intent explicit StageType.relax =
      apply_explicit_user_preserved_defaults
        (apply_defaults settings definition.incar_policy.executable_defaults)
        definition.incar_policy.explicit_user_preserved_defaults explicit
  base_settings definition settings intent explicit StageType.static =
      static_base_settings definition.incar_policy settings (is_prep intent)
  base_settings definition settings intent explicit _ = settings

  unfoldable pub apply_stage_base_incar_settings :
      StageType → Fields → String → Fields → Option Fields
  apply_stage_base_incar_settings stage_type user_incar intent explicit =
      elim (stage_definition stage_type) [
        | none ↦ none
        | some definition ↦
            some (base_settings definition user_incar intent explicit definition.stage_type)
      ]

  abbrev overridden : Option StageOverride → Fields → Fields
  overridden none settings = settings
  overridden (some override) settings =
      apply_encut_floor (apply_defaults settings override.bmd_incar_defaults)
        (some override.encut_floor)

  unfoldable pub apply_hse_dos_base_incar_settings : Fields → Fields
  apply_hse_dos_base_incar_settings user_incar =
      overridden (theory_stage_override_for StageType.dos Theory.hse06) user_incar

  unfoldable pub apply_hse_band_structure_base_incar_settings : Fields → Fields
  apply_hse_band_structure_base_incar_settings user_incar =
      overridden (theory_stage_override_for StageType.band_structure Theory.hse06) user_incar
