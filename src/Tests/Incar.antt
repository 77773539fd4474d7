-- ===== src/Tests/Incar.antt =====
-- The INCAR settings that stages start from, tried on small settings of a user.
use bmd_compute.Prelude.{true, Option, none, some, ◌≡◌, refl}
use bmd_compute.Model.{StageType, Json, int, bool, pos, ℤ, Fields, end, field, get}
use bmd_compute.Policy.BaseIncar.{
  raised_to, encut_now, apply_stage_base_incar_settings, apply_relax_compatibility_incar_settings,
  apply_static_compatibility_incar_settings, apply_stage_restart_incar_settings,
  apply_hse_dos_base_incar_settings, apply_hse_band_structure_base_incar_settings,
}
use bmd_compute.Policy.BaseIncar.Preserved.{apply_stage_base_incar_settings-keeps}
use bmd_compute.Policy.BaseIncar.Relaxations.{
  or_default, executable_only, apply_stage_base_incar_settings-relax,
}

-- Reads integers only.
abbrev whole : Json → Option ℤ
whole (int n) = some n
whole _ = none

abbrev user : Fields
user =
    field "ENCUT" (int (pos 400)) (field "NEDOS" (int (pos 2000)) (field "LWAVE" (bool true) end))

abbrev settings_of : Option Fields → Fields
settings_of none = end
settings_of (some r) = r

abbrev prepared : Fields
unfolding apply_stage_base_incar_settings bmd_compute.Policy.BaseIncar.static_base_settings
    bmd_compute.Policy.BaseIncar.apply_encut_floor bmd_compute.Policy.BaseIncar.is_prep
    bmd_compute.Policy.BaseIncar.apply_conditional_tetrahedron_sigma
    bmd_compute.Policy.Incar.apply_defaults bmd_compute.Prelude.Text.codes_eq
    bmd_compute.Prelude.Text.strip bmd_compute.Prelude.Text.lower
prepared = settings_of (apply_stage_base_incar_settings whole StageType.static user " Prep" end)

prepared-encut : get "ENCUT" prepared ≡ some (int (pos 520))
unfolding prepared
prepared-encut = refl

relaxed : Fields
unfolding apply_stage_base_incar_settings
relaxed = settings_of (apply_stage_base_incar_settings whole StageType.relax user "final" end)

compatible : Fields
unfolding apply_relax_compatibility_incar_settings
compatible = settings_of (apply_relax_compatibility_incar_settings user end)

apply_stage_base_incar_settings-keeps_example : get "NEDOS" prepared ≡ some (int (pos 2000))
unfolding prepared
apply_stage_base_incar_settings-keeps_example =
    apply_stage_base_incar_settings-keeps whole StageType.static user " Prep" end "NEDOS"
      (int (pos 2000)) prepared refl refl refl

apply_stage_base_incar_settings-relax_example :
    get "EDIFF" relaxed ≡ or_default (get "EDIFF" compatible) (get "EDIFF" executable_only)
unfolding relaxed compatible
apply_stage_base_incar_settings-relax_example =
    apply_stage_base_incar_settings-relax whole user end "final" relaxed compatible refl refl
      "EDIFF"
