-- ===== src/Tests/StageIncar.antt =====
-- The INCAR settings of stages, with and without SOC.
use bmd_compute.Prelude.{true, false, Option, none, some, ◌≡◌, refl}
use bmd_compute.Model.{
  StageType, Theory, Modifier, no_modifiers, add, Json, int, str, pos, ℤ, Fields, end, field, get,
}
use bmd_compute.StageIncar.{
  StaticRequest, is_hse_incar, incar_relax, static_user_incar_settings,
  static_restart_incar_settings, hse_dos_incar_settings, hse_band_structure_incar_settings,
}
use bmd_compute.StageIncar.Tags.{Meets, required}
use bmd_compute.StageIncar.Required.{static_user_incar_settings-Meets}
use bmd_compute.StageIncar.Kept.{incar_settings-keep}

-- Reads integers only.
abbrev whole : Json → Option ℤ
whole (int n) = some n
whole _ = none

abbrev soc_request : StaticRequest
soc_request = record {
  hse = false;
  prep_for_gw = false;
  intent = "final";
  theory = Theory.pbe;
  spin_polarized = false;
  modifiers = add Modifier.soc no_modifiers;
  incar = field "ISPIN" (int (pos 2)) (field "NELM" (int (pos 200)) end);
  resource_stage_type = StageType.dos;
  moments = none;
}

recognises_hse : is_hse_incar (field "LHFCALC" (str " .True. ") end) ≡ true
unfolding is_hse_incar bmd_compute.StageIncar.is_true_flag bmd_compute.StageIncar.flag_text
    bmd_compute.Prelude.Text.strip bmd_compute.Prelude.Text.is_space
    bmd_compute.Prelude.Text.codes_eq
recognises_hse = refl

recognises_pbe : is_hse_incar (field "GGA" (str "PE") end) ≡ false
unfolding is_hse_incar bmd_compute.StageIncar.is_true_flag bmd_compute.StageIncar.names_hse
recognises_pbe = refl

static_user_incar_settings-Meets_example :
    (r : Fields) × (static_user_incar_settings whole soc_request ≡ some r)
    × Meets (required (add Modifier.soc no_modifiers)) r
static_user_incar_settings-Meets_example = static_user_incar_settings-Meets whole soc_request

incar_settings-keep_example :
    (r : Fields) × (static_user_incar_settings whole soc_request ≡ some r)
    × (get "NELM" r ≡ some (int (pos 200)))
    × (get "NELM" (
          hse_band_structure_incar_settings whole
            (add Modifier.soc no_modifiers)
            none
            soc_request.incar)
        ≡ some (int (pos 200)))
    × (get "NELM"
          (hse_dos_incar_settings whole (add Modifier.soc no_modifiers) none soc_request.incar)
        ≡ some (int (pos 200)))
incar_settings-keep_example = incar_settings-keep whole soc_request "NELM" (int (pos 200)) refl refl
