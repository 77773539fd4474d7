-- ===== src/StageIncar/Required.antt =====
-- The settings of a static stage have what its modifiers require; the layers of the HSE06 analysis
-- stages keep it.
use bmd_compute.Prelude.{String, Bool, true, false, not, ◌&&◌, Option, some, ◌≡◌, refl, arith}
use bmd_compute.Model.{StageType, Theory, ModifierSet, Json, ℤ, Fields, end, field, get}
use bmd_compute.Policy.Theory.{CalculationStage, apply_theory_incar_settings}
use bmd_compute.Policy.BaseIncar.{
  apply_stage_base_incar_settings, apply_hse_dos_base_incar_settings,
  apply_hse_band_structure_base_incar_settings,
}
use bmd_compute.StageIncar.{
  calculation_modifiers_from_options, apply_stage_resource_incar_settings, StaticRequest, modified,
  static_layers, static_user_incar_settings,
}
use bmd_compute.StageIncar.Layers.{
  is_late, Keeps, then-Keeps, static_layers-keeps, apply_theory_incar_settings-Keeps,
  apply_stage_resource_incar_settings-Keeps, apply_hse_dos_base_incar_settings-Keeps,
  apply_hse_band_structure_base_incar_settings-Keeps,
}
use bmd_compute.StageIncar.Tags.{Meets, required, modified-Meets}

-- No later layer writes the tags.
abbrev on_time : Fields → Bool
on_time end = true
on_time (field k v tags) = not (is_late k) && on_time tags

required-on_time : (m : ModifierSet) → on_time (required m) ≡ true
required-on_time m = ground arith

-- Settings that keep what others have meet the tags that these meet.
kept-Meets :
    (tags d r : Fields)
    → ((j : String) (w : Json) → is_late j ≡ false → get j d ≡ some w → get j r ≡ some w)
    → on_time tags ≡ true
    → Meets tags d
    → Meets tags r
kept-Meets end d r kept early met = tt
kept-Meets (field k v tags) d r kept early (at, met) =
    (kept k v (ground (arith, early)) at, kept-Meets tags d r kept (ground (arith, early)) met)

module _ (int_of_float : Json → Option ℤ) where
  pub static_layers-some :
      (request : StaticRequest) (d : Fields)
      → (r : Fields) × (static_layers int_of_float request d ≡ some r)
  unfolding static_layers apply_stage_base_incar_settings
  static_layers-some request d = (_, refl)

  -- The layers after the modifiers of the HSE06 analysis stages.
  abbrev band_structure_layers : Fields → Fields
  band_structure_layers d = apply_stage_resource_incar_settings StageType.band_structure (
      apply_theory_incar_settings (apply_hse_band_structure_base_incar_settings int_of_float d)
        Theory.hse06 CalculationStage.band_structure)

  pub band_structure_layers-Keeps : Keeps band_structure_layers
  band_structure_layers-Keeps =
      then-Keeps (apply_hse_band_structure_base_incar_settings int_of_float)
        (λ d.
          apply_stage_resource_incar_settings StageType.band_structure
            (apply_theory_incar_settings d Theory.hse06 CalculationStage.band_structure))
        (apply_hse_band_structure_base_incar_settings-Keeps int_of_float)
        (then-Keeps
          (λ d. apply_theory_incar_settings d Theory.hse06 CalculationStage.band_structure)
          (apply_stage_resource_incar_settings StageType.band_structure)
          (apply_theory_incar_settings-Keeps Theory.hse06 CalculationStage.band_structure)
          (apply_stage_resource_incar_settings-Keeps StageType.band_structure))

  abbrev dos_layers : Fields → Fields
  dos_layers d = apply_stage_resource_incar_settings StageType.dos (
      apply_theory_incar_settings (apply_hse_dos_base_incar_settings int_of_float d) Theory.hse06
        CalculationStage.dos)

  pub dos_layers-Keeps : Keeps dos_layers
  dos_layers-Keeps =
      then-Keeps (apply_hse_dos_base_incar_settings int_of_float)
        (λ d.
          apply_stage_resource_incar_settings StageType.dos
            (apply_theory_incar_settings d Theory.hse06 CalculationStage.dos))
        (apply_hse_dos_base_incar_settings-Keeps int_of_float)
        (then-Keeps (λ d. apply_theory_incar_settings d Theory.hse06 CalculationStage.dos)
          (apply_stage_resource_incar_settings StageType.dos)
          (apply_theory_incar_settings-Keeps Theory.hse06 CalculationStage.dos)
          (apply_stage_resource_incar_settings-Keeps StageType.dos))

  -- Every static stage gets INCAR settings, and they have the tags that its modifiers require,
  -- with their values, whatever the user set: the tags of non-collinear magnetism with SOC and
  -- ISPIN otherwise, and no tag of DFT+U where it is not selected.
  pub static_user_incar_settings-Meets :
      (request : StaticRequest)
      → (r : Fields) × (static_user_incar_settings int_of_float request ≡ some r)
        × Meets
            (required (calculation_modifiers_from_options request.modifiers request.spin_polarized))
            r
  unfolding static_user_incar_settings
  static_user_incar_settings-Meets request =
      let m = calculation_modifiers_from_options request.modifiers request.spin_polarized in
      let d = modified m request.moments request.incar in
      let (r, computed) = static_layers-some request d in
      (
        r,
        computed,
        kept-Meets (required m) d r
            (λ j w kept set. static_layers-keeps int_of_float request d r j w computed kept set)
            (required-on_time m) (modified-Meets m request.moments request.incar),
      )
