-- ===== src/Policy/Theory.antt =====
-- backend/calculations/theory_policy.py
use bmd_compute.Prelude.{Bool, true, false, Option, none, some}
use bmd_compute.Model.{
  Theory, Purpose, StageType, bool, int, float, str, pos, negsuc, Fields, end, field,
}
use bmd_compute.Policy.Incar.{update, apply_defaults, pop}

pub data CalculationStage : Type 0 where
  relax static dos band_structure : CalculationStage

-- `CalculationStage(stage_type.value)`; a value without a member is a ValueError.
abbrev pub calculation_stage : StageType → Option CalculationStage
calculation_stage StageType.relax = some CalculationStage.relax
calculation_stage StageType.static = some CalculationStage.static
calculation_stage StageType.dos = some CalculationStage.dos
calculation_stage StageType.band_structure = some CalculationStage.band_structure
calculation_stage StageType.phonon_forces = none

-- Membership in the frozenset that the function of this name returns.
abbrev pub theory_supported_purposes : Theory → Purpose → Bool
theory_supported_purposes Theory.pbe Purpose.dielectric = false
theory_supported_purposes Theory.pbe _ = true
theory_supported_purposes Theory.hse06 Purpose.relax = true
theory_supported_purposes Theory.hse06 Purpose.relax_static = true
theory_supported_purposes Theory.hse06 Purpose.static = true
theory_supported_purposes _ _ = false

abbrev pub theory_supported_stages : Theory → CalculationStage → Bool
theory_supported_stages Theory.pbe _ = true
theory_supported_stages Theory.hse06 _ = true
theory_supported_stages Theory.r2scan _ = false

abbrev pub theory_uses_hybrid_functional : Theory → Bool
theory_uses_hybrid_functional Theory.hse06 = true
theory_uses_hybrid_functional _ = false

-- A purpose without a stage is a ValueError.
abbrev pub theory_stage_from_purpose : Purpose → Option CalculationStage
theory_stage_from_purpose Purpose.relax = some CalculationStage.relax
theory_stage_from_purpose Purpose.relax_static = some CalculationStage.static
theory_stage_from_purpose Purpose.double_relax = some CalculationStage.relax
theory_stage_from_purpose Purpose.static = some CalculationStage.static
theory_stage_from_purpose Purpose.dos = some CalculationStage.dos
theory_stage_from_purpose Purpose.band_structure = some CalculationStage.band_structure
theory_stage_from_purpose Purpose.dielectric = none

abbrev hse06_base_incar : Fields
hse06_base_incar = field "LHFCALC" (bool true) (
    field "AEXX" (float "0.25") (
      field "HFSCREEN" (float "0.2")
        (field "GGA" (str "PE") (field "ALGO" (str "Damped") (field "TIME" (float "0.4") end)))))

abbrev hse06_stage_incar : CalculationStage → Fields
hse06_stage_incar CalculationStage.relax = field "PRECFOCK" (str "Fast") end
hse06_stage_incar CalculationStage.static =
    field "PRECFOCK" (str "Accurate") (field "ISMEAR" (int (pos 0)) end)
hse06_stage_incar CalculationStage.dos =
    field "ALGO" (str "Normal")
      (field "PRECFOCK" (str "Fast") (field "ISMEAR" (int (negsuc 4)) end))
hse06_stage_incar CalculationStage.band_structure = field "ALGO" (str "Normal") (
    field "PRECFOCK" (str "Fast") (field "ISMEAR" (int (pos 0)) (field "SIGMA" (float "0.01") end)))

unfoldable pub theory_incar_settings : Theory → CalculationStage → Fields
unfolding update
theory_incar_settings Theory.hse06 stage = update hse06_base_incar (hse06_stage_incar stage)
theory_incar_settings _ stage = end

unfoldable pub apply_theory_incar_settings : Fields → Theory → CalculationStage → Fields
unfolding theory_incar_settings apply_defaults pop
apply_theory_incar_settings user Theory.hse06 stage =
    pop "NPAR" (pop "KPAR" (apply_defaults user (theory_incar_settings Theory.hse06 stage)))
apply_theory_incar_settings user theory stage =
    apply_defaults user (theory_incar_settings theory stage)
