-- ===== src/Policy/StageDefinitions/Facts.antt =====
-- Which stages consume electronic data of the stage before them.
use bmd_compute.Prelude.{Bool, true, false, Option, none, some, ◌≡◌, refl}
use bmd_compute.Model.{StageType, Theory}
use bmd_compute.Policy.StageDefinitions.{
  stage_reads_previous_charge_density, stage_inherits_previous_band_count,
}

-- The stages that restart from a fixed charge density: DOS and band structure, except with HSE06.
abbrev pub fixed_density : StageType → Theory → Bool
fixed_density StageType.dos Theory.hse06 = false
fixed_density StageType.dos _ = true
fixed_density StageType.band_structure Theory.hse06 = false
fixed_density StageType.band_structure _ = true
fixed_density _ _ = false

abbrev pub is_analysis : StageType → Bool
is_analysis StageType.dos = true
is_analysis StageType.band_structure = true
is_analysis _ = false

abbrev pub unless_phonon : StageType → Bool → Option Bool
unless_phonon StageType.phonon_forces b = none
unless_phonon _ b = some b

-- The stage tables make exactly the DOS and band structure stages that are not HSE06 restart from
-- the charge density of the stage before; a phonon stage has no definition.
pub stage_reads_previous_charge_density_lem :
    (t : StageType) (theory : Theory)
    → stage_reads_previous_charge_density t theory ≡ unless_phonon t (fixed_density t theory)
unfolding stage_reads_previous_charge_density
stage_reads_previous_charge_density_lem StageType.dos Theory.hse06 = refl
stage_reads_previous_charge_density_lem StageType.dos Theory.pbe = refl
stage_reads_previous_charge_density_lem StageType.dos Theory.r2scan = refl
stage_reads_previous_charge_density_lem StageType.band_structure Theory.hse06 = refl
stage_reads_previous_charge_density_lem StageType.band_structure _ = refl
stage_reads_previous_charge_density_lem _ Theory.pbe = refl
stage_reads_previous_charge_density_lem _ _ = refl

-- The stage tables make exactly the DOS and band structure stages take their band count from the
-- stage before; a phonon stage has no definition.
pub stage_inherits_previous_band_count_lem :
    (t : StageType) (theory : Theory)
    → stage_inherits_previous_band_count t theory ≡ unless_phonon t (is_analysis t)
unfolding stage_inherits_previous_band_count
stage_inherits_previous_band_count_lem StageType.dos Theory.hse06 = refl
stage_inherits_previous_band_count_lem StageType.dos Theory.pbe = refl
stage_inherits_previous_band_count_lem StageType.dos Theory.r2scan = refl
stage_inherits_previous_band_count_lem StageType.band_structure Theory.hse06 = refl
stage_inherits_previous_band_count_lem StageType.band_structure _ = refl
stage_inherits_previous_band_count_lem _ Theory.pbe = refl
stage_inherits_previous_band_count_lem _ _ = refl
