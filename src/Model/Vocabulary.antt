-- ===== src/Model/Vocabulary.antt =====
-- The enumerations of backend/calculations/models.py, and the tests `a is b` on them.
use bmd_compute.Prelude.{Bool, true, false}

pub data Purpose : Type 0 where
  relax relax_static double_relax static dos band_structure dielectric : Purpose

pub data Theory : Type 0 where
  pbe r2scan hse06 : Theory

pub data Modifier : Type 0 where
  soc dft_u dispersion spin_polarized gamma_only ions_only : Modifier

pub data StageType : Type 0 where
  relax static dos band_structure phonon_forces : StageType

abbrev pub is_theory : Theory → Theory → Bool
is_theory Theory.pbe Theory.pbe = true
is_theory Theory.r2scan Theory.r2scan = true
is_theory Theory.hse06 Theory.hse06 = true
is_theory _ _ = false

abbrev pub is_stage : StageType → StageType → Bool
is_stage StageType.relax StageType.relax = true
is_stage StageType.static StageType.static = true
is_stage StageType.dos StageType.dos = true
is_stage StageType.band_structure StageType.band_structure = true
is_stage StageType.phonon_forces StageType.phonon_forces = true
is_stage _ _ = false
