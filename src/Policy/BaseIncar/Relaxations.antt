-- ===== src/Policy/BaseIncar/Relaxations.antt =====
-- How the base INCAR settings of the executable relaxation are those of the compatibility path.
use bmd_compute.Prelude.{
  String, Option, none, some, ◌≡◌, refl, str_eq, eq_iff, arith, if◌then◌else◌,
}
use bmd_compute.Model.{StageType, Json, int, pos, ℤ, Fields, end, field, get}
use bmd_compute.Policy.Incar.{
  apply_defaults, apply_explicit_user_preserved_defaults, get-apply_defaults,
}
use bmd_compute.Policy.IncarDefaults.{
  relax_executable_defaults, relax_compatibility_defaults, relax_explicit_user_preserved_defaults,
}
use bmd_compute.Policy.BaseIncar.{
  apply_stage_base_incar_settings, apply_relax_compatibility_incar_settings,
}
use bmd_compute.Policy.BaseIncar.Preserved.{get-apply_explicit_user_preserved_defaults}

-- A setting, or else a default.
abbrev pub or_default : Option Json → Option Json → Option Json
or_default none fallback = fallback
or_default (some v) fallback = some v

-- The defaults that only the executable relaxation has.
abbrev pub executable_only : Fields
executable_only = field "ENCUT" (int (pos 580)) (field "EDIFF" (Json.float "1e-06") end)

-- A default may be looked up behind defaults that do not name it.
behind :
    (k j : String) (v : Json) (d : Fields) (o : Option Json)
    → get k d ≡ none
    → (if str_eq k j then some v else or_default (get j d) o)
      ≡ or_default (get j d) (if str_eq k j then some v else o)
behind k j v d o missing = ground (arith, missing, eq_iff k j)

executable_defaults_lem :
    (j : String)
    → get j relax_executable_defaults
      ≡ or_default (get j relax_compatibility_defaults) (get j executable_only)
executable_defaults_lem j = ground (
  arith,
  behind "EDIFF" j (Json.float "1e-06") relax_compatibility_defaults none refl,
  behind "ENCUT" j (int (pos 580)) relax_compatibility_defaults
      (if str_eq "EDIFF" j then some (Json.float "1e-06") else none) refl,
)

relaxation_lem :
    (j : String) (user explicit : Fields)
    → get j (
        apply_explicit_user_preserved_defaults
          (apply_defaults user relax_executable_defaults)
          relax_explicit_user_preserved_defaults
          explicit)
      ≡ or_default
          (get j (
            apply_defaults
              (apply_explicit_user_preserved_defaults user relax_explicit_user_preserved_defaults
                explicit)
              relax_compatibility_defaults))
          (get j executable_only)
relaxation_lem j user explicit = ground (
  arith,
  executable_defaults_lem j,
  get-apply_explicit_user_preserved_defaults j (apply_defaults user relax_executable_defaults)
      relax_explicit_user_preserved_defaults explicit,
  get-apply_explicit_user_preserved_defaults j user relax_explicit_user_preserved_defaults explicit,
  get-apply_defaults j user relax_executable_defaults,
  get-apply_defaults j
      (apply_explicit_user_preserved_defaults user relax_explicit_user_preserved_defaults explicit)
      relax_compatibility_defaults,
)

module _ (int_of_float : Json → Option ℤ) where
  -- Although they apply the two kinds of defaults in opposite orders, the executable relaxation
  -- and the compatibility path give the same settings, up to the defaults for ENCUT and EDIFF that
  -- the executable relaxation adds.
  pub apply_stage_base_incar_settings-relax :
      (user explicit : Fields) (intent : String) (r c : Fields)
      → apply_stage_base_incar_settings int_of_float StageType.relax user intent explicit ≡ some r
      → apply_relax_compatibility_incar_settings user explicit ≡ some c
      → (j : String) → get j r ≡ or_default (get j c) (get j executable_only)
  unfolding apply_stage_base_incar_settings apply_relax_compatibility_incar_settings
  apply_stage_base_incar_settings-relax user explicit intent r c executed compatible j =
      ground (arith, executed, compatible, relaxation_lem j user explicit)
