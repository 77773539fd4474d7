-- ===== src/Policy/IncarDefaults.antt =====
-- backend/calculations/vasp_stage_definitions.py: the tables of INCAR defaults.
use bmd_compute.Prelude.{ℕ, true, false}
use bmd_compute.Model.{Json, null, bool, int, float, str, pos, negsuc, Fields, end, field}

abbrev pub encut_static_prep_default : ℕ
encut_static_prep_default = 520

abbrev encut_relax_default : ℕ
encut_relax_default = 580

abbrev pub encut_static_final_default : ℕ
encut_static_final_default = 620

abbrev pub num : ℕ → Json
num n = int (pos n)

-- `{**a, **b}`
abbrev static_common : Fields → Fields
static_common rest = field "GGA" null (
    field "ENAUG" null
      (field "LMIXTAU" null (field "EDIFF" (float "1e-06") (field "ALGO" (str "Normal") rest))))

abbrev pub static_compatibility_defaults : Fields
static_compatibility_defaults = static_common (
    field "ISMEAR" (int (negsuc 4)) (
      field "NEDOS" (num 3001) (
        field "LORBIT" (num 11) (
          field "LVTOT" (bool true) (
            field "LAECHG" (bool true) (
              field "LCHARG" (bool true)
                (field "LWAVE" (bool true) (field "LELF" (bool true) end))))))))

abbrev pub static_final_defaults : Fields
static_final_defaults = static_common (
    field "LWAVE" (bool false) (
      field "LCHARG" (bool true) (
        field "ISMEAR" (int (negsuc 4)) (
          field "SIGMA" (float "0.05") (
            field "NEDOS" (num 4001) (
              field "LORBIT" (num 11) (
                field "LREAL" (bool false) (
                  field "PREC" (str "Accurate") (
                    field "ADDGRID" (bool true) (
                      field "LVTOT" (bool true)
                        (field "LAECHG" (bool true) (field "LELF" (bool true) end))))))))))))

abbrev pub static_prep_defaults : Fields
static_prep_defaults = static_common (
    field "LWAVE" (bool true) (
      field "LCHARG" (bool true) (
        field "LVTOT" (bool false) (
          field "LELF" (bool false) (
            field "LVHAR" (bool false) (
              field "LAECHG" (bool false) (
                field "ISMEAR" (int (negsuc 4))
                  (field "NEDOS" (num 3001) (field "LORBIT" (num 11) end)))))))))

abbrev pub relax_compatibility_defaults : Fields
relax_compatibility_defaults = field "GGA" null (
    field "ENAUG" null (
      field "LMIXTAU" null (
        field "ALGO" (str "Fast")
          (field "ADDGRID" (bool true) (field "EDIFFG" (float "-0.01") end)))))

abbrev pub relax_executable_defaults : Fields
relax_executable_defaults =
    field "ENCUT" (num encut_relax_default)
      (field "EDIFF" (float "1e-06") relax_compatibility_defaults)

abbrev pub relax_explicit_user_preserved_defaults : Fields
relax_explicit_user_preserved_defaults = field "LCHARG" (bool false) (
    field "LWAVE" (bool false) (
      field "LAECHG" null
        (field "LVTOT" null (field "LELF" null (field "LVHAR" null (field "LORBIT" null end))))))

abbrev pub restart_incar_amendments : Fields
restart_incar_amendments = field "ICHARG" (num 11) end

abbrev pub hse_band_structure_stage_defaults : Fields → Fields
hse_band_structure_stage_defaults rest = field "ENAUG" null (
    field "LMIXTAU" null (
      field "ADDGRID" (bool true) (
        field "EDIFF" (float "1e-06") (
          field "LORBIT" (num 11)
            (field "LREAL" (bool false) (field "PREC" (str "Accurate") rest))))))

abbrev pub hse_dos_stage_defaults : Fields
hse_dos_stage_defaults = hse_band_structure_stage_defaults (field "NEDOS" (num 4001) end)
