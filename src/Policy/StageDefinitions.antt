-- ===== src/Policy/StageDefinitions.antt =====
-- backend/calculations/vasp_stage_definitions.py: what the executable stages are, and the INCAR
-- settings that they start from.
pub mod Facts
use bmd_compute.Prelude.{ℕ, String, Bool, true, false, ◌||◌, Option, none, some, str_eq}
use bmd_compute.Model.{
  StageType, Theory, Json, null, bool, int, float, str, pos, negsuc, Fields, end, field, get,
}
use bmd_compute.Policy.Incar.{is_int}
use bmd_compute.Policy.IncarDefaults.{
  encut_static_prep_default, encut_static_final_default, num, static_compatibility_defaults,
  static_final_defaults, static_prep_defaults, relax_compatibility_defaults,
  relax_executable_defaults, relax_explicit_user_preserved_defaults, restart_incar_amendments,
  hse_band_structure_stage_defaults, hse_dos_stage_defaults,
}

pub record Atomate2Selection : Type 0 where
  pub input_set_generator : String
  pub maker : String
  pub generator_mode : Option String
  pub extra_parameters : Fields

pub record StageIncarPolicy : Type 0 where
  pub executable_defaults : Fields
  pub compatibility_defaults : Fields
  pub explicit_user_preserved_defaults : Fields
  pub final_defaults : Fields
  pub prep_defaults : Fields
  pub final_encut_floor : Option ℕ
  pub prep_encut_floor : Option ℕ
  pub compatibility_conditional_sigma_for_tetrahedron : Bool
  pub prep_conditional_sigma_for_tetrahedron : Bool

pub record RestartPolicy : Type 0 where
  pub requires_previous_stage : Bool
  pub incar_amendments : Fields

-- The stage definition without its k-point description, which is text for readers.
pub record VaspStageDefinition : Type 0 where
  pub stage_type : StageType
  pub atomate2 : Atomate2Selection
  pub incar_policy : StageIncarPolicy
  pub restart_policy : RestartPolicy

abbrev core_atomate2 : String → String → Option String → Fields → Atomate2Selection
core_atomate2 generator maker mode extra = record {
  input_set_generator = generator;
  maker = maker;
  generator_mode = mode;
  extra_parameters = extra;
}

abbrev empty_incar_policy : StageIncarPolicy
empty_incar_policy = record {
  executable_defaults = end;
  compatibility_defaults = end;
  explicit_user_preserved_defaults = end;
  final_defaults = end;
  prep_defaults = end;
  final_encut_floor = none;
  prep_encut_floor = none;
  compatibility_conditional_sigma_for_tetrahedron = false;
  prep_conditional_sigma_for_tetrahedron = false;
}

abbrev no_restart : RestartPolicy
no_restart = record { requires_previous_stage = false; incar_amendments = end }

abbrev charge_density_restart : RestartPolicy
charge_density_restart = record {
  requires_previous_stage = true;
  incar_amendments = restart_incar_amendments;
}

abbrev pub static_policy : StageIncarPolicy
static_policy = record empty_incar_policy {
  compatibility_defaults = static_compatibility_defaults;
  final_defaults = static_final_defaults;
  prep_defaults = static_prep_defaults;
  final_encut_floor = some encut_static_final_default;
  prep_encut_floor = some encut_static_prep_default;
  compatibility_conditional_sigma_for_tetrahedron = true;
  prep_conditional_sigma_for_tetrahedron = true;
}

-- `none` is the ValueError of a stage type without a definition.
abbrev pub stage_definition : StageType → Option VaspStageDefinition
stage_definition StageType.relax = some (record {
  stage_type = StageType.relax;
  atomate2 =
      core_atomate2 "atomate2.vasp.sets.core.RelaxSetGenerator" "atomate2.vasp.jobs.core.RelaxMaker"
        none end;
  incar_policy = record empty_incar_policy {
    executable_defaults = relax_executable_defaults;
    compatibility_defaults = relax_compatibility_defaults;
    explicit_user_preserved_defaults = relax_explicit_user_preserved_defaults;
  };
  restart_policy = no_restart;
})
stage_definition StageType.static = some (record {
  stage_type = StageType.static;
  atomate2 =
      core_atomate2 "atomate2.vasp.sets.core.StaticSetGenerator"
        "atomate2.vasp.jobs.core.StaticMaker" none end;
  incar_policy = static_policy;
  restart_policy = no_restart;
})
stage_definition StageType.dos = some (record {
  stage_type = StageType.dos;
  atomate2 =
      core_atomate2 "atomate2.vasp.sets.core.NonSCFSetGenerator"
        "atomate2.vasp.jobs.core.NonSCFMaker" (some "uniform") end;
  incar_policy = empty_incar_policy;
  restart_policy = charge_density_restart;
})
stage_definition StageType.band_structure = some (record {
  stage_type = StageType.band_structure;
  atomate2 =
      core_atomate2 "atomate2.vasp.sets.core.NonSCFSetGenerator"
        "atomate2.vasp.jobs.core.NonSCFMaker" (some "line") end;
  incar_policy = empty_incar_policy;
  restart_policy = charge_density_restart;
})
stage_definition StageType.phonon_forces = none

pub record StageOverride : Type 0 where
  pub atomate2 : Atomate2Selection
  pub bmd_incar_defaults : Fields
  pub encut_floor : ℕ
  pub restart_policy : RestartPolicy

abbrev hse_extra : ℕ → Fields
hse_extra density = field "reciprocal_density" (num density) (
    field "custodian_policy"
      (str "backend.calculations.custodian_policy.hse_band_structure_run_vasp_kwargs") end)

abbrev own_restart : RestartPolicy
own_restart = record { requires_previous_stage = true; incar_amendments = end }

abbrev pub theory_stage_override_for : StageType → Theory → Option StageOverride
theory_stage_override_for StageType.dos Theory.hse06 = some (record {
  atomate2 =
      core_atomate2 "atomate2.vasp.sets.core.HSEBSSetGenerator" "atomate2.vasp.jobs.core.HSEBSMaker"
        (some "uniform") (hse_extra 100);
  bmd_incar_defaults = hse_dos_stage_defaults;
  encut_floor = encut_static_final_default;
  restart_policy = own_restart;
})
theory_stage_override_for StageType.band_structure Theory.hse06 = some (record {
  atomate2 =
      core_atomate2 "atomate2.vasp.sets.core.HSEBSSetGenerator" "atomate2.vasp.jobs.core.HSEBSMaker"
        (some "line") (hse_extra 64);
  bmd_incar_defaults = hse_band_structure_stage_defaults end;
  encut_floor = encut_static_final_default;
  restart_policy = own_restart;
})
theory_stage_override_for _ _ = none

restart_policy_for : Option StageOverride → VaspStageDefinition → RestartPolicy
restart_policy_for (some o) d = o.restart_policy
restart_policy_for none d = d.restart_policy

unfoldable pub stage_restart_incar_amendments : StageType → Theory → Option Fields
unfolding restart_policy_for
stage_restart_incar_amendments t theory = elim (stage_definition t) [
  | none ↦ none
  | some d ↦ some (restart_policy_for (theory_stage_override_for t theory) d).incar_amendments
]

unfoldable pub stage_reads_previous_charge_density : StageType → Theory → Option Bool
unfolding stage_restart_incar_amendments
stage_reads_previous_charge_density t theory = elim (stage_restart_incar_amendments t theory) [
  | none ↦ none
  | some amendments ↦ some (is_int 11 (get "ICHARG" amendments))
]

atomate2_selection_for : Option StageOverride → VaspStageDefinition → Atomate2Selection
atomate2_selection_for (some o) d = o.atomate2
atomate2_selection_for none d = d.atomate2

abbrev in_previous_band_count_generators : String → Bool
in_previous_band_count_generators g =
    str_eq g "atomate2.vasp.sets.core.NonSCFSetGenerator"
    || str_eq g "atomate2.vasp.sets.core.HSEBSSetGenerator"

unfoldable pub stage_inherits_previous_band_count : StageType → Theory → Option Bool
unfolding atomate2_selection_for
stage_inherits_previous_band_count t theory = elim (stage_definition t) [
  | none ↦ none
  | some d ↦ some (
      in_previous_band_count_generators
        (atomate2_selection_for (theory_stage_override_for t theory) d).input_set_generator)
]
