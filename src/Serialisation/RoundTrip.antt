-- ===== src/Serialisation/RoundTrip.antt =====
-- A specification survives its dictionary.
use bmd_compute.Prelude.{String, Option, none, some, List, [], ◌∷◌, ok, ◌≡◌, refl, arith}
use bmd_compute.Model.{Theory, Modifier, StageType, ModifierSet, str, obj, StageSpec, WorkflowSpec}
use bmd_compute.Serialisation.{
  stage_type_value, theory_value, modifier_value, stage_type_from_value, theory_from_value,
  modifier_from_value, sorted_values, text_or_null, stage_fields, stage_items, workflow_fields,
  modifiers_from_items, modifiers_from, label_from, dict_from, stage_from, stages_from_items,
  stages_from, workflow_from,
}

stage_type_from_value-value :
    (t : StageType) → stage_type_from_value (str (stage_type_value t)) ≡ ok t
unfolding stage_type_from_value
stage_type_from_value-value StageType.relax = refl
stage_type_from_value-value StageType.static = refl
stage_type_from_value-value StageType.dos = refl
stage_type_from_value-value StageType.band_structure = refl
stage_type_from_value-value StageType.phonon_forces = refl

theory_from_value-value : (t : Theory) → theory_from_value (str (theory_value t)) ≡ ok t
unfolding theory_from_value
theory_from_value-value Theory.pbe = refl
theory_from_value-value Theory.r2scan = refl
theory_from_value-value Theory.hse06 = refl

modifier_from_value-value : (m : Modifier) → modifier_from_value (str (modifier_value m)) ≡ ok m
unfolding modifier_from_value
modifier_from_value-value Modifier.soc = refl
modifier_from_value-value Modifier.dft_u = refl
modifier_from_value-value Modifier.dispersion = refl
modifier_from_value-value Modifier.spin_polarized = refl
modifier_from_value-value Modifier.gamma_only = refl
modifier_from_value-value Modifier.ions_only = refl

modifiers-sorted_values : (s : ModifierSet) → modifiers_from_items (sorted_values s) ≡ ok s
unfolding modifiers_from_items sorted_values
modifiers-sorted_values s = ground (
  arith,
  modifier_from_value-value Modifier.dft_u,
  modifier_from_value-value Modifier.dispersion,
  modifier_from_value-value Modifier.gamma_only,
  modifier_from_value-value Modifier.ions_only,
  modifier_from_value-value Modifier.soc,
  modifier_from_value-value Modifier.spin_polarized,
)

label-text_or_null : (label : Option String) → label_from (some (text_or_null label)) ≡ ok label
unfolding label_from
label-text_or_null none = refl
label-text_or_null (some s) = refl

pub stage_from-fields : (s : StageSpec) → stage_from (obj (stage_fields s)) ≡ ok s
unfolding stage_from stage_fields dict_from modifiers_from
stage_from-fields s = ground (
  arith,
  stage_type_from_value-value s.stage_type,
  theory_from_value-value s.theory,
  modifiers-sorted_values s.modifiers,
  label-text_or_null s.label,
)

stages_from-items : (stages : List StageSpec) → stages_from_items (stage_items stages) ≡ ok stages
unfolding stages_from_items
stages_from-items [] = refl
stages_from-items (s ∷ stages) = ground (arith, stage_from-fields s, stages_from-items stages)

-- Every workflow is read back as it is from the dictionary that it is written as, with its stages,
-- their theories, modifiers, labels and options, its label and its recipe.
pub workflow_from-fields : (w : WorkflowSpec) → workflow_from (obj (workflow_fields w)) ≡ ok w
unfolding workflow_from workflow_fields dict_from stages_from
workflow_from-fields w =
    ground
      (arith, stages_from-items w.stages, label-text_or_null w.label, label-text_or_null w.recipe)
