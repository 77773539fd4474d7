-- ===== src/Serialisation.antt =====
-- backend/calculations/models.py: enumeration values from text, and specifications as dictionaries
-- and back.
pub mod RoundTrip
use bmd_compute.Prelude.{
  ℕ, String, Bool, true, false, Option, none, some, List, [], ◌∷◌, Result, ok, err, ◌>>=◌, ◌>>◌,
  ◌||◌, ◌==◌, str_eq, if◌then◌else◌,
}
use bmd_compute.Prelude.Text.{codes, codes_eq, strip, lower, replace, replace_text}
use bmd_compute.Model.{
  Purpose, Theory, Modifier, StageType, ModifierSet, no_modifiers, add, Json, null, bool, int,
  float, str, arr, obj, pos, Items, nil, cons, Fields, end, field, get, keys, StageSpec,
  WorkflowSpec,
}

-- `value_error` is the ValueError of an unknown value, `type_error` the TypeError of data of another
-- form. `not_text` stands for a label or recipe outside its annotation `str | None`, which the source
-- keeps unchecked.
pub data SpecError : Type 0 where
  value_error type_error not_text : SpecError

abbrev pub stage_type_value : StageType → String
stage_type_value StageType.relax = "relax"
stage_type_value StageType.static = "static"
stage_type_value StageType.dos = "dos"
stage_type_value StageType.band_structure = "band_structure"
stage_type_value StageType.phonon_forces = "phonon_forces"

abbrev pub theory_value : Theory → String
theory_value Theory.pbe = "pbe"
theory_value Theory.r2scan = "r2scan"
theory_value Theory.hse06 = "hse06"

abbrev pub modifier_value : Modifier → String
modifier_value Modifier.soc = "soc"
modifier_value Modifier.dft_u = "dft_u"
modifier_value Modifier.dispersion = "dispersion"
modifier_value Modifier.spin_polarized = "spin_polarized"
modifier_value Modifier.gamma_only = "gamma_only"
modifier_value Modifier.ions_only = "ions_only"

-- The text that `_IntentEnum.from_value` looks up.
unfoldable pub normalized : String → List ℕ
unfolding strip lower replace replace_text
normalized text = replace_text (codes "polarised") (codes "polarized") 0 (
    replace 43 (95 ∷ []) (replace 32 (95 ∷ []) (replace 45 (95 ∷ []) (lower (strip (codes text))))))

-- The first member of the value; the names of the members are their values in capitals.
module _ {ℓ} {Member : Type ℓ} (value_of : Member → String) where
  abbrev pub find_member : List Member → List ℕ → Result SpecError Member
  find_member [] text = err value_error
  find_member (m ∷ members) text =
      if codes_eq (codes (value_of m)) text then ok m else find_member members text

  -- `from_value` of text, `None` or another value: the `str` of a number, a Boolean, a list or an
  -- object is no value of a member.
  abbrev pub from_value : List Member → Json → Result SpecError Member
  from_value members (str s) = find_member members (normalized s)
  from_value members _ = err value_error

abbrev pub stage_types : List StageType
stage_types =
    StageType.relax ∷ StageType.static ∷ StageType.dos ∷ StageType.band_structure
    ∷ StageType.phonon_forces ∷ []

abbrev pub theories : List Theory
theories = Theory.pbe ∷ Theory.r2scan ∷ Theory.hse06 ∷ []

abbrev pub modifiers : List Modifier
modifiers =
    Modifier.soc ∷ Modifier.dft_u ∷ Modifier.dispersion ∷ Modifier.spin_polarized
    ∷ Modifier.gamma_only ∷ Modifier.ions_only ∷ []

unfoldable pub stage_type_from_value : Json → Result SpecError StageType
unfolding normalized codes_eq
stage_type_from_value = from_value stage_type_value stage_types

unfoldable pub theory_from_value : Json → Result SpecError Theory
unfolding normalized codes_eq
theory_from_value = from_value theory_value theories

unfoldable pub modifier_from_value : Json → Result SpecError Modifier
unfolding normalized codes_eq
modifier_from_value = from_value modifier_value modifiers

-- `sorted(modifier.value for modifier in self.modifiers)`
abbrev listed : Bool → Modifier → Items → Items
listed true m items = cons (str (modifier_value m)) items
listed false m items = items

unfoldable pub sorted_values : ModifierSet → Items
sorted_values s = listed s.has_dft_u Modifier.dft_u (
    listed s.has_dispersion Modifier.dispersion (
      listed s.has_gamma_only Modifier.gamma_only (
        listed s.has_ions_only Modifier.ions_only (
          listed s.has_soc Modifier.soc
            (listed s.has_spin_polarized Modifier.spin_polarized nil)))))

abbrev pub text_or_null : Option String → Json
text_or_null none = null
text_or_null (some s) = str s

-- `StageSpec.to_dict`
unfoldable pub stage_fields : StageSpec → Fields
stage_fields s = field "stage_type" (str (stage_type_value s.stage_type)) (
    field "theory" (str (theory_value s.theory)) (
      field "modifiers" (arr (sorted_values s.modifiers))
        (field "label" (text_or_null s.label) (field "options" (obj s.options) end))))

abbrev pub stage_items : List StageSpec → Items
stage_items [] = nil
stage_items (s ∷ stages) = cons (obj (stage_fields s)) (stage_items stages)

-- `WorkflowSpec.to_dict`
unfoldable pub workflow_fields : WorkflowSpec → Fields
workflow_fields w =
    field "stages" (arr (stage_items w.stages))
      (field "label" (text_or_null w.label) (field "recipe" (text_or_null w.recipe) end))

-- `bool(value)` is false: the values for which `value or default` is the default. A float is its
-- text.
abbrev pub is_falsy : Json → Bool
is_falsy null = true
is_falsy (bool b) = if b then false else true
is_falsy (int (pos n)) = n == 0
is_falsy (float text) = str_eq text "0.0" || str_eq text "-0.0"
is_falsy (str s) = str_eq s ""
is_falsy (arr nil) = true
is_falsy (obj end) = true
is_falsy _ = false

unfoldable pub modifiers_from_items : Items → Result SpecError ModifierSet
modifiers_from_items nil = ok no_modifiers
modifiers_from_items (cons v items) = do
  m ← modifier_from_value v
  set ← modifiers_from_items items
  ok (add m set)

abbrev key_items : List String → Items
key_items [] = nil
key_items (k ∷ names) = cons (str k) (key_items names)

-- `_normalize_modifiers(values.get("modifiers") or ())`: the iteration over an object is over its
-- keys, and a character of a text is no value of a member.
unfoldable pub modifiers_from : Option Json → Result SpecError ModifierSet
modifiers_from none = ok no_modifiers
modifiers_from (some (arr items)) = modifiers_from_items items
modifiers_from (some (obj d)) = modifiers_from_items (key_items (keys d))
modifiers_from (some (str s)) = if is_falsy (str s) then ok no_modifiers else err value_error
modifiers_from (some v) = if is_falsy v then ok no_modifiers else err type_error

unfoldable pub label_from : Option Json → Result SpecError (Option String)
label_from none = ok none
label_from (some null) = ok none
label_from (some (str s)) = ok (some s)
label_from (some _) = err not_text

-- `dict(value or {})`, where pairs in a list are not read as items.
unfoldable pub dict_from : Option Json → Result SpecError Fields
dict_from none = ok end
dict_from (some (obj d)) = ok d
dict_from (some v) = if is_falsy v then ok end else err type_error

abbrev pub or_value : Option Json → String → Json
or_value none s = str s
or_value (some v) s = v

-- `StageSpec.from_dict`
unfoldable pub stage_from : Json → Result SpecError StageSpec
stage_from payload = do
  values ← dict_from (some payload)
  stage_type ← stage_type_from_value (or_value (get "stage_type" values) "static")
  theory ← theory_from_value (or_value (get "theory" values) "pbe")
  set ← modifiers_from (get "modifiers" values)
  options ← dict_from (get "options" values)
  label ← label_from (get "label" values)
  ok (record {
    stage_type = stage_type;
    theory = theory;
    modifiers = set;
    label = label;
    options = options;
  })

unfoldable pub stages_from_items : Items → Result SpecError (List StageSpec)
stages_from_items nil = ok []
stages_from_items (cons v items) = do
  s ← stage_from v
  stages ← stages_from_items items
  ok (s ∷ stages)

unfoldable pub stages_from : Option Json → Result SpecError (List StageSpec)
stages_from none = ok []
stages_from (some (arr items)) = stages_from_items items
stages_from (some v) = if is_falsy v then ok [] else err type_error

-- `WorkflowSpec.from_dict`
unfoldable pub workflow_from : Json → Result SpecError WorkflowSpec
workflow_from payload = do
  values ← dict_from (some payload)
  stages ← stages_from (get "stages" values)
  label ← label_from (get "label" values)
  recipe ← label_from (get "recipe" values)
  ok (record { stages = stages; label = label; recipe = recipe })
