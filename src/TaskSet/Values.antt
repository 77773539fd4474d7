-- ===== src/TaskSet/Values.antt =====
-- backend/stage_task_set.py: the typed accessors and patterns of the record's values.
use bmd_compute.Prelude.{
  ℕ, String, Bool, true, false, not, ◌&&◌, ◌||◌, Option, some, List, [], ◌∷◌, Result, ok, err,
  raise_if, any, all, length, take, drop, leb, ltb, ◌==◌, str_eq, if◌then◌else◌,
}
use bmd_compute.Prelude.Text.{codes, codes_eq}
use bmd_compute.Prelude.Decimal.{is_digit}
use bmd_compute.Model.{StageType, Json, int, str, obj, pos, Fields, keys}
use bmd_compute.Serialisation.{stage_type_value, stage_types, find_member}

pub data TaskSetError : Type 0 where
  not_an_object wrong_keys not_an_integer below_one not_a_digest : String → TaskSetError
  wrong_schema wrong_version not_canonical wrong_attempt_id unknown_stage_type : TaskSetError
  single_calculation upstream_not_earlier wrong_materializer wrong_source : TaskSetError
  wrong_order no_tasks invalid_task_id wrong_hash not_canonical_text : TaskSetError
  duplicate_id out_of_order duplicate_input : ℕ → TaskSetError
  outside_workflow other_attempt other_workflow other_stage_type other_methodology : TaskSetError
  not_a_specification invalid_stage_directory task_directory_escapes : TaskSetError

abbrev pub Check : Type 0
Check = Result TaskSetError (Unit {0})

-- `stage_materialization` and `derived_task_set_materializer`
abbrev pub is_derived_task_set : StageType → Bool
is_derived_task_set StageType.phonon_forces = true
is_derived_task_set _ = false

abbrev pub phonon_displacement_materializer : String
phonon_displacement_materializer = "bmd_compute.phonon_displacement_plan"

abbrev pub derived_task_set_materializer : StageType → Result TaskSetError String
derived_task_set_materializer t =
    if is_derived_task_set t then ok phonon_displacement_materializer else err single_calculation

abbrev pub is_hex_code : ℕ → Bool
is_hex_code c = is_digit c || (leb 97 c && leb c 102)

-- SHA256_PATTERN
abbrev pub is_sha256 : List ℕ → Bool
is_sha256 text = all is_hex_code text && (length text == 64)

abbrev pub is_task_code : ℕ → Bool
is_task_code c = (leb 97 c && leb c 122) || is_digit c || (c == 95)

-- TASK_ID_PATTERN
abbrev pub is_task_id : List ℕ → Bool
is_task_id [] = false
is_task_id (c ∷ text) = leb 97 c && leb c 122 && all is_task_code text && leb (length text) 63

-- A group of hexadecimal digits, and what follows it.
abbrev hex_then : ℕ → (List ℕ → Bool) → List ℕ → Bool
hex_then n rest text =
    all is_hex_code (take n text) && (length (take n text) == n) && rest (drop n text)

abbrev dash_then : (List ℕ → Bool) → List ℕ → Bool
dash_then rest [] = false
dash_then rest (c ∷ text) = (c == 45) && rest text

abbrev is_end : List ℕ → Bool
is_end [] = true
is_end _ = false

-- `str(uuid.UUID(value)) == value`: groups of 8, 4, 4, 4 and 12 lower-case hexadecimal digits.
unfoldable pub is_attempt_id : List ℕ → Bool
is_attempt_id = hex_then 8 (
    dash_then (
      hex_then 4
        (dash_then (hex_then 4 (dash_then (hex_then 4 (dash_then (hex_then 12 is_end))))))))

unfoldable pub mapping : Option Json → String → Result TaskSetError Fields
mapping (some (obj d)) label = ok d
mapping _ label = err (not_an_object label)

abbrev pub is_one_of : List String → String → Bool
is_one_of names name = any (λ n. str_eq n name) names

unfoldable pub exact_keys : Fields → List String → String → Check
exact_keys d expected label =
    raise_if (not (all (is_one_of expected) (keys d) && all (is_one_of (keys d)) expected))
      (wrong_keys label)

unfoldable pub positive_int : Option Json → String → Result TaskSetError ℕ
positive_int (some (int (pos n))) label = if ltb n 1 then err (below_one label) else ok n
positive_int (some (int _)) label = err (below_one label)
positive_int _ label = err (not_an_integer label)

abbrev pub version_check : ℕ → ℕ → TaskSetError → Check
version_check expected n error = raise_if (not (n == expected)) error

unfoldable pub require_version : ℕ → Option Json → TaskSetError → Check
require_version expected (some (int (pos n))) error = version_check expected n error
require_version expected (some (int _)) error = err error
require_version expected _ error = err (not_an_integer "schema_version")

unfoldable pub sha : Option Json → String → Result TaskSetError String
sha (some (str s)) label = if is_sha256 (codes s) then ok s else err (not_a_digest label)
sha _ label = err (not_a_digest label)

unfoldable pub attempt_id_of : Option Json → Result TaskSetError String
attempt_id_of (some (str s)) = if is_attempt_id (codes s) then ok s else err wrong_attempt_id
attempt_id_of _ = err wrong_attempt_id

-- `StageType(value)`
unfoldable pub stage_type_of : Option Json → Result TaskSetError StageType
unfolding codes_eq
stage_type_of (some (str s)) = elim (find_member stage_type_value stage_types (codes s)) [
  | ok t ↦ ok t
  | err _ ↦ err unknown_stage_type
]
stage_type_of _ = err unknown_stage_type

abbrev pub is_text : String → Option Json → Bool
is_text expected (some (str s)) = str_eq s expected
is_text expected _ = false

unfoldable pub validate_task_id : Option Json → Result TaskSetError String
validate_task_id (some (str s)) = if is_task_id (codes s) then ok s else err invalid_task_id
validate_task_id _ = err invalid_task_id
