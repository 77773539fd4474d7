-- ===== src/RunRecords.antt =====
-- backend/run_records.py: the contracts of the records that a run leaves. A record is parsed JSON; the
-- identifiers of directories are lists of code points, and digits are those of ASCII.
pub mod Directories
use bmd_compute.Prelude.{
  ℕ, zero, suc, String, Bool, true, false, not, ◌&&◌, ◌||◌, Option, none, some, List, [], ◌∷◌,
  Result, ok, err, ◌>>=◌, ◌>>◌, raise_if, any, all, length, take, drop, leb, ltb, ◌==◌, str_eq,
  if◌then◌else◌,
}
use bmd_compute.Prelude.Text.{codes, codes_eq}
use bmd_compute.Prelude.Decimal.{is_digit, number}
use bmd_compute.Model.{
  Json, null, int, str, arr, obj, pos, Items, nil, cons, Fields, end, field, get, put,
}
use bmd_compute.Policy.Incar.{has, is_int, update}

pub data RecordError : Type 0 where
  not_an_object no_text not_positive : String → RecordError
  wrong_schema : RecordError
  no_stages malformed_stage malformed_structure malformed_provenance : RecordError
  names_no_stage : List ℕ → RecordError
  names_twice : ℕ → RecordError
  no_path : List ℕ → RecordError
  not_every_stage : RecordError

abbrev pub Check : Type 0
Check = Result RecordError (Unit {0})

abbrev submission_record_header : Fields
submission_record_header =
    field "schema" (str "bmd_compute.submission") (field "schema_version" (int (pos 1)) end)

-- `$` also matches before a line feed that ends the text.
abbrev pub without_final_newline : List ℕ → List ℕ
without_final_newline [] = []
without_final_newline (c ∷ []) = if c == 10 then [] else c ∷ []
without_final_newline (c ∷ d ∷ text) = c ∷ without_final_newline (d ∷ text)

abbrev pub is_stage_number : List ℕ → Bool
is_stage_number text = leb 2 (length text) && all is_digit text && leb 1 (number text)

abbrev pub stage_number : List ℕ → Option ℕ
stage_number text = if is_stage_number text then some (number text) else none

-- STAGE_DIRECTORY_ID_PATTERN, `^(?:stage|relax)_(\d{2,})$`, and the index that it captures.
unfoldable pub stage_index_from_directory_id : List ℕ → Option ℕ
stage_index_from_directory_id text =
    if codes_eq (take 6 text) (codes "stage_") || codes_eq (take 6 text) (codes "relax_")
    then stage_number (without_final_newline (drop 6 text))
    else none

-- A dictionary of directories: an identifier, and the text of its value where that is not empty.
abbrev pub Directories : Type 0
Directories = List (List ℕ × Option (List ℕ))

abbrev pub Mapped : Type 0
Mapped = List (ℕ × List ℕ)

abbrev pub names_index : ℕ → Mapped → Bool
names_index index mapped = any (λ entry. entry.0 == index) mapped

abbrev pub place :
    ℕ → Mapped → List ℕ → Option (List ℕ) → Option ℕ → Result RecordError (ℕ × List ℕ)
place stage_count mapped identifier path none = err (names_no_stage identifier)
place stage_count mapped identifier path (some index) =
    if ltb stage_count index
    then err (names_no_stage identifier)
    else if names_index index mapped
    then err (names_twice index)
    else elim path [ none ↦ err (no_path identifier) | some text ↦ ok (index, text) ]

-- The loop: `mapped` holds the entries so far, the last one first.
unfoldable pub map_directories : ℕ → Mapped → Directories → Result RecordError Mapped
map_directories stage_count mapped [] = ok mapped
map_directories stage_count mapped ((identifier, path) ∷ directories) = do
  entry ← place stage_count mapped identifier path (stage_index_from_directory_id identifier)
  map_directories stage_count (entry ∷ mapped) directories

-- Each of 1, ..., n is named.
abbrev pub names_up_to : ℕ → Mapped → Bool
names_up_to zero mapped = true
names_up_to (suc n) mapped = names_index (suc n) mapped && names_up_to n mapped

abbrev pub within : ℕ → Mapped → Bool
within n mapped = all (λ entry. leb 1 entry.0 && leb entry.0 n) mapped

unfoldable pub validate_stage_directories : ℕ → Directories → Result RecordError Mapped
validate_stage_directories stage_count directories = do
  mapped ← map_directories stage_count [] directories
  raise_if (ltb 1 stage_count && not (names_up_to stage_count mapped && within stage_count mapped))
      not_every_stage
  ok mapped
