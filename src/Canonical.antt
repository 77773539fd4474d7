-- ===== src/Canonical.antt =====
-- backend/phonons/records.py: the canonical form of JSON data. `canonical_json` writes the value with
-- sorted keys; that text is represented by the value with its keys in order, and SHA-256 of the text
-- is an argument where it is used.
pub mod Equality
use Prim.Native.Nat.{Ordering}
use Prim.Native.String.{compare}
use bmd_compute.Prelude.{
  ℕ, ◌+◌, String, Bool, true, false, ◌||◌, Option, none, some, List, ◌++◌, str_eq, if◌then◌else◌,
}
use bmd_compute.Prelude.Text.{codes}
use bmd_compute.Prelude.Decimal.{padded}
use bmd_compute.Model.{
  Json, null, bool, int, float, str, arr, obj, Items, nil, cons, Fields, end, field,
}

-- `sort_keys`: the field goes before the first one with a later key.
unfoldable pub insert_field : String → Json → Fields → Fields
insert_field k v end = field k v end
insert_field k v (field j w d) =
    let later = insert_field k v d in
    elim (compare k j) [ Ordering.lt ↦ field k v (field j w d) | _ ↦ field j w later ]

-- Not finite: these are the texts that `repr` gives such a float.
abbrev is_non_finite : String → Bool
is_non_finite text = str_eq text "nan" || str_eq text "inf" || str_eq text "-inf"

abbrev canonical_float : String → Option Json
canonical_float text =
    if is_non_finite text
    then none
    else if str_eq text "-0.0"
    then some (float "0.0")
    else some (float text)

abbrev pub map_option {ℓ κ} : {A : Type ℓ} {B : Type κ} → (A → B) → Option A → Option B
map_option f none = none
map_option f (some a) = some (f a)

abbrev pub map2_option {ℓ κ ℓ'} :
    {A : Type ℓ} {B : Type κ} {C : Type ℓ'} → (A → B → C) → Option A → Option B → Option C
map2_option f (some a) (some b) = some (f a b)
map2_option f _ _ = none

-- `none` is the error for a float that is not finite.
unfoldable mutual
  unfolding insert_field

  pub canonical_value : Json → Option Json
  canonical_value null = some null
  canonical_value (bool b) = some (bool b)
  canonical_value (int n) = some (int n)
  canonical_value (float text) = canonical_float text
  canonical_value (str s) = some (str s)
  canonical_value (arr items) = map_option arr (canonical_items items)
  canonical_value (obj d) = map_option obj (canonical_fields d)

  pub canonical_items : Items → Option Items
  canonical_items nil = some nil
  canonical_items (cons v items) = map2_option cons (canonical_value v) (canonical_items items)

  pub canonical_fields : Fields → Option Fields
  canonical_fields end = some end
  canonical_fields (field k v d) =
      map2_option (insert_field k) (canonical_value v) (canonical_fields d)

-- `f"disp_{dataset_index + 1:03d}"`
unfoldable pub task_id_for_index : ℕ → List ℕ
task_id_for_index index = codes "disp_" ++ padded 3 (index + 1)
