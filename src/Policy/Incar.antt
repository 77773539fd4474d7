-- ===== src/Policy/Incar.antt =====
-- INCAR settings are dictionaries; a value `None` is `null`. The dictionary updates that the
-- policies share (backend/calculations/vasp_stage_definitions.py).
use bmd_compute.Prelude.{
  ℕ, String, Bool, true, false, Option, none, some, ◌≡◌, str_eq, eq_iff, arith, if◌then◌else◌, ◌==◌,
}
use bmd_compute.Model.{Json, int, pos, Fields, end, field, get, put, get-put}

abbrev pub has : String → Fields → Bool
has k d = elim (get k d) [ none ↦ false | some _ ↦ true ]

-- `settings.setdefault(k, v)`
unfoldable pub setdefault : String → Json → Fields → Fields
setdefault k v d = if has k d then d else put k v d

-- `settings.pop(k, None)`
unfoldable pub pop : String → Fields → Fields
pop k end = end
pop k (field j v d) = let rest = pop k d in if str_eq j k then rest else field j v rest

-- `settings.update(new)`
unfoldable pub update : Fields → Fields → Fields
update d end = d
update d (field k v new) = update (put k v d) new

unfoldable pub apply_defaults : Fields → Fields → Fields
unfolding setdefault
apply_defaults d end = d
apply_defaults d (field k v defaults) = apply_defaults (setdefault k v d) defaults

unfoldable pub apply_explicit_user_preserved_defaults : Fields → Fields → Fields → Fields
apply_explicit_user_preserved_defaults d end explicit = d
apply_explicit_user_preserved_defaults d (field k v defaults) explicit =
    apply_explicit_user_preserved_defaults (if has k explicit then d else put k v d) defaults
      explicit

-- `mapping.get(k) == n`
abbrev pub is_int : ℕ → Option Json → Bool
is_int n (some (int (pos m))) = m == n
is_int n _ = false

-- A value that the user or an earlier policy has set is kept; a missing one is set.
pub get-setdefault :
    (k j : String) (v : Json) (d : Fields)
    → get j (setdefault k v d)
      ≡ (if str_eq k j then (elim (get j d) [ none ↦ some v | some w ↦ some w ]) else get j d)
unfolding setdefault
get-setdefault k j v d = ground (arith, get-put k j v d, eq_iff k j)

pub get-pop : (k j : String) (d : Fields) → get j (pop k d) ≡ (if str_eq k j then none else get j d)
unfolding pop
get-pop k j end = ground arith
get-pop k j (field i w d) = ground (arith, eq_iff k j, eq_iff i k, eq_iff i j, get-pop k j d)

-- `None` aside, what `apply_defaults` gives for a name: the setting, or else the first default.
pub get-apply_defaults :
    (j : String) (d defaults : Fields)
    → get j (apply_defaults d defaults)
      ≡ (elim (get j d) [ none ↦ get j defaults | some w ↦ some w ])
unfolding apply_defaults
get-apply_defaults j d end = ground arith
get-apply_defaults j d (field k v defaults) =
    ground
      (arith, eq_iff k j, get-setdefault k j v d, get-apply_defaults j (setdefault k v d) defaults)
