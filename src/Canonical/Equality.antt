-- ===== src/Canonical/Equality.antt =====
-- `==` on JSON data in canonical form.
use bmd_compute.Prelude.{Bool, true, false, ◌&&◌, ◌==◌, str_eq, eq_refl, ◌≡◌, refl, arith}
use bmd_compute.Model.{
  Json, null, bool, int, float, str, arr, obj, ℤ, pos, negsuc, Items, nil, cons, Fields, end, field,
}

abbrev bool_eq : Bool → Bool → Bool
bool_eq true true = true
bool_eq false false = true
bool_eq _ _ = false

abbrev int_eq : ℤ → ℤ → Bool
int_eq (pos m) (pos n) = m == n
int_eq (negsuc m) (negsuc n) = m == n
int_eq _ _ = false

unfoldable mutual
  pub json_eq : Json → Json → Bool
  json_eq null null = true
  json_eq (bool a) (bool b) = bool_eq a b
  json_eq (int m) (int n) = int_eq m n
  json_eq (float s) (float t) = str_eq s t
  json_eq (str s) (str t) = str_eq s t
  json_eq (arr xs) (arr ys) = items_eq xs ys
  json_eq (obj d) (obj e) = fields_eq d e
  json_eq _ _ = false

  pub items_eq : Items → Items → Bool
  items_eq nil nil = true
  items_eq (cons v xs) (cons w ys) = json_eq v w && items_eq xs ys
  items_eq _ _ = false

  pub fields_eq : Fields → Fields → Bool
  fields_eq end end = true
  fields_eq (field k v d) (field j w e) = str_eq k j && json_eq v w && fields_eq d e
  fields_eq _ _ = false

mutual
  unfolding json_eq

  same_json : (v : Json) → json_eq v v ≡ true
  same_json null = refl
  same_json (bool b) = ground arith
  same_json (int (pos n)) = ground arith
  same_json (int (negsuc n)) = ground arith
  same_json (float s) = eq_refl s
  same_json (str s) = eq_refl s
  same_json (arr xs) = same_items xs
  same_json (obj d) = same_fields d

  same_items : (xs : Items) → items_eq xs xs ≡ true
  same_items nil = refl
  same_items (cons v xs) = ground (arith, same_json v, same_items xs)

  same_fields : (d : Fields) → fields_eq d d ≡ true
  same_fields end = refl
  same_fields (field k v d) = ground (arith, eq_refl k, same_json v, same_fields d)

pub json_eq_refl : (v : Json) → json_eq v v ≡ true
json_eq_refl v = same_json v
