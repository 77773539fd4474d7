-- ===== src/StageIncar/Tags.antt =====
-- What the modifiers require of the INCAR settings stands in every stage's settings, whatever the
-- user set and whatever the later layers add.
use bmd_compute.Prelude.{
  String, Bool, true, false, Option, none, some, List, [], ◌∷◌, ◌≡◌, refl, str_eq, eq_iff, arith,
  if◌then◌else◌, any, Bool-cases, inl, inr, subst, sym,
}
use bmd_compute.Model.{
  ModifierSet, Json, null, bool, int, pos, Fields, end, field, get, put, get-put,
}
use bmd_compute.Policy.Incar.{has, setdefault, get-setdefault}
use bmd_compute.StageIncar.{
  z_axis, apply_spin_settings, dft_u_incar_keys, clear, apply_dft_u_settings, apply_soc_settings,
  apply_modifier_incar_settings, apply_soc_magmom_settings, modified,
}

-- The settings have each of the tags, with its value.
abbrev pub Meets : Fields → Fields → Type 0
Meets end d = Unit
Meets (field k v tags) d = (get k d ≡ some v) × Meets tags d

abbrev nulls : List String → Fields → Fields
nulls [] tags = tags
nulls (k ∷ names) tags = field k null (nulls names tags)

abbrev pub soc_tags : Fields → Fields
soc_tags tags = field "ISPIN" null (
    field "LELF" null (
      field "GGA_COMPAT" (bool false) (
        field "ISYM" (int (pos 0))
          (field "LNONCOLLINEAR" (bool true) (field "LSORBIT" (bool true) tags)))))

-- Without DFT+U, no tag of it is left to the input set. With SOC the calculation is non-collinear and
-- ISPIN is not written; otherwise ISPIN says whether it is spin-polarised.
abbrev pub required : ModifierSet → Fields
required m =
    let hubbard = if m.has_dft_u then end else nulls dft_u_incar_keys end in
    if m.has_soc
    then soc_tags hubbard
    else field "ISPIN" (int (pos (if m.has_spin_polarized then 2 else 1))) hubbard

pub put-Meets :
    (tags : Fields) (k : String) (v : Json) (d : Fields)
    → has k tags ≡ false
    → Meets tags d
    → Meets tags (put k v d)
put-Meets end k v d missing met = tt
put-Meets (field j w tags) k v d missing (at, met) = (
  ground (arith, missing, at, get-put k j v d, eq_iff k j, eq_iff j k),
  put-Meets tags k v d (ground (arith, missing)) met,
)

setdefault-Meets :
    (tags : Fields) (k : String) (v : Json) (d : Fields)
    → Meets tags d
    → Meets tags (setdefault k v d)
setdefault-Meets end k v d met = tt
setdefault-Meets (field j w tags) k v d (at, met) =
    (ground (arith, at, get-setdefault k j v d), setdefault-Meets tags k v d met)

-- A tag that was just set.
set-Meets :
    (tags : Fields) (k : String) (v : Json) (d : Fields)
    → has k tags ≡ false
    → Meets tags d
    → Meets (field k v tags) (put k v d)
set-Meets tags k v d missing met =
    (ground (arith, get-put k k v d, eq_iff k k), put-Meets tags k v d missing met)

pub clear-keeps :
    (names : List String) (j : String) (d : Fields) (w : Json)
    → any (λ k. str_eq k j) names ≡ false
    → get j d ≡ some w
    → get j (clear names d) ≡ some w
unfolding clear
clear-keeps [] j d w other set = set
clear-keeps (k ∷ names) j d w other set =
    clear-keeps names j (put k null d) w (ground (arith, other))
      (ground (arith, other, set, get-put k j null d))

clear-keeps_null :
    (names : List String) (j : String) (d : Fields)
    → get j d ≡ some null
    → get j (clear names d) ≡ some null
unfolding clear
clear-keeps_null [] j d set = set
clear-keeps_null (k ∷ names) j d set =
    clear-keeps_null names j (put k null d) (ground (arith, set, get-put k j null d))

clear-Meets : (names : List String) (d : Fields) → Meets (nulls names end) (clear names d)
unfolding clear
clear-Meets [] d = tt
clear-Meets (k ∷ names) d = (
  clear-keeps_null names k (put k null d) (ground (arith, get-put k k null d, eq_iff k k)),
  clear-Meets names (put k null d),
)

abbrev pub hubbard_tags : Bool → Fields
hubbard_tags dft_u = if dft_u then end else nulls dft_u_incar_keys end

apply_dft_u_settings-Meets :
    (dft_u : Bool) (d : Fields) → Meets (hubbard_tags dft_u) (apply_dft_u_settings dft_u d)
unfolding apply_dft_u_settings
apply_dft_u_settings-Meets true d = tt
apply_dft_u_settings-Meets false d = clear-Meets dft_u_incar_keys d

apply_dft_u_settings-ispin :
    (dft_u : Bool) (d : Fields) (w : Json)
    → get "ISPIN" d ≡ some w
    → get "ISPIN" (apply_dft_u_settings dft_u d) ≡ some w
unfolding apply_dft_u_settings
apply_dft_u_settings-ispin true d w set = set
apply_dft_u_settings-ispin false d w set = clear-keeps dft_u_incar_keys "ISPIN" d w refl set

-- The tags of DFT+U have none of the names that SOC sets.
soc_settings-Meets :
    (tags d : Fields)
    → has "LSORBIT" tags ≡ false
    → has "LNONCOLLINEAR" tags ≡ false
    → has "ISYM" tags ≡ false
    → has "GGA_COMPAT" tags ≡ false
    → has "LELF" tags ≡ false
    → has "ISPIN" tags ≡ false
    → Meets tags d
    → Meets (soc_tags tags) (apply_soc_settings d)
unfolding apply_soc_settings
soc_settings-Meets tags d a b c e f g met =
    let t1 = field "LSORBIT" (bool true) tags in
    let t2 = field "LNONCOLLINEAR" (bool true) t1 in
    let t3 = field "ISYM" (int (pos 0)) t2 in
    let t4 = field "GGA_COMPAT" (bool false) t3 in
    let t5 = field "LELF" null t4 in
    let d1 = put "LSORBIT" (bool true) d in
    let d2 = put "LNONCOLLINEAR" (bool true) d1 in
    let d3 = put "ISYM" (int (pos 0)) d2 in
    let d4 = setdefault "SAXIS" z_axis d3 in
    let d5 = put "GGA_COMPAT" (bool false) d4 in
    let d6 = put "LELF" null d5 in
    let m1 = set-Meets tags "LSORBIT" (bool true) d a met in
    let m2 = set-Meets t1 "LNONCOLLINEAR" (bool true) d1 b m1 in
    let m3 = set-Meets t2 "ISYM" (int (pos 0)) d2 c m2 in
    let m4 = setdefault-Meets t3 "SAXIS" z_axis d3 m3 in
    let m5 = set-Meets t3 "GGA_COMPAT" (bool false) d4 e m4 in
    let m6 = set-Meets t4 "LELF" null d5 f m5 in set-Meets t5 "ISPIN" null d6 g m6

soc-Meets :
    (dft_u : Bool) (d : Fields)
    → Meets (soc_tags (hubbard_tags dft_u)) (apply_soc_settings (apply_dft_u_settings dft_u d))
soc-Meets true d =
    soc_settings-Meets end (apply_dft_u_settings true d) refl refl refl refl refl refl
      (apply_dft_u_settings-Meets true d)
soc-Meets false d =
    soc_settings-Meets (hubbard_tags false) (apply_dft_u_settings false d) refl refl refl refl refl
      refl (apply_dft_u_settings-Meets false d)

spin-Meets :
    (dft_u : Bool) (v : Json) (d : Fields)
    → Meets (field "ISPIN" v (hubbard_tags dft_u)) (apply_dft_u_settings dft_u (put "ISPIN" v d))
spin-Meets dft_u v d = (
  apply_dft_u_settings-ispin dft_u (put "ISPIN" v d) v (get-put "ISPIN" "ISPIN" v d),
  apply_dft_u_settings-Meets dft_u (put "ISPIN" v d),
)

apply_modifier_incar_settings-Meets :
    (m : ModifierSet) (d : Fields) → Meets (required m) (apply_modifier_incar_settings m d)
unfolding apply_modifier_incar_settings apply_spin_settings
apply_modifier_incar_settings-Meets m d = elim (Bool-cases m.has_soc) [
  | inl soc ↦ rw soc (soc-Meets m.has_dft_u d)
  | inr collinear ↦
      rw collinear (spin-Meets m.has_dft_u (int (pos (if m.has_spin_polarized then 2 else 1))) d)
]

soc_magmom-Meets :
    (tags : Fields) (moments : Option (Fields → Json)) (d : Fields)
    → has "MAGMOM" tags ≡ false
    → Meets tags d
    → Meets tags (apply_soc_magmom_settings moments d)
unfolding apply_soc_magmom_settings
soc_magmom-Meets tags none d missing met = met
soc_magmom-Meets tags (some moments) d missing met =
    put-Meets tags "MAGMOM" (moments d) d missing met

required-magmom : (m : ModifierSet) → has "MAGMOM" (required m) ≡ false
required-magmom m = ground arith

pub modified-Meets :
    (m : ModifierSet) (moments : Option (Fields → Json)) (d : Fields)
    → Meets (required m) (modified m moments d)
unfolding modified
modified-Meets m moments d = elim (Bool-cases m.has_soc) [
  | inl soc ↦
      subst
        (λ b. Meets (required m) (
          if b
          then apply_soc_magmom_settings moments (apply_modifier_incar_settings m d)
          else apply_modifier_incar_settings m d))
        (sym soc)
        (soc_magmom-Meets (required m) moments (apply_modifier_incar_settings m d)
          (required-magmom m) (apply_modifier_incar_settings-Meets m d))
  | inr collinear ↦
      subst
        (λ b. Meets (required m) (
          if b
          then apply_soc_magmom_settings moments (apply_modifier_incar_settings m d)
          else apply_modifier_incar_settings m d))
        (sym collinear) (apply_modifier_incar_settings-Meets m d)
]
