-- ===== src/StageIncar/Kept.antt =====
-- What the user set and neither the modifiers nor the later layers write is left as it is.
use bmd_compute.Prelude.{
  String, Bool, true, false, not, ◌&&◌, Option, none, some, ◌≡◌, refl, str_eq, arith, if◌then◌else◌,
}
use bmd_compute.Model.{
  ModifierSet, Json, null, bool, int, pos, ℤ, Fields, end, field, get, put, get-put,
}
use bmd_compute.Policy.Incar.{has, setdefault, get-setdefault}
use bmd_compute.StageIncar.{
  z_axis, calculation_modifiers_from_options, StaticRequest, modified, static_user_incar_settings,
  hse_dos_incar_settings, hse_band_structure_incar_settings, dft_u_incar_keys, apply_dft_u_settings,
  apply_spin_settings, apply_soc_settings, apply_modifier_incar_settings, apply_soc_magmom_settings,
}
use bmd_compute.StageIncar.Layers.{is_late, static_layers-keeps}
use bmd_compute.StageIncar.Tags.{clear-keeps, hubbard_tags, soc_tags, required}
use bmd_compute.StageIncar.Required.{
  static_layers-some, band_structure_layers-Keeps, dos_layers-Keeps,
}

-- A setting that neither the modifiers nor a later layer write.
abbrev pub is_free : ModifierSet → String → Bool
is_free m j = not (is_late j) && not (has j (required m)) && not (str_eq "MAGMOM" j)

put-keeps :
    (k j : String) (v : Json) (d : Fields) (w : Json)
    → str_eq k j ≡ false
    → get j d ≡ some w
    → get j (put k v d) ≡ some w
put-keeps k j v d w other set = ground (arith, other, set, get-put k j v d)

module _ (j : String) (d : Fields) (w : Json) (set : get j d ≡ some w) where
  apply_spin_settings-keeps :
      (spin soc : Bool)
      → (not soc && str_eq "ISPIN" j) ≡ false
      → get j (apply_spin_settings spin soc d) ≡ some w
  unfolding apply_spin_settings
  apply_spin_settings-keeps spin true other = set
  apply_spin_settings-keeps spin false other =
      put-keeps "ISPIN" j (int (pos (if spin then 2 else 1))) d w other set

  apply_dft_u_settings-keeps :
      (dft_u : Bool)
      → has j (hubbard_tags dft_u) ≡ false
      → get j (apply_dft_u_settings dft_u d) ≡ some w
  unfolding apply_dft_u_settings
  apply_dft_u_settings-keeps true other = set
  apply_dft_u_settings-keeps false other =
      clear-keeps dft_u_incar_keys j d w (ground (arith, other)) set

  apply_soc_settings-keeps : has j (soc_tags end) ≡ false → get j (apply_soc_settings d) ≡ some w
  unfolding apply_soc_settings
  apply_soc_settings-keeps other =
      let d1 = put "LSORBIT" (bool true) d in
      let d2 = put "LNONCOLLINEAR" (bool true) d1 in
      let d3 = put "ISYM" (int (pos 0)) d2 in
      let d4 = setdefault "SAXIS" z_axis d3 in
      let d5 = put "GGA_COMPAT" (bool false) d4 in
      let d6 = put "LELF" null d5 in
      let s1 = put-keeps "LSORBIT" j (bool true) d w (ground (arith, other)) set in
      let s2 = put-keeps "LNONCOLLINEAR" j (bool true) d1 w (ground (arith, other)) s1 in
      let s3 = put-keeps "ISYM" j (int (pos 0)) d2 w (ground (arith, other)) s2 in
      let s4 : get j d4 ≡ some w = ground (arith, s3, get-setdefault "SAXIS" j z_axis d3) in
      let s5 = put-keeps "GGA_COMPAT" j (bool false) d4 w (ground (arith, other)) s4 in
      let s6 = put-keeps "LELF" j null d5 w (ground (arith, other)) s5 in
      put-keeps "ISPIN" j null d6 w (ground (arith, other)) s6

  apply_soc_magmom_settings-keeps :
      (moments : Option (Fields → Json))
      → str_eq "MAGMOM" j ≡ false
      → get j (apply_soc_magmom_settings moments d) ≡ some w
  unfolding apply_soc_magmom_settings
  apply_soc_magmom_settings-keeps none other = set
  apply_soc_magmom_settings-keeps (some moments) other =
      put-keeps "MAGMOM" j (moments d) d w other set

has-field :
    (j k : String) (v : Json) (tags : Fields)
    → has j (field k v tags) ≡ false
    → (str_eq k j ≡ false) × (has j tags ≡ false)
has-field j k v tags missing = ground (arith, missing)

has-soc_tags :
    (j : String) (tags : Fields)
    → has j (soc_tags tags) ≡ false
    → (has j (soc_tags end) ≡ false) × (has j tags ≡ false)
has-soc_tags j tags missing =
    let t1 = field "LSORBIT" (bool true) tags in
    let t2 = field "LNONCOLLINEAR" (bool true) t1 in
    let t3 = field "ISYM" (int (pos 0)) t2 in
    let t4 = field "GGA_COMPAT" (bool false) t3 in
    let t5 = field "LELF" null t4 in
    let (ispin, after_ispin) = has-field j "ISPIN" null t5 missing in
    let (lelf, after_lelf) = has-field j "LELF" null t4 after_ispin in
    let (gga, after_gga) = has-field j "GGA_COMPAT" (bool false) t3 after_lelf in
    let (isym, after_isym) = has-field j "ISYM" (int (pos 0)) t2 after_gga in
    let (collinear, after_collinear) = has-field j "LNONCOLLINEAR" (bool true) t1 after_isym in
    let (orbit, after_orbit) = has-field j "LSORBIT" (bool true) tags after_collinear in
    (ground (arith, ispin, lelf, gga, isym, collinear, orbit), after_orbit)

-- What a setting that the modifiers do not write is not.
record Unwritten (soc dft_u : Bool) (j : String) : Type 0 where
  spin : (not soc && str_eq "ISPIN" j) ≡ false
  hubbard : has j (hubbard_tags dft_u) ≡ false
  soc_names : soc ≡ true → has j (soc_tags end) ≡ false

unwritten :
    (soc dft_u : Bool) (v : Json) (j : String)
    → has j (if soc then soc_tags (hubbard_tags dft_u) else field "ISPIN" v (hubbard_tags dft_u))
      ≡ false
    → Unwritten soc dft_u j
unwritten true dft_u v j missing =
    let (no_soc, no_hubbard) = has-soc_tags j (hubbard_tags dft_u) missing in
    record { spin = refl; hubbard = no_hubbard; soc_names = λ same. no_soc }
unwritten false dft_u v j missing =
    let (no_spin, no_hubbard) = has-field j "ISPIN" v (hubbard_tags dft_u) missing in
    record { spin = no_spin; hubbard = no_hubbard; soc_names = λ same. cc }

none_of :
    (a b c : Bool) → (not a && not b && not c) ≡ true → (a ≡ false) × (b ≡ false) × (c ≡ false)
none_of a b c h = ground (arith, h)

both_steps :
    (soc : Bool) (j : String) (w : Json) (f g : Fields → Fields) (d : Fields)
    → (soc ≡ true → get j (g (f d)) ≡ some w)
    → get j d ≡ some w
    → get j (if soc then g (if soc then f d else d) else (if soc then f d else d)) ≡ some w
both_steps true j w f g d with_soc set = with_soc refl
both_steps false j w f g d with_soc set = set

-- The modifiers leave it as it is.
modified-keeps :
    (m : ModifierSet) (j : String)
    → is_free m j ≡ true
    → (moments : Option (Fields → Json)) (d : Fields) (w : Json) → get j d ≡ some w
    → get j (modified m moments d) ≡ some w
unfolding modified apply_modifier_incar_settings
modified-keeps m j free moments d w set =
    let (early, missing, no_moment) =
      none_of (is_late j) (has j (required m)) (str_eq "MAGMOM" j) free in
    let u =
      unwritten m.has_soc m.has_dft_u (int (pos (if m.has_spin_polarized then 2 else 1))) j
        missing in
    let spin = apply_spin_settings m.has_spin_polarized m.has_soc d in
    let hubbard = apply_dft_u_settings m.has_dft_u spin in
    let kept_spin = apply_spin_settings-keeps j d w set m.has_spin_polarized m.has_soc u.spin in
    let kept = apply_dft_u_settings-keeps j spin w kept_spin m.has_dft_u u.hubbard in
    both_steps m.has_soc j w apply_soc_settings (apply_soc_magmom_settings moments) hubbard
      (λ soc.
        apply_soc_magmom_settings-keeps j (apply_soc_settings hubbard) w
          (apply_soc_settings-keeps j hubbard w kept (u.soc_names soc)) moments no_moment)
      kept

module _ (int_of_float : Json → Option ℤ) where
  -- A setting of the user is in the INCAR settings of the static, the HSE06 band structure and the
  -- HSE06 DOS stage as the user gave it, where it is no tag that the modifiers require, not MAGMOM
  -- and none of ENCUT, NCORE, KPAR, NPAR, LWAVE, LCHARG and ICHARG.
  pub incar_settings-keep :
      (request : StaticRequest) (j : String) (w : Json)
      → is_free (calculation_modifiers_from_options request.modifiers request.spin_polarized) j
        ≡ true
      → get j request.incar ≡ some w
      → (r : Fields) × (static_user_incar_settings int_of_float request ≡ some r)
        × (get j r ≡ some w)
        × (get j (
              hse_band_structure_incar_settings int_of_float
                (calculation_modifiers_from_options request.modifiers request.spin_polarized)
                request.moments
                request.incar)
            ≡ some w)
        × (get j (
              hse_dos_incar_settings int_of_float
                (calculation_modifiers_from_options request.modifiers request.spin_polarized)
                request.moments
                request.incar)
            ≡ some w)
  unfolding static_user_incar_settings hse_band_structure_incar_settings hse_dos_incar_settings
  incar_settings-keep request j w free set =
      let m = calculation_modifiers_from_options request.modifiers request.spin_polarized in
      let d = modified m request.moments request.incar in
      let (early, missing, no_moment) =
        none_of (is_late j) (has j (required m)) (str_eq "MAGMOM" j) free in
      let kept = modified-keeps m j free request.moments request.incar w set in
      let (r, computed) = static_layers-some int_of_float request d in
      (
        r,
        computed,
        static_layers-keeps int_of_float request d r j w computed early kept,
        band_structure_layers-Keeps int_of_float j d w early kept,
        dos_layers-Keeps int_of_float j d w early kept,
      )
