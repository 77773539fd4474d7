-- ===== src/StageIncar/Layers.antt =====
-- Which settings the layers after the modifiers keep.
use bmd_compute.Prelude.{
  ℕ, String, Bool, true, false, ◌||◌, Option, none, some, ◌≡◌, refl, str_eq, eq_iff, arith,
  if◌then◌else◌, subst,
}
use bmd_compute.Model.{StageType, Theory, Json, bool, int, pos, ℤ, Fields, end, get, put, get-put}
use bmd_compute.Policy.Incar.{pop, apply_defaults, get-pop, get-apply_defaults}
use bmd_compute.Policy.Theory.{
  theory_uses_hybrid_functional, CalculationStage, theory_incar_settings,
  apply_theory_incar_settings,
}
use bmd_compute.Policy.BaseIncar.{
  raised_to, encut_now, apply_encut_floor, apply_stage_base_incar_settings,
  apply_hse_dos_base_incar_settings, apply_hse_band_structure_base_incar_settings,
}
use bmd_compute.Policy.BaseIncar.Preserved.{apply_stage_base_incar_settings-keeps}
use bmd_compute.Policy.IncarDefaults.{
  encut_static_final_default, hse_dos_stage_defaults, hse_band_structure_stage_defaults,
}
use bmd_compute.StageIncar.{
  StaticRequest, default_ncore, stage_allows_automatic_ncore, apply_stage_resource_incar_settings,
  apply_resource_incar_settings, written_for_gw, static_layers, is_hse_incar,
}

-- The settings that a later layer may write or remove, whatever the user set.
abbrev pub is_late : String → Bool
is_late j =
    str_eq "ENCUT" j
    || str_eq "NCORE" j
    || str_eq "KPAR" j
    || str_eq "NPAR" j
    || str_eq "LWAVE" j
    || str_eq "LCHARG" j
    || str_eq "ICHARG" j

-- What an optional value was computed from.
pub some-computed {ℓ} :
    {A : Type ℓ} (o : Option A) (f : A → A) {r : A}
    → elim o as (λ x. Option A) [ none ↦ none | some a ↦ some (f a) ] ≡ some r
    → (a : A) × (o ≡ some a) × (f a ≡ r)
some-computed none f computed = cc
some-computed (some a) f computed = (a, refl, cc)

-- A layer leaves every other setting as it is.
abbrev pub Keeps : (Fields → Fields) → Type 0
Keeps layer =
    (j : String) (d : Fields) (w : Json)
    → is_late j ≡ false
    → get j d ≡ some w
    → get j (layer d) ≡ some w

pub then-Keeps : (f g : Fields → Fields) → Keeps f → Keeps g → Keeps (λ d. g (f d))
then-Keeps f g f_keeps g_keeps j d w kept set = g_keeps j (f d) w kept (f_keeps j d w kept set)

when-Keeps :
    (test : Bool) (f g : Fields → Fields)
    → Keeps f
    → Keeps g
    → Keeps (λ d. if test then f d else g d)
when-Keeps true f g f_keeps g_keeps = f_keeps
when-Keeps false f g f_keeps g_keeps = g_keeps

same-Keeps : Keeps (λ d. d)
same-Keeps j d w kept set = set

pop-Keeps : (k : String) → is_late k ≡ true → Keeps (pop k)
pop-Keeps k late j d w kept set = ground (arith, late, kept, set, get-pop k j d, eq_iff k j)

pub put-Keeps : (k : String) (v : Json) → is_late k ≡ true → Keeps (put k v)
put-Keeps k v late j d w kept set = ground (arith, late, kept, set, get-put k j v d, eq_iff k j)

apply_defaults-Keeps : (defaults : Fields) → Keeps (λ d. apply_defaults d defaults)
apply_defaults-Keeps defaults j d w kept set = ground (arith, set, get-apply_defaults j d defaults)

pub apply_theory_incar_settings-Keeps :
    (theory : Theory) (stage : CalculationStage)
    → Keeps (λ d. apply_theory_incar_settings d theory stage)
unfolding apply_theory_incar_settings
apply_theory_incar_settings-Keeps Theory.hse06 stage =
    then-Keeps (λ d. apply_defaults d (theory_incar_settings Theory.hse06 stage))
      (λ d. pop "NPAR" (pop "KPAR" d))
      (apply_defaults-Keeps (theory_incar_settings Theory.hse06 stage))
      (then-Keeps (pop "KPAR") (pop "NPAR") (pop-Keeps "KPAR" refl) (pop-Keeps "NPAR" refl))
apply_theory_incar_settings-Keeps theory stage =
    apply_defaults-Keeps (theory_incar_settings theory stage)

pub apply_stage_resource_incar_settings-Keeps :
    (t : StageType) → Keeps (apply_stage_resource_incar_settings t)
unfolding apply_stage_resource_incar_settings
apply_stage_resource_incar_settings-Keeps t =
    when-Keeps (stage_allows_automatic_ncore t) (put "NCORE" (int (pos default_ncore))) (λ d. d)
      (put-Keeps "NCORE" (int (pos default_ncore)) refl) same-Keeps

written_for_gw-Keeps : (prep : Bool) → Keeps (written_for_gw prep)
written_for_gw-Keeps prep =
    when-Keeps prep (λ d. put "LCHARG" (bool true) (put "LWAVE" (bool true) d)) (λ d. d)
      (then-Keeps (put "LWAVE" (bool true)) (put "LCHARG" (bool true))
        (put-Keeps "LWAVE" (bool true) refl) (put-Keeps "LCHARG" (bool true) refl))
      same-Keeps

apply_resource_incar_settings-Keeps : Keeps (apply_resource_incar_settings false)
unfolding apply_resource_incar_settings
apply_resource_incar_settings-Keeps = pop-Keeps "NCORE" refl

module _ (int_of_float : Json → Option ℤ) where
  apply_encut_floor-Keeps : (floor : Option ℕ) → Keeps (λ d. apply_encut_floor int_of_float d floor)
  unfolding apply_encut_floor
  apply_encut_floor-Keeps none j d w kept set = set
  apply_encut_floor-Keeps (some floor) j d w kept set =
      put-Keeps "ENCUT" (int (pos (raised_to floor (encut_now int_of_float d)))) refl j d w kept set

  pub apply_hse_dos_base_incar_settings-Keeps :
      Keeps (apply_hse_dos_base_incar_settings int_of_float)
  unfolding apply_hse_dos_base_incar_settings
  apply_hse_dos_base_incar_settings-Keeps =
      then-Keeps (λ d. apply_defaults d hse_dos_stage_defaults)
        (λ d. apply_encut_floor int_of_float d (some encut_static_final_default))
        (apply_defaults-Keeps hse_dos_stage_defaults)
        (apply_encut_floor-Keeps (some encut_static_final_default))

  pub apply_hse_band_structure_base_incar_settings-Keeps :
      Keeps (apply_hse_band_structure_base_incar_settings int_of_float)
  unfolding apply_hse_band_structure_base_incar_settings
  apply_hse_band_structure_base_incar_settings-Keeps =
      then-Keeps (λ d. apply_defaults d (hse_band_structure_stage_defaults end))
        (λ d. apply_encut_floor int_of_float d (some encut_static_final_default))
        (apply_defaults-Keeps (hse_band_structure_stage_defaults end))
        (apply_encut_floor-Keeps (some encut_static_final_default))

  abbrev parallel : StaticRequest → Fields → Fields
  parallel request user =
      let theory = if request.hse then Theory.hse06 else request.theory in
      let themed = apply_theory_incar_settings user theory CalculationStage.static in
      if theory_uses_hybrid_functional theory || is_hse_incar themed
      then pop "NPAR" (pop "KPAR" themed)
      else themed

  parallel-Keeps : (request : StaticRequest) → Keeps (parallel request)
  parallel-Keeps request j d w kept set =
      let theory = if request.hse then Theory.hse06 else request.theory in
      let themed = apply_theory_incar_settings d theory CalculationStage.static in
      when-Keeps (theory_uses_hybrid_functional theory || is_hse_incar themed)
        (λ x. pop "NPAR" (pop "KPAR" x)) (λ x. x)
        (then-Keeps (pop "KPAR") (pop "NPAR") (pop-Keeps "KPAR" refl) (pop-Keeps "NPAR" refl))
        same-Keeps j themed w kept
        (apply_theory_incar_settings-Keeps theory CalculationStage.static j d w kept set)

  abbrev finished : StaticRequest → Fields → Fields
  finished request based =
      let written = written_for_gw request.prep_for_gw based in
      if request.prep_for_gw
      then apply_resource_incar_settings false written
      else apply_stage_resource_incar_settings request.resource_stage_type written

  finished-Keeps : (request : StaticRequest) → Keeps (finished request)
  finished-Keeps request =
      then-Keeps (written_for_gw request.prep_for_gw)
        (λ d.
          if request.prep_for_gw
          then apply_resource_incar_settings false d
          else apply_stage_resource_incar_settings request.resource_stage_type d)
        (written_for_gw-Keeps request.prep_for_gw)
        (when-Keeps request.prep_for_gw (apply_resource_incar_settings false)
          (apply_stage_resource_incar_settings request.resource_stage_type)
          apply_resource_incar_settings-Keeps
          (apply_stage_resource_incar_settings-Keeps request.resource_stage_type))

  -- The layers of a static stage after its modifiers.
  pub static_layers-keeps :
      (request : StaticRequest) (user r : Fields) (j : String) (w : Json)
      → static_layers int_of_float request user ≡ some r
      → is_late j ≡ false
      → get j user ≡ some w
      → get j r ≡ some w
  unfolding static_layers
  static_layers-keeps request user r j w computed kept set =
      let (based, has_based, same) =
        some-computed
          (apply_stage_base_incar_settings int_of_float StageType.static (parallel request user)
            request.intent end)
          (finished request) computed in
      subst (λ d. get j d ≡ some w) same
        (finished-Keeps request j based w kept (
          apply_stage_base_incar_settings-keeps int_of_float StageType.static
            (parallel request user) request.intent end j w based has_based (ground (arith, kept))
            (parallel-Keeps request j user w kept set)))
