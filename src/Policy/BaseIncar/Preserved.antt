-- ===== src/Policy/BaseIncar/Preserved.antt =====
-- Which settings of the user the base INCAR settings keep.
use bmd_compute.Prelude.{
  ℕ, String, Bool, true, false, not, ◌&&◌, Option, none, some, ◌≡◌, refl, ◌∙◌, str_eq, eq_iff,
  arith, if◌then◌else◌,
}
use bmd_compute.Model.{StageType, Json, int, ℤ, pos, Fields, end, field, get, put, get-put}
use bmd_compute.Policy.Incar.{
  has, apply_defaults, apply_explicit_user_preserved_defaults, get-setdefault, get-apply_defaults,
}
use bmd_compute.Policy.IncarDefaults.{
  relax_executable_defaults, relax_explicit_user_preserved_defaults,
}
use bmd_compute.Policy.StageDefinitions.{StageIncarPolicy, static_policy}
use bmd_compute.Policy.BaseIncar.{
  apply_conditional_tetrahedron_sigma, raised_to, encut_now, apply_encut_floor, is_prep,
  static_base_settings, apply_stage_base_incar_settings,
}

-- The last value that a list of defaults has for a name.
abbrev pub last_of : String → Fields → Option Json
last_of j end = none
last_of j (field k v d) = elim (last_of j d) [
  | none ↦ if str_eq k j then some v else none
  | some w ↦ some w
]

pub get-apply_explicit_user_preserved_defaults :
    (j : String) (d defaults explicit : Fields)
    → get j (apply_explicit_user_preserved_defaults d defaults explicit) ≡ (
        if has j explicit
        then get j d
        else elim (last_of j defaults) [ none ↦ get j d | some v ↦ some v ])
unfolding apply_explicit_user_preserved_defaults
get-apply_explicit_user_preserved_defaults j d end explicit = ground arith
get-apply_explicit_user_preserved_defaults j d (field k v defaults) explicit = ground (
  arith,
  eq_iff k j,
  get-put k j v d,
  get-apply_explicit_user_preserved_defaults j (if has k explicit then d else put k v d) defaults
      explicit,
)

last_of-missing : (j : String) (d : Fields) → has j d ≡ false → last_of j d ≡ none
last_of-missing j end missing = refl
last_of-missing j (field k v d) missing = ground (arith, missing, last_of-missing j d)

apply_explicit_user_preserved_defaults-keeps :
    (j : String) (d defaults explicit : Fields)
    → (has j defaults && not (has j explicit)) ≡ false
    → get j (apply_explicit_user_preserved_defaults d defaults explicit) ≡ get j d
apply_explicit_user_preserved_defaults-keeps j d defaults explicit keeps = ground (
  arith,
  keeps,
  get-apply_explicit_user_preserved_defaults j d defaults explicit,
  last_of-missing j defaults,
)

apply_defaults-keeps :
    (j : String) (d defaults : Fields) {w : Json}
    → get j d ≡ some w
    → get j (apply_defaults d defaults) ≡ some w
apply_defaults-keeps j d defaults set = ground (arith, set, get-apply_defaults j d defaults)

apply_conditional_tetrahedron_sigma-keeps :
    (j : String) (d : Fields) {w : Json}
    → get j d ≡ some w
    → get j (apply_conditional_tetrahedron_sigma d) ≡ some w
unfolding apply_conditional_tetrahedron_sigma
apply_conditional_tetrahedron_sigma-keeps j d set =
    ground (arith, set, get-setdefault "SIGMA" j Json.null d)

-- The settings that a stage's policy may change although the user set them.
abbrev pub may_change : StageType → Fields → String → Bool
may_change StageType.relax explicit j =
    has j relax_explicit_user_preserved_defaults && not (has j explicit)
may_change StageType.static explicit j = str_eq "ENCUT" j
may_change _ explicit j = false

module _ (int_of_float : Json → Option ℤ) where
  apply_encut_floor-keeps :
      (j : String) (d : Fields) (floor : Option ℕ) {w : Json}
      → str_eq "ENCUT" j ≡ false
      → get j d ≡ some w
      → get j (apply_encut_floor int_of_float d floor) ≡ some w
  unfolding apply_encut_floor
  apply_encut_floor-keeps j d none other set = set
  apply_encut_floor-keeps j d (some floor) other set = ground (
    arith,
    set,
    other,
    get-put "ENCUT" j (int (pos (raised_to floor (encut_now int_of_float d)))) d,
  )

  static_base_settings-keeps :
      (policy : StageIncarPolicy) (d : Fields) (prep : Bool) (j : String) {w : Json}
      → str_eq "ENCUT" j ≡ false
      → get j d ≡ some w
      → get j (static_base_settings int_of_float policy d prep) ≡ some w
  unfolding static_base_settings
  static_base_settings-keeps policy d true j other set =
      let defaulted = apply_defaults d policy.prep_defaults in
      let kept = apply_defaults-keeps j d policy.prep_defaults set in
      apply_encut_floor-keeps j
        (if policy.prep_conditional_sigma_for_tetrahedron
          then apply_conditional_tetrahedron_sigma defaulted
          else defaulted)
        policy.prep_encut_floor other
        (ground (arith, kept, apply_conditional_tetrahedron_sigma-keeps j defaulted kept))
  static_base_settings-keeps policy d false j other set =
      apply_encut_floor-keeps j (apply_defaults d policy.final_defaults) policy.final_encut_floor
        other (apply_defaults-keeps j d policy.final_defaults set)

  -- What the function returns for a stage type with a definition.
  base_settings_of : StageType → Fields → String → Fields → Fields
  unfolding apply_stage_base_incar_settings
  base_settings_of t user intent explicit =
      elim (apply_stage_base_incar_settings int_of_float t user intent explicit) [
        | none ↦ user
        | some r ↦ r
      ]

  base_settings_of-keeps :
      (t : StageType) (user : Fields) (intent : String) (explicit : Fields) (j : String) {w : Json}
      → may_change t explicit j ≡ false
      → get j user ≡ some w
      → get j (base_settings_of t user intent explicit) ≡ some w
  unfolding base_settings_of
  base_settings_of-keeps StageType.relax user intent explicit j keeps set =
      apply_explicit_user_preserved_defaults-keeps j (apply_defaults user relax_executable_defaults)
        relax_explicit_user_preserved_defaults explicit keeps
      ∙ apply_defaults-keeps j user relax_executable_defaults set
  base_settings_of-keeps StageType.static user intent explicit j other set =
      static_base_settings-keeps static_policy user (is_prep intent) j other set
  base_settings_of-keeps _ user intent explicit j keeps set = set

  -- Where the base INCAR settings of a stage are computed, they keep every setting of the user,
  -- except ENCUT of a static stage and, of a relaxation, the written files that the policy fixes
  -- and the explicit settings do not name.
  pub apply_stage_base_incar_settings-keeps :
      (t : StageType) (user : Fields) (intent : String) (explicit : Fields) (j : String) (w : Json)
      (r : Fields)
      → apply_stage_base_incar_settings int_of_float t user intent explicit ≡ some r
      → may_change t explicit j ≡ false
      → get j user ≡ some w
      → get j r ≡ some w
  unfolding base_settings_of
  apply_stage_base_incar_settings-keeps t user intent explicit j w r computed keeps set =
      ground (arith, computed, base_settings_of-keeps t user intent explicit j keeps set)
