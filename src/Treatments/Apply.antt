-- ===== src/Treatments/Apply.antt =====
-- backend/calculations/default_treatments.py: the four loops that add a modifier to the stages.
use bmd_compute.Prelude.{
  ℕ, ◌+◌, Bool, not, ◌&&◌, List, [], ◌∷◌, Result, ok, err, ◌>>=◌, ◌>>◌, if◌then◌else◌,
}
use bmd_compute.Model.{Theory, StageType, Modifier, StageSpec, add, is_theory, is_stage, Json, put}
use bmd_compute.Policy.Dispersion.{dispersion_option_payload, default_dispersion_method}
use bmd_compute.Registry.Errors.{ValidationError, Check, automatic_treatment_failed}
use bmd_compute.Registry.Support.{is_relax_or_static, validate_stage_support}
use bmd_compute.Admission.{modifier_is_admissible_for_new_theory}

-- Stages after a treatment, and the 1-based numbers of the stages that it names.
abbrev pub Applied : Type 0
Applied = List StageSpec × List ℕ

abbrev pub stage_with_modifier : StageSpec → Modifier → StageSpec
stage_with_modifier stage m = record stage { modifiers = add m stage.modifiers }

abbrev automatic : Modifier → StageSpec → Check → Check
automatic m stage (ok _) = ok tt
automatic m stage (err _) = err (automatic_treatment_failed m stage.stage_type stage.theory)

unfoldable pub validate_automatic_stage : Modifier → StageSpec → Check
validate_automatic_stage m stage = automatic m stage (validate_stage_support stage)

unfoldable pub apply_spin_polarisation : ℕ → List StageSpec → Result ValidationError Applied
apply_spin_polarisation index [] = ok ([], [])
apply_spin_polarisation index (s ∷ stages) = do
  let resolved = stage_with_modifier s Modifier.spin_polarized
  validate_automatic_stage Modifier.spin_polarized resolved
  rest ← apply_spin_polarisation (index + 1) stages
  ok (resolved ∷ rest.0, index ∷ rest.1)

abbrev pub stage_receives_default_dispersion : StageSpec → Bool
stage_receives_default_dispersion s =
    is_theory s.theory Theory.pbe && is_relax_or_static s.stage_type

abbrev pub stage_with_default_dispersion : StageSpec → StageSpec
stage_with_default_dispersion s = record s {
  modifiers = add Modifier.dispersion s.modifiers;
  options = put "dispersion" (dispersion_option_payload default_dispersion_method) s.options;
}

unfoldable pub apply_dispersion : ℕ → List StageSpec → Result ValidationError Applied
apply_dispersion index [] = ok ([], [])
apply_dispersion index (s ∷ stages) =
    let later = apply_dispersion (index + 1) stages in
    if stage_receives_default_dispersion s
    then (do
      let resolved = stage_with_default_dispersion s
      validate_automatic_stage Modifier.dispersion resolved
      rest ← later
      ok (resolved ∷ rest.0, index ∷ rest.1))
    else do rest ← later; ok (s ∷ rest.0, rest.1)

-- The stages, the numbers of those that got SOC, and the numbers of those where it is omitted.
abbrev pub AppliedSoc : Type 0
AppliedSoc = List StageSpec × List ℕ × List ℕ

unfoldable pub apply_soc : ℕ → List StageSpec → Result ValidationError AppliedSoc
apply_soc index [] = ok ([], [], [])
apply_soc index (s ∷ stages) =
    let later = apply_soc (index + 1) stages in
    if is_stage s.stage_type StageType.relax
    then (do rest ← later; ok (s ∷ rest.0, rest.1, rest.2))
    else if not (modifier_is_admissible_for_new_theory s.theory Modifier.soc)
    then (do rest ← later; ok (s ∷ rest.0, rest.1, index ∷ rest.2))
    else do
      let resolved = stage_with_modifier s Modifier.soc
      validate_automatic_stage Modifier.soc resolved
      rest ← later
      ok (resolved ∷ rest.0, index ∷ rest.1, rest.2)

abbrev pub stage_with_default_dft_u : Json → StageSpec → StageSpec
stage_with_default_dft_u parameters s = record s {
  modifiers = add Modifier.dft_u s.modifiers;
  options = put "dft_u" parameters s.options;
}

abbrev pub stage_receives_default_dft_u : StageSpec → Bool
stage_receives_default_dft_u s = is_theory s.theory Theory.pbe && is_relax_or_static s.stage_type

unfoldable pub apply_dft_u : Json → ℕ → List StageSpec → Result ValidationError Applied
apply_dft_u parameters index [] = ok ([], [])
apply_dft_u parameters index (s ∷ stages) =
    let later = apply_dft_u parameters (index + 1) stages in
    if stage_receives_default_dft_u s
    then (do
      let resolved = stage_with_default_dft_u parameters s
      validate_automatic_stage Modifier.dft_u resolved
      rest ← later
      ok (resolved ∷ rest.0, index ∷ rest.1))
    else do rest ← later; ok (s ∷ rest.0, rest.1)
