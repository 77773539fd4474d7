-- ===== src/Treatments/Effect.antt =====
-- What the automatic treatments do to each stage, independently of the loops and their order.
use bmd_compute.Prelude.{
  ℕ, ◌+◌, String, Bool, true, not, ◌&&◌, Option, none, some, List, [], ◌∷◌, ◌++◌, map, ok,
  >>=-eq-ok, >>-eq-ok, ◌≡◌, refl, ap, arith, Bool-cases, Result-cases, inl, inr, str_eq,
  if◌then◌else◌,
}
use bmd_compute.Model.{Theory, StageType, Modifier, StageSpec, is_theory, is_stage, Json}
use bmd_compute.Admission.{modifier_is_admissible_for_new_theory}
use bmd_compute.Treatments.Apply.{
  Applied, AppliedSoc, validate_automatic_stage, stage_with_modifier, stage_with_default_dispersion,
  stage_with_default_dft_u, stage_receives_default_dispersion, stage_receives_default_dft_u,
  apply_spin_polarisation, apply_dispersion, apply_soc, apply_dft_u,
}
use bmd_compute.Treatments.Resolve.{
  DftUEvaluation, Payload, Progress, spin_step, dispersion_step, soc_step, dft_u_step, mentions,
  evaluation_of, if_any, spin_consideration_id, dispersion_consideration_id, soc_consideration_id,
}

abbrev pub with_spin : Bool → StageSpec → StageSpec
with_spin on s = if on then stage_with_modifier s Modifier.spin_polarized else s

abbrev pub with_dispersion : Bool → StageSpec → StageSpec
with_dispersion on s =
    if on && stage_receives_default_dispersion s then stage_with_default_dispersion s else s

-- The stages that may carry SOC: no relaxation, and no HSE06.
abbrev pub takes_soc : StageSpec → Bool
takes_soc s = not (is_stage s.stage_type StageType.relax) && not (is_theory s.theory Theory.hse06)

abbrev pub omits_soc : StageSpec → Bool
omits_soc s = not (is_stage s.stage_type StageType.relax) && is_theory s.theory Theory.hse06

abbrev pub with_soc : Bool → StageSpec → StageSpec
with_soc on s = if on && takes_soc s then stage_with_modifier s Modifier.soc else s

abbrev pub applies : DftUEvaluation → Bool
applies e = str_eq e.decision "apply"

abbrev pub with_parameters : Bool → Json → StageSpec → StageSpec
with_parameters on v s =
    if on && stage_receives_default_dft_u s then stage_with_default_dft_u v s else s

abbrev pub with_dft_u : Option DftUEvaluation → StageSpec → StageSpec
with_dft_u none = λ s. s
with_dft_u (some e) = with_parameters (applies e) e.parameters

-- A stage with every treatment that the payload calls for.
abbrev pub treated : Payload → StageSpec → StageSpec
treated payload s = with_dft_u (evaluation_of payload) (
    with_soc (mentions soc_consideration_id payload.consideration_ids) (
      with_dispersion (mentions dispersion_consideration_id payload.consideration_ids)
        (with_spin (mentions spin_consideration_id payload.consideration_ids) s)))

-- The numbers, from `n` on, of the stages that pass the test.
abbrev pub numbers_where : (StageSpec → Bool) → ℕ → List StageSpec → List ℕ
numbers_where p n [] = []
numbers_where p n (s ∷ stages) =
    if p s then n ∷ numbers_where p (n + 1) stages else numbers_where p (n + 1) stages

map_id : (stages : List StageSpec) → map (λ s. s) stages ≡ stages
map_id [] = refl
map_id (s ∷ stages) = ap (λ l. s ∷ l) (map_id stages)

spin_effect :
    (n : ℕ) (stages : List StageSpec) (a : Applied)
    → apply_spin_polarisation n stages ≡ ok a
    → a ≡ (map (with_spin true) stages, numbers_where (λ _. true) n stages)
unfolding apply_spin_polarisation
spin_effect n [] a h = cc
spin_effect n (s ∷ stages) a h =
    let (v, k) =
      >>-eq-ok
        (validate_automatic_stage Modifier.spin_polarized
          (stage_with_modifier s Modifier.spin_polarized))
        _ h in
    let (rest, hr, e) = >>=-eq-ok (apply_spin_polarisation (n + 1) stages) _ k in
    ground (arith, spin_effect (n + 1) stages rest hr)

dispersion_effect :
    (n : ℕ) (stages : List StageSpec) (a : Applied)
    → apply_dispersion n stages ≡ ok a
    → a ≡ (
      map (with_dispersion true) stages,
      numbers_where stage_receives_default_dispersion n stages,
    )
unfolding apply_dispersion
dispersion_effect n [] a h = cc
dispersion_effect n (s ∷ stages) a h = elim (Result-cases (apply_dispersion (n + 1) stages)) [
  | inl (rest, e) ↦ ground (arith, e, dispersion_effect (n + 1) stages rest e)
  | inr (x, e) ↦ absurd (ground (arith, e))
]

soc_effect :
    (n : ℕ) (stages : List StageSpec) (a : AppliedSoc)
    → apply_soc n stages ≡ ok a
    → a ≡ (
      map (with_soc true) stages,
      numbers_where takes_soc n stages,
      numbers_where omits_soc n stages,
    )
unfolding apply_soc modifier_is_admissible_for_new_theory
soc_effect n [] a h = cc
soc_effect n (s ∷ stages) a h = elim (Result-cases (apply_soc (n + 1) stages)) [
  | inl (rest, e) ↦ ground (arith, e, soc_effect (n + 1) stages rest e)
  | inr (x, e) ↦ absurd (ground (arith, e))
]

dft_u_effect :
    (v : Json) (n : ℕ) (stages : List StageSpec) (a : Applied)
    → apply_dft_u v n stages ≡ ok a
    → a ≡ (map (with_parameters true v) stages, numbers_where stage_receives_default_dft_u n stages)
unfolding apply_dft_u
dft_u_effect v n [] a h = cc
dft_u_effect v n (s ∷ stages) a h = elim (Result-cases (apply_dft_u v (n + 1) stages)) [
  | inl (rest, e) ↦ ground (arith, e, dft_u_effect v (n + 1) stages rest e)
  | inr (x, e) ↦ absurd (ground (arith, e))
]

pub spin_step_effect :
    (ids : List String) (p q : Progress)
    → spin_step ids p ≡ ok q
    → (q.stages ≡ map (with_spin (mentions spin_consideration_id ids)) p.stages)
      × (q.omitted ≡ p.omitted)
unfolding spin_step
spin_step_effect ids p q h = elim (Bool-cases (mentions spin_consideration_id ids)) [
  | inl on ↦ elim (Result-cases (apply_spin_polarisation 1 p.stages)) [
    | inl (a, e) ↦ rw on (ground (arith, on, e, spin_effect 1 p.stages a e))
    | inr (x, e) ↦ absurd (ground (arith, on, e))
  ]
  | inr off ↦ rw off (ground (arith, off, map_id p.stages))
]

pub dispersion_step_effect :
    (ids : List String) (p q : Progress)
    → dispersion_step ids p ≡ ok q
    → (q.stages ≡ map (with_dispersion (mentions dispersion_consideration_id ids)) p.stages)
      × (q.omitted ≡ p.omitted)
unfolding dispersion_step
dispersion_step_effect ids p q h = elim (Bool-cases (mentions dispersion_consideration_id ids)) [
  | inl on ↦ elim (Result-cases (apply_dispersion 1 p.stages)) [
    | inl (a, e) ↦ rw on (ground (arith, on, e, dispersion_effect 1 p.stages a e))
    | inr (x, e) ↦ absurd (ground (arith, on, e))
  ]
  | inr off ↦ rw off (ground (arith, off, map_id p.stages))
]

pub soc_step_effect :
    (ids : List String) (p q : Progress)
    → soc_step ids p ≡ ok q
    → (q.stages ≡ map (with_soc (mentions soc_consideration_id ids)) p.stages)
      × (q.omitted ≡ (
          if mentions soc_consideration_id ids
          then p.omitted
            ++ if_any soc_consideration_id Modifier.soc (numbers_where omits_soc 1 p.stages)
          else p.omitted))
unfolding soc_step
soc_step_effect ids p q h = elim (Bool-cases (mentions soc_consideration_id ids)) [
  | inl on ↦ elim (Result-cases (apply_soc 1 p.stages)) [
    | inl (a, e) ↦ rw on (ground (arith, on, e, soc_effect 1 p.stages a e))
    | inr (x, e) ↦ absurd (ground (arith, on, e))
  ]
  | inr off ↦ rw off (ground (arith, off, map_id p.stages))
]

pub dft_u_step_effect :
    (evaluation : Option DftUEvaluation) (p q : Progress)
    → dft_u_step evaluation p ≡ ok q
    → (q.stages ≡ map (with_dft_u evaluation) p.stages) × (q.omitted ≡ p.omitted)
unfolding dft_u_step
dft_u_step_effect none p q h = ground (arith, map_id p.stages)
dft_u_step_effect (some evaluation) p q h = elim (Bool-cases (applies evaluation)) [
  | inl on ↦ elim (Result-cases (apply_dft_u evaluation.parameters 1 p.stages)) [
    | inl (a, e) ↦ rw on (ground (arith, on, e, dft_u_effect evaluation.parameters 1 p.stages a e))
    | inr (x, e) ↦ absurd (ground (arith, on, e))
  ]
  | inr off ↦ rw off (ground (arith, off, map_id p.stages))
]
