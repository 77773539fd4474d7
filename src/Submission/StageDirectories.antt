-- ===== src/Submission/StageDirectories.antt =====
-- The directories that a submission records name the stages of its workflow, as
-- backend/run_records.py asks.
use bmd_compute.Prelude.{
  ℕ, zero, suc, ◌+◌, ◌≤◌, ◌<◌, true, false, ◌&&◌, some, List, [], ◌∷◌, ok, ◌≡◌, ◌⊎◌, refl, sym, ap,
  ◌∙◌, arith, subst, >>=-eq-ok, ok-injective, Bool-cases, leb, ◌==◌, ==_iff, all, length, inl, inr,
}
use bmd_compute.Prelude.Text.{codes, codes_eq}
use bmd_compute.Prelude.Decimal.{
  is_digit, padded, number, number-padded, padded-digits, padded-length,
}
use bmd_compute.Model.{StageSpec, WorkflowSpec}
use bmd_compute.Registry.Errors.{ValidationError}
use bmd_compute.Registry.Workflow.{validate_workflow_spec}
use bmd_compute.Registry.StageDirectories.{
  is_pbe_relaxation, stage_directory, numbered, directories_for, workflow_stage_directories,
}
use bmd_compute.RunRecords.{
  without_final_newline, stage_index_from_directory_id, Mapped, names_index, place, map_directories,
  names_up_to, within, validate_stage_directories,
}
use bmd_compute.RunRecords.Directories.{Names, validate_stage_directories-Names}
use bmd_compute.Registry.Workflow.WellFormed.{validate_workflow_spec_iff}
use bmd_compute.Submission.{join_path, stage_dirs}

digits-kept : (text : List ℕ) → all is_digit text ≡ true → without_final_newline text ≡ text
digits-kept [] digits = refl
digits-kept (c ∷ []) digits = ground (arith, digits)
digits-kept (c ∷ d ∷ text) digits = ground (arith, digits, digits-kept (d ∷ text))

-- The directory of a stage names it.
pub stage_index-stage_directory :
    (index : ℕ) → 1 ≤ index → stage_index_from_directory_id (stage_directory index) ≡ some index
unfolding stage_index_from_directory_id stage_directory codes_eq
stage_index-stage_directory index lower = ground (
  arith,
  digits-kept (padded 2 index),
  padded-digits 2 index,
  padded-length 2 index,
  number-padded 2 index,
)

-- What the loop over the directories of the stages `index`, ... makes of `mapped`.
abbrev mapping : List ℕ → ℕ → List StageSpec → Mapped → Mapped
mapping run_dir index [] mapped = mapped
mapping run_dir index (s ∷ stages) mapped =
    mapping run_dir (index + 1) stages ((index, join_path run_dir (stage_directory index)) ∷ mapped)

abbrev Below : ℕ → Mapped → Type 0
Below index mapped = (i : ℕ) → names_index i mapped ≡ true → i < index

Below-fresh : (index : ℕ) (mapped : Mapped) → Below index mapped → names_index index mapped ≡ false
Below-fresh index mapped below = elim (Bool-cases (names_index index mapped)) [
  | inl named ↦ absurd (omega (arith, below index named))
  | inr fresh ↦ fresh
]

Below-next :
    (index : ℕ) (path : List ℕ) (mapped : Mapped)
    → Below index mapped
    → Below (index + 1) ((index, path) ∷ mapped)
Below-next index path mapped below i named = ground (arith, named, below i, ==_iff index i)

place-next :
    (n index : ℕ) (mapped : Mapped) (path : List ℕ)
    → 1 ≤ index
    → index ≤ n
    → Below index mapped
    → place n mapped
        (stage_directory index)
        (some path)
        (stage_index_from_directory_id (stage_directory index))
      ≡ ok (index, path)
place-next n index mapped path lower upper below =
    ground (arith, stage_index-stage_directory index lower, Below-fresh index mapped below)

map_directories-numbered :
    (run_dir : List ℕ) (n index : ℕ) (stages : List StageSpec) (mapped : Mapped)
    → 1 ≤ index
    → index + length stages ≤ n + 1
    → Below index mapped
    → map_directories n mapped (stage_dirs run_dir (numbered index stages))
      ≡ ok (mapping run_dir index stages mapped)
unfolding map_directories
map_directories-numbered run_dir n index [] mapped lower upper below = refl
map_directories-numbered run_dir n index (s ∷ stages) mapped lower upper below =
    let path = join_path run_dir (stage_directory index) in
    rw (place-next n index mapped path lower (omega arith) below) (
      map_directories-numbered run_dir n (index + 1) stages ((index, path) ∷ mapped) (omega arith)
        (omega arith) (Below-next index path mapped below))

next_named :
    (run_dir : List ℕ) (index rest : ℕ) (mapped : Mapped) (i : ℕ)
    → (names_index i mapped ≡ true) ⊎ ((index ≤ i) × (i < index + suc rest))
    → (names_index i ((index, join_path run_dir (stage_directory index)) ∷ mapped) ≡ true)
      ⊎ ((index + 1 ≤ i) × (i < index + 1 + rest))
next_named run_dir index rest mapped i (inl old) = inl (ground (arith, old))
next_named run_dir index rest mapped i (inr (lower, upper)) = elim (Bool-cases (index == i)) [
  | inl same ↦ inl (ground (arith, same))
  | inr other ↦ inr (ground (arith, other), omega arith)
]

mapping-names :
    (run_dir : List ℕ) (index : ℕ) (stages : List StageSpec) (mapped : Mapped) (i : ℕ)
    → (names_index i mapped ≡ true) ⊎ ((index ≤ i) × (i < index + length stages))
    → names_index i (mapping run_dir index stages mapped) ≡ true
mapping-names run_dir index [] mapped i (inl old) = old
mapping-names run_dir index [] mapped i (inr (lower, upper)) = absurd (omega arith)
mapping-names run_dir index (s ∷ stages) mapped i named =
    mapping-names run_dir (index + 1) stages
      ((index, join_path run_dir (stage_directory index)) ∷ mapped) i
      (next_named run_dir index (length stages) mapped i named)

mapping-within :
    (run_dir : List ℕ) (n index : ℕ) (stages : List StageSpec) (mapped : Mapped)
    → 1 ≤ index
    → index + length stages ≤ n + 1
    → within n mapped ≡ true
    → within n (mapping run_dir index stages mapped) ≡ true
mapping-within run_dir n index [] mapped lower upper inside = inside
mapping-within run_dir n index (s ∷ stages) mapped lower upper inside =
    mapping-within run_dir n (index + 1) stages
      ((index, join_path run_dir (stage_directory index)) ∷ mapped) (omega arith) (omega arith)
      (ground (arith, inside))

names_up_to-all :
    (n : ℕ) (mapped : Mapped)
    → ((i : ℕ) → 1 ≤ i → i ≤ n → names_index i mapped ≡ true)
    → names_up_to n mapped ≡ true
names_up_to-all zero mapped named = refl
names_up_to-all (suc n) mapped named = ground (
  arith,
  named (suc n) (omega arith) (omega arith),
  names_up_to-all n mapped (λ i lower upper. named i lower (omega arith)),
)

validate-numbered :
    (run_dir : List ℕ) (stages : List StageSpec)
    → validate_stage_directories (length stages) (stage_dirs run_dir (numbered 1 stages))
      ≡ ok (mapping run_dir 1 stages [])
unfolding validate_stage_directories
validate-numbered run_dir stages =
    let m = mapping run_dir 1 stages [] in
    ground (
      arith,
      map_directories-numbered run_dir (length stages) 1 stages [] (omega arith) (omega arith)
          (λ i named. absurd (ground (arith, named))),
      mapping-within run_dir (length stages) 1 stages [] (omega arith) (omega arith) refl,
      names_up_to-all (length stages) m
          (λ i lower upper. mapping-names run_dir 1 stages [] i (inr (lower, omega arith))),
    )

validate-none : (n : ℕ) → leb n 1 ≡ true → validate_stage_directories n [] ≡ ok []
unfolding validate_stage_directories map_directories
validate-none n small = ground (arith, small)

abbrev relaxations : List (List ℕ)
relaxations = codes "relax_01" ∷ codes "relax_02" ∷ []

validate-relaxations :
    (run_dir : List ℕ)
    → validate_stage_directories 2 (stage_dirs run_dir relaxations)
      ≡ ok (
          (2, join_path run_dir (codes "relax_02"))
          ∷ (1, join_path run_dir (codes "relax_01"))
          ∷ [])
unfolding validate_stage_directories map_directories stage_index_from_directory_id codes_eq number
validate-relaxations run_dir = refl

-- Whether or not the stages are the two relaxations, their directories are accepted.
validate-directories_for :
    (run_dir : List ℕ) (stages : List StageSpec)
    → (m : Mapped) × (validate_stage_directories
          (length stages)
          (stage_dirs run_dir (directories_for stages))
        ≡ ok m)
unfolding directories_for
validate-directories_for run_dir stages = elim (Bool-cases (leb (length stages) 1)) [
  | inl single ↦ ([], rw single (validate-none (length stages) single))
  | inr several ↦ elim (Bool-cases ((length stages == 2) && all is_pbe_relaxation stages)) [
    | inl pair ↦ (
      (2, join_path run_dir (codes "relax_02")) ∷ (1, join_path run_dir (codes "relax_01")) ∷ [],
      ground (arith, several, pair, ==_iff (length stages) 2, validate-relaxations run_dir),
    )
    | inr other ↦ (
      mapping run_dir 1 stages [],
      ground (arith, several, other, validate-numbered run_dir stages),
    )
  ]
]

-- The run directories that a submission gives the stages of a workflow, once the registry has
-- named them, are accepted by the validation of run records, and the result names every stage of a
-- workflow of several stages once, at its own path.
pub stage_dirs-Names :
    (run_dir : List ℕ) (workflow : WorkflowSpec) (directories : List (List ℕ))
    → workflow_stage_directories workflow ≡ ok directories
    → (mapped : Mapped) × (validate_stage_directories
          (length workflow.stages)
          (stage_dirs run_dir directories)
        ≡ ok mapped)
      × Names (length workflow.stages) (stage_dirs run_dir directories) mapped
unfolding workflow_stage_directories
stage_dirs-Names run_dir workflow directories returned =
    let (normalized, valid, rest) =
      >>=-eq-ok (validate_workflow_spec workflow)
        (λ (v : WorkflowSpec). ok (directories_for v.stages)) returned in
    let unchanged = ((validate_workflow_spec_iff workflow normalized).0 valid).1 in
    let these =
      sym (
        ok-injective ValidationError {x = directories_for normalized.stages} {y = directories} rest)
      ∙ ap (λ (v : WorkflowSpec). directories_for v.stages) unchanged in
    let (mapped, accepted) = validate-directories_for run_dir workflow.stages in
    let accepted' =
      subst
        (λ ds.
          validate_stage_directories (length workflow.stages) (stage_dirs run_dir ds) ≡ ok mapped)
        (sym these) accepted in
    (
      mapped,
      accepted',
      validate_stage_directories-Names (length workflow.stages) (stage_dirs run_dir directories)
          mapped accepted',
    )
