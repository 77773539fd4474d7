-- ===== src/Considerations/Support.antt =====
-- Which stages of a workflow support a modifier.
use bmd_compute.Prelude.{
  ℕ, ◌+◌, Bool, true, false, not, ◌&&◌, if◌then◌else◌, some, List, [], ◌∷◌, ◌≡◌, ◌≢◌, refl, sym,
  subst, ◌⊎◌, inl, inr,
}
use bmd_compute.Model.{Modifier, contains, StageSpec, WorkflowSpec}
use bmd_compute.Registry.Workflow.WellFormed.{WellFormed, validate_workflow_spec_iff}
use bmd_compute.Considerations.Capabilities.{
  SelectionState, WorkflowSupport, noted, stages_support, state_of, workflow_modifier_support,
}
use bmd_compute.Considerations.Runs.{
  Supports, Selects, Fails, asked, asked-Supports, asked-not-Supports, asked-Selects,
  asked-not-Selects, asked-Fails, asked-not-Fails,
}

-- The list has the numbers of the stages with the property, counted from `n` on, in their order,
-- and no others.
abbrev pub StagesWith : (StageSpec → Type 0) → ℕ → List StageSpec → List ℕ → Type 0
StagesWith P n [] numbers = numbers ≡ []
StagesWith P n (s ∷ stages) numbers =
    (P s × ((later : List ℕ) × (numbers ≡ n ∷ later) × StagesWith P (n + 1) stages later))
    ⊎ ((¬ (P s)) × StagesWith P (n + 1) stages numbers)

-- What a selection state says of the numbers of the selected and of the supported stages.
abbrev pub Describes : SelectionState → List ℕ → List ℕ → Type 0
Describes SelectionState.already_selected selected supported = selected ≢ []
Describes SelectionState.not_selected selected supported = (selected ≡ []) × (supported ≢ [])
Describes SelectionState.unsupported_for_workflow selected supported =
    (selected ≡ []) × (supported ≡ [])
Describes _ selected supported = ⊥

-- A test that decides a property keeps the numbers of the stages with it.
StagesWith-step :
    (P : StageSpec → Type 0) (n : ℕ) (s : StageSpec) (stages : List StageSpec) (b : Bool)
    (later : List ℕ)
    → (b ≡ true → P s)
    → (b ≡ false → ¬ (P s))
    → StagesWith P (n + 1) stages later
    → StagesWith P n (s ∷ stages) (if b then n ∷ later else later)
StagesWith-step P n s stages true later holds fails rest = inl (holds refl, (later, refl, rest))
StagesWith-step P n s stages false later holds fails rest = inr (fails refl, rest)

noted-lists :
    (n : ℕ) (has own : Bool) (later : WorkflowSupport)
    → ((noted n has own later).supported ≡ (if own then n ∷ later.supported else later.supported))
      × ((noted n has own later).selected
          ≡ (if has && own then n ∷ later.selected else later.selected))
      × ((noted n has own later).unsupported_selected
          ≡ (if has && not own then n ∷ later.unsupported_selected else later.unsupported_selected))
noted-lists n true true later = (refl, refl, refl)
noted-lists n true false later = (refl, refl, refl)
noted-lists n false true later = (refl, refl, refl)
noted-lists n false false later = (refl, refl, refl)

stages_support-StagesWith :
    (m : Modifier) (n : ℕ) (stages : List StageSpec)
    → StagesWith (Supports m) n stages (stages_support m n stages).supported
      × StagesWith (Selects m) n stages (stages_support m n stages).selected
      × StagesWith (Fails m) n stages (stages_support m n stages).unsupported_selected
unfolding stages_support
stages_support-StagesWith m n [] = (refl, refl, refl)
stages_support-StagesWith m n (s ∷ stages) =
    let later = stages_support m (n + 1) stages in
    let (supported, selected, failed) = stages_support-StagesWith m (n + 1) stages in
    let (e1, e2, e3) = noted-lists n (contains s.modifiers m) (asked m s) later in
    (
      subst (StagesWith (Supports m) n (s ∷ stages)) (sym e1) (
          StagesWith-step (Supports m) n s stages (asked m s) later.supported (asked-Supports m s)
            (asked-not-Supports m s) supported),
      subst (StagesWith (Selects m) n (s ∷ stages)) (sym e2) (
          StagesWith-step (Selects m) n s stages (contains s.modifiers m && asked m s)
            later.selected (asked-Selects m s) (asked-not-Selects m s) selected),
      subst (StagesWith (Fails m) n (s ∷ stages)) (sym e3) (
          StagesWith-step (Fails m) n s stages (contains s.modifiers m && not (asked m s))
            later.unsupported_selected (asked-Fails m s) (asked-not-Fails m s) failed),
    )

state_of-Describes :
    (selected supported : List ℕ) → Describes (state_of selected supported) selected supported
state_of-Describes (n ∷ selected) supported = λ e. cc
state_of-Describes [] (n ∷ supported) = (refl, λ e. cc)
state_of-Describes [] [] = (refl, refl)

-- For a well-formed workflow, the supported numbers are exactly those of the stages that, with the
-- modifier and otherwise as they are, are legal and admissible for a new calculation; the selected
-- ones those of the stages that have the modifier and are legal and admissible, the unsupported
-- selected ones those that have it and are not. The selection state is already_selected when a
-- stage is selected, else not_selected when one is supported, else unsupported_for_workflow.
pub workflow_modifier_support-numbers :
    (w : WorkflowSpec) (m : Modifier)
    → WellFormed w
    → StagesWith (Supports m) 1 w.stages (workflow_modifier_support (some w) m).supported
      × StagesWith (Selects m) 1 w.stages (workflow_modifier_support (some w) m).selected
      × StagesWith (Fails m) 1 w.stages (workflow_modifier_support (some w) m).unsupported_selected
      × Describes
          (workflow_modifier_support (some w) m).selection_state
          (workflow_modifier_support (some w) m).selected
          (workflow_modifier_support (some w) m).supported
unfolding workflow_modifier_support
workflow_modifier_support-numbers w m well_formed =
    let valid = (validate_workflow_spec_iff w w).1 (well_formed, refl) in
    let support = stages_support m 1 w.stages in
    let (supported, selected, failed) = stages_support-StagesWith m 1 w.stages in
    rw (valid, workflow_modifier_support)
      (supported, selected, failed, state_of-Describes support.selected support.supported)
