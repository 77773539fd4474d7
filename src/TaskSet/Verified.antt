-- ===== src/TaskSet/Verified.antt =====
-- A record that was built for a stage of a workflow is accepted in canonical form and verified
-- against the workflow and the attempt; and only against these.
use bmd_compute.Prelude.{
  ℕ, ◌+◌, String, some, List, [], ◌∷◌, ok, err, Result, ◌>>=◌, ◌>>◌, ◌≡◌, refl, sym, ap, ◌∙◌, arith,
}
use bmd_compute.Model.{StageType, Json, str, arr, obj, Items, Fields, end, field}
use bmd_compute.Policy.Incar.{pop}
use bmd_compute.Canonical.{canonical_value}
use bmd_compute.TaskSet.Values.{TaskSetError, mapping, exact_keys, require_version}
use bmd_compute.TaskSet.Validation.{
  require_canonical, validate_task, validate_tasks, tasks_of, validate_parent, validate_upstream,
  validate_source, canonical_sha256, task_set_sha256, require_hash, validate_stage_task_set_record,
}
use bmd_compute.TaskSet.Build.{task_items, TaskSetSource}
use bmd_compute.TaskSet.Sorted.{
  sorted_items, body, document, sorted_body, sorted_document, canonical-body, canonical-document,
  canonical-sorted_body, canonical-sorted_document,
}

bind_same {ℓe ℓv ℓw} :
    {E : Type ℓe} {A : Type ℓv} {B : Type ℓw} (x : Result E A) (f g : A → Result E B)
    → ((a : A) → f a ≡ g a)
    → (x >>= f) ≡ (x >>= g)
bind_same (err e) f g each = refl
bind_same (ok a) f g each = each a

ap2_bind {ℓe ℓv ℓw} :
    {E : Type ℓe} {A : Type ℓv} {B : Type ℓw} {x y : Result E A} {f g : A → Result E B}
    → x ≡ y
    → ((a : A) → f a ≡ g a)
    → (x >>= f) ≡ (y >>= g)
ap2_bind {y = y} {f = f} {g = g} same each = ap (λ z. z >>= f) same ∙ bind_same y f g each

canonical_sha256-some :
    (digest : Json → String) (value canonical : Json)
    → canonical_value value ≡ some canonical
    → canonical_sha256 digest value ≡ ok (digest canonical)
unfolding canonical_sha256
canonical_sha256-some digest value canonical same = rw (same, canonical_sha256) refl

module _ (digest : Json → String) (source : TaskSetSource) (t : StageType) (m w s : String) where
  abbrev content_hash : String
  content_hash = digest (obj (sorted_body source t m w s))

  task_set_sha256-document :
      (hash : String) → task_set_sha256 digest (document source t m w s hash) ≡ ok content_hash
  unfolding task_set_sha256 pop
  task_set_sha256-document hash =
      canonical_sha256-some digest (obj (body source t m w s)) (obj (sorted_body source t m w s))
        (canonical-body source t m w s)

  task_set_sha256-sorted_document :
      (hash : String)
      → task_set_sha256 digest (sorted_document source t m w s hash) ≡ ok content_hash
  unfolding task_set_sha256 pop
  task_set_sha256-sorted_document hash =
      canonical_sha256-some digest (obj (sorted_body source t m w s))
        (obj (sorted_body source t m w s)) (canonical-sorted_body source t m w s)

  require_hash-sorted :
      (hash : String)
      → require_hash digest (sorted_document source t m w s hash)
        ≡ require_hash digest (document source t m w s hash)
  unfolding require_hash
  require_hash-sorted hash =
      ground (arith, task_set_sha256-document hash, task_set_sha256-sorted_document hash)

validate_task-sorted :
    (position : ℕ) (ids inputs : List String) (task_id input_sha : String)
    → validate_task position ids inputs
        (obj (field "input_sha256" (str input_sha) (field "task_id" (str task_id) end)))
      ≡ validate_task position ids inputs
          (obj (field "task_id" (str task_id) (field "input_sha256" (str input_sha) end)))
unfolding validate_task mapping exact_keys
validate_task-sorted position ids inputs task_id input_sha = refl

validate_tasks-sorted :
    (position : ℕ) (ids inputs : List String) (tasks : List (String × String))
    → validate_tasks position ids inputs (sorted_items tasks)
      ≡ validate_tasks position ids inputs (task_items tasks)
unfolding validate_tasks
validate_tasks-sorted position ids inputs [] = refl
validate_tasks-sorted position ids inputs ((task_id, input_sha) ∷ tasks) =
    ap2_bind (validate_task-sorted position ids inputs task_id input_sha)
      (λ seen. validate_tasks-sorted (position + 1) (seen.0 ∷ ids) (seen.1 ∷ inputs) tasks)

abbrev checked_tasks : Items → Result TaskSetError (Unit {0})
checked_tasks items = tasks_of (some (arr items)) >>= λ tasks. validate_tasks 0 [] [] tasks

checked_tasks-sorted :
    (tasks : List (String × String))
    → checked_tasks (sorted_items tasks) ≡ checked_tasks (task_items tasks)
unfolding tasks_of
checked_tasks-sorted [] = refl
checked_tasks-sorted (task ∷ tasks) = validate_tasks-sorted 0 [] [] (task ∷ tasks)

module _ (source : TaskSetSource) (t : StageType) (m w s hash : String) where
  validate_parent-sorted :
      validate_parent (sorted_document source t m w s hash)
      ≡ validate_parent (document source t m w s hash)
  unfolding validate_parent mapping exact_keys
  validate_parent-sorted = refl

  validate_upstream-sorted :
      (n : ℕ)
      → validate_upstream (sorted_document source t m w s hash) n
        ≡ validate_upstream (document source t m w s hash) n
  unfolding validate_upstream mapping exact_keys
  validate_upstream-sorted n = refl

  validate_source-sorted :
      (materializer : String)
      → validate_source (sorted_document source t m w s hash) materializer
        ≡ validate_source (document source t m w s hash) materializer
  unfolding validate_source mapping exact_keys
  validate_source-sorted materializer = refl

-- The checks from the parent on.
abbrev later_checks : (Json → String) → Fields → Items → Result TaskSetError (Unit {0})
later_checks digest d items = do
  found ← validate_parent d
  validate_upstream d found.0
  validate_source d found.1
  tasks ← tasks_of (some (arr items))
  validate_tasks 0 [] [] tasks
  require_hash digest d

bind_assoc {ℓe ℓu ℓv ℓw} :
    {E : Type ℓe} {A : Type ℓu} {B : Type ℓv} {C : Type ℓw} (x : Result E A) (f : A → Result E B)
    (g : B → Result E C)
    → (x >>= λ a. f a >>= g) ≡ ((x >>= f) >>= g)
bind_assoc (err e) f g = refl
bind_assoc (ok a) f g = refl

module _ (digest : Json → String) (source : TaskSetSource) (t : StageType)
    (m w s hash : String) where
  later_checks-sorted :
      later_checks digest (sorted_document source t m w s hash) (sorted_items source.tasks)
      ≡ later_checks digest (document source t m w s hash) (task_items source.tasks)
  later_checks-sorted = ap2_bind (validate_parent-sorted source t m w s hash) (λ found.
      ap2_bind (validate_upstream-sorted source t m w s hash found.0) (λ a.
        ap2_bind (validate_source-sorted source t m w s hash found.1) (λ b.
          bind_assoc (tasks_of (some (arr (sorted_items source.tasks)))) (validate_tasks 0 [] [])
            (λ c. require_hash digest (sorted_document source t m w s hash))
          ∙ ap2_bind (checked_tasks-sorted source.tasks)
              (λ c. require_hash-sorted digest source t m w s hash)
          ∙ sym (
              bind_assoc (tasks_of (some (arr (task_items source.tasks)))) (validate_tasks 0 [] [])
                (λ c. require_hash digest (document source t m w s hash))))))

  -- The canonical form is accepted where the record is.
  pub validate-sorted :
      validate_stage_task_set_record digest (obj (sorted_document source t m w s hash))
      ≡ validate_stage_task_set_record digest (obj (document source t m w s hash))
  unfolding validate_stage_task_set_record mapping exact_keys require_version
  validate-sorted =
      ap2_bind
        (ap require_canonical (
          canonical-sorted_document source t m w s hash
          ∙ sym (canonical-document source t m w s hash)))
        (λ a. later_checks-sorted)
