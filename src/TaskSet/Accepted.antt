-- ===== src/TaskSet/Accepted.antt =====
-- backend/stage_task_set.py: what the checks on the parts of a record accept.
use bmd_compute.Prelude.{
  ℕ, ◌+◌, ◌≤◌, ◌<◌, String, true, false, not, Option, none, some, List, [], ◌∷◌, ok, ◌≡◌, ◌≢◌, ap,
  ◌∙◌, arith, >>=-eq-ok, >>-eq-ok, raise_if, raise_if-eq-ok, ok-injective, subst, leb,
}
use bmd_compute.Prelude.Text.{codes, codes_eq, codes_eq-eq}
use bmd_compute.Model.{
  StageType, Json, int, str, arr, obj, pos, null, bool, float, Items, nil, cons, Fields, get,
}
use bmd_compute.Canonical.{task_id_for_index}
use bmd_compute.TaskSet.Values.{
  TaskSetError, is_sha256, is_one_of, mapping, exact_keys, positive_int, sha, attempt_id_of,
  stage_type_of, derived_task_set_materializer, validate_task_id, is_attempt_id,
  upstream_not_earlier, duplicate_id, out_of_order, duplicate_input,
}
use bmd_compute.TaskSet.Validation.{
  parent_keys, validate_task, validate_tasks, tasks_of, validate_parent, validate_upstream,
}

-- The tasks from a position on: each has the identifier of its position and an input that no task
-- before it has.
abbrev pub Described : ℕ → List String → Items → Type 0
Described position seen nil = Unit
Described position seen (cons task tasks) =
    (d : Fields) × (task_id : String) × (input_sha : String) × (task ≡ obj d)
    × (get "task_id" d ≡ some (str task_id))
    × (codes task_id ≡ task_id_for_index position)
    × (get "input_sha256" d ≡ some (str input_sha))
    × (is_sha256 (codes input_sha) ≡ true)
    × (is_one_of seen input_sha ≡ false)
    × Described (position + 1) (input_sha ∷ seen) tasks

pub mapping-eq-ok :
    (o : Option Json) (label : String) (d : Fields) → mapping o label ≡ ok d → o ≡ some (obj d)
unfolding mapping
mapping-eq-ok o label d h = ground (arith, h)

positive_int-eq-ok :
    (o : Option Json) (label : String) (n : ℕ)
    → positive_int o label ≡ ok n
    → (o ≡ some (int (pos n))) × (1 ≤ n)
unfolding positive_int
positive_int-eq-ok o label n h = ground (arith, h)

pub sha-eq-ok :
    (o : Option Json) (label s : String)
    → sha o label ≡ ok s
    → (o ≡ some (str s)) × (is_sha256 (codes s) ≡ true)
unfolding sha
sha-eq-ok o label s h = ground (arith, h)

attempt_id_of-eq-ok :
    (o : Option Json) (s : String)
    → attempt_id_of o ≡ ok s
    → (o ≡ some (str s)) × (is_attempt_id (codes s) ≡ true)
unfolding attempt_id_of
attempt_id_of-eq-ok o s h = ground (arith, h)

validate_task_id-eq-ok :
    (o : Option Json) (s : String) → validate_task_id o ≡ ok s → o ≡ some (str s)
unfolding validate_task_id
validate_task_id-eq-ok o s h = ground (arith, h)

pub tasks_of-eq-ok :
    (o : Option Json) (tasks : Items)
    → tasks_of o ≡ ok tasks
    → (o ≡ some (arr tasks)) × (tasks ≢ nil)
unfolding tasks_of
tasks_of-eq-ok (some (arr (cons task rest))) tasks h = (ground (arith, h), λ same. cc)
tasks_of-eq-ok (some (arr nil)) tasks h = cc
tasks_of-eq-ok (some null) tasks h = cc
tasks_of-eq-ok (some (bool b)) tasks h = cc
tasks_of-eq-ok (some (int n)) tasks h = cc
tasks_of-eq-ok (some (float f)) tasks h = cc
tasks_of-eq-ok (some (str s)) tasks h = cc
tasks_of-eq-ok (some (obj d)) tasks h = cc
tasks_of-eq-ok none tasks h = cc

materializer-derived :
    (t : StageType) (m : String)
    → derived_task_set_materializer t ≡ ok m
    → t ≡ StageType.phonon_forces
materializer-derived t m h = ground (arith, h)

-- One accepted task.
record Task (position : ℕ) (inputs : List String) (task : Json) (seen : String × String)
    : Type 0 where
  d : Fields
  is_object : task ≡ obj d
  has_id : get "task_id" d ≡ some (str seen.0)
  in_order : codes seen.0 ≡ task_id_for_index position
  has_input : get "input_sha256" d ≡ some (str seen.1)
  is_digest : is_sha256 (codes seen.1) ≡ true
  fresh : is_one_of inputs seen.1 ≡ false

validate_task-Task :
    (position : ℕ) (ids inputs : List String) (task : Json) (seen : String × String)
    → validate_task position ids inputs task ≡ ok seen
    → Task position inputs task seen
unfolding validate_task
validate_task-Task position ids inputs task seen h =
    let (d, h1, k1) = >>=-eq-ok (mapping (some task) "task") _ h in
    let (h2, k2) = >>-eq-ok (exact_keys d ("task_id" ∷ "input_sha256" ∷ []) "task") _ k1 in
    let (task_id, h3, k3) = >>=-eq-ok (validate_task_id (get "task_id" d)) _ k2 in
    let (h4, k4) = >>-eq-ok (raise_if (is_one_of ids task_id) (duplicate_id position)) _ k3 in
    let ordered = codes_eq (codes task_id) (task_id_for_index position) in
    let (h5, k5) = >>-eq-ok (raise_if (not ordered) (out_of_order position)) _ k4 in
    let (input_sha, h6, k6) = >>=-eq-ok (sha (get "input_sha256" d) "input_sha256") _ k5 in
    let (h7, k7) =
      >>-eq-ok (raise_if (is_one_of inputs input_sha) (duplicate_input position)) _ k6 in
    let (has_input, is_digest) = sha-eq-ok (get "input_sha256" d) "input_sha256" input_sha h6 in
    let same = ok-injective TaskSetError {x = (task_id, input_sha)} {y = seen} k7 in
    subst (Task position inputs task) same (record {
      d = d;
      is_object = ground (arith, mapping-eq-ok (some task) "task" d h1);
      has_id = validate_task_id-eq-ok (get "task_id" d) task_id h3;
      in_order =
          codes_eq-eq (codes task_id) (task_id_for_index position)
            (ground (arith, raise_if-eq-ok (not ordered) (out_of_order position) h5));
      has_input = has_input;
      is_digest = is_digest;
      fresh = raise_if-eq-ok (is_one_of inputs input_sha) (duplicate_input position) h7;
    })

pub validate_tasks-Described :
    (position : ℕ) (ids inputs : List String) (tasks : Items)
    → validate_tasks position ids inputs tasks ≡ ok tt
    → Described position inputs tasks
unfolding validate_tasks
validate_tasks-Described position ids inputs nil h = tt
validate_tasks-Described position ids inputs (cons task tasks) h =
    let (seen, h1, k1) = >>=-eq-ok (validate_task position ids inputs task) _ h in
    let t = validate_task-Task position ids inputs task seen h1 in
    (
      t.d,
      seen.0,
      seen.1,
      t.is_object,
      t.has_id,
      t.in_order,
      t.has_input,
      t.is_digest,
      t.fresh,
      validate_tasks-Described (position + 1) (seen.0 ∷ ids) (seen.1 ∷ inputs) tasks k1,
    )

pub record Parent (fields : Fields) (index : ℕ) : Type 0 where
  pub parent : Fields
  pub attempt_id : String
  pub has_parent : get "parent" fields ≡ some (obj parent)
  pub has_attempt : get "submission_attempt_id" parent ≡ some (str attempt_id)
  pub canonical_attempt : is_attempt_id (codes attempt_id) ≡ true
  pub derived : stage_type_of (get "stage_type" parent) ≡ ok StageType.phonon_forces
  pub has_index : get "stage_index" parent ≡ some (int (pos index))

pub validate_parent-Parent :
    (fields : Fields) (found : ℕ × String)
    → validate_parent fields ≡ ok found
    → Parent fields found.0
unfolding validate_parent
validate_parent-Parent fields found h =
    let (parent, h1, k1) = >>=-eq-ok (mapping (get "parent" fields) "parent") _ h in
    let (h2, k2) = >>-eq-ok (exact_keys parent parent_keys "parent") _ k1 in
    let (attempt, h3, k3) = >>=-eq-ok (attempt_id_of (get "submission_attempt_id" parent)) _ k2 in
    let (w, h4, k4) =
      >>=-eq-ok (sha (get "workflow_sha256" parent) "parent.workflow_sha256") _ k3 in
    let (s, h5, k5) = >>=-eq-ok (sha (get "stage_sha256" parent) "parent.stage_sha256") _ k4 in
    let (index, h6, k6) =
      >>=-eq-ok (positive_int (get "stage_index" parent) "parent.stage_index") _ k5 in
    let (t, h7, k7) = >>=-eq-ok (stage_type_of (get "stage_type" parent)) _ k6 in
    let (m, h8, k8) = >>=-eq-ok (derived_task_set_materializer t) _ k7 in
    let (has_attempt, canonical) =
      attempt_id_of-eq-ok (get "submission_attempt_id" parent) attempt h3 in
    let same = ok-injective TaskSetError {x = (index, m)} {y = found} k8 in
    subst (λ (f : ℕ × String). Parent fields f.0) same
      (record {
        parent = parent;
        attempt_id = attempt;
        has_parent = mapping-eq-ok (get "parent" fields) "parent" parent h1;
        has_attempt = has_attempt;
        canonical_attempt = canonical;
        derived = h7 ∙ ap ok (materializer-derived t m h8);
        has_index = (positive_int-eq-ok (get "stage_index" parent) "parent.stage_index" index h6).0;
      })

pub record Upstream (fields : Fields) (parent_index : ℕ) : Type 0 where
  pub upstream : Fields
  pub index : ℕ
  pub has_upstream : get "upstream_structure" fields ≡ some (obj upstream)
  pub has_index : get "stage_index" upstream ≡ some (int (pos index))
  pub first : 1 ≤ index
  pub earlier : index < parent_index

pub validate_upstream-Upstream :
    (fields : Fields) (parent_index : ℕ)
    → validate_upstream fields parent_index ≡ ok tt
    → Upstream fields parent_index
unfolding validate_upstream
validate_upstream-Upstream fields parent_index h =
    let (upstream, h1, k1) =
      >>=-eq-ok (mapping (get "upstream_structure" fields) "upstream_structure") _ h in
    let (h2, k2) =
      >>-eq-ok (exact_keys upstream ("stage_index" ∷ "sha256" ∷ []) "upstream_structure") _ k1 in
    let (index, h3, k3) =
      >>=-eq-ok (positive_int (get "stage_index" upstream) "upstream_structure.stage_index") _ k2 in
    let (h4, k4) = >>-eq-ok (raise_if (leb parent_index index) upstream_not_earlier) _ k3 in
    let (has_index, first) =
      positive_int-eq-ok (get "stage_index" upstream) "upstream_structure.stage_index" index h3 in
    record {
      upstream = upstream;
      index = index;
      has_upstream =
          mapping-eq-ok (get "upstream_structure" fields) "upstream_structure" upstream h1;
      has_index = has_index;
      first = first;
      earlier = ground (arith, raise_if-eq-ok (leb parent_index index) upstream_not_earlier h4);
    }
