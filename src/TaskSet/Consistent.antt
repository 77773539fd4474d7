-- ===== src/TaskSet/Consistent.antt =====
-- backend/stage_task_set.py: what an accepted task-set record is, whatever JSON it was read from.
use bmd_compute.Prelude.{
  ℕ, ◌≤◌, ◌<◌, String, true, not, some, [], ok, ◌≡◌, ◌≢◌, sym, ap, ◌∙◌, arith, >>=-eq-ok, >>-eq-ok,
  raise_if, str_eq, eq_iff,
}
use bmd_compute.Prelude.Text.{codes}
use bmd_compute.Model.{StageType, Json, int, str, arr, obj, pos, Items, nil, Fields, get}
use bmd_compute.Canonical.{canonical_value}
use bmd_compute.TaskSet.Values.{
  mapping, exact_keys, sha, stage_type_of, is_attempt_id, is_text, require_version, wrong_schema,
  wrong_version, wrong_order,
}
use bmd_compute.TaskSet.Validation.{
  record_keys, require_canonical, validate_tasks, tasks_of, validate_parent, validate_upstream,
  validate_source, task_set_sha256, require_hash, validate_stage_task_set_record,
}
use bmd_compute.TaskSet.Accepted.{
  Described, mapping-eq-ok, sha-eq-ok, tasks_of-eq-ok, validate_tasks-Described,
  validate_parent-Parent, validate_upstream-Upstream,
}

pub record Consistent (digest : Json → String) (payload : Json) : Type 0 where
  pub fields : Fields
  pub parent : Fields
  pub upstream : Fields
  pub tasks : Items
  pub attempt_id : String
  pub parent_index : ℕ
  pub upstream_index : ℕ
  pub hash : String
  pub is_object : payload ≡ obj fields
  pub has_parent : get "parent" fields ≡ some (obj parent)
  pub has_attempt : get "submission_attempt_id" parent ≡ some (str attempt_id)
  pub canonical_attempt : is_attempt_id (codes attempt_id) ≡ true
  pub derived : stage_type_of (get "stage_type" parent) ≡ ok StageType.phonon_forces
  pub has_index : get "stage_index" parent ≡ some (int (pos parent_index))
  pub has_upstream : get "upstream_structure" fields ≡ some (obj upstream)
  pub has_upstream_index : get "stage_index" upstream ≡ some (int (pos upstream_index))
  pub first : 1 ≤ upstream_index
  pub earlier : upstream_index < parent_index
  pub has_tasks : get "tasks" fields ≡ some (arr tasks)
  pub not_empty : tasks ≢ nil
  pub described : Described 0 [] tasks
  pub has_hash : get "task_set_sha256" fields ≡ some (str hash)
  pub hashed : task_set_sha256 digest fields ≡ ok hash

module _ (digest : Json → String) where
  require_hash-eq-ok :
      (fields : Fields)
      → require_hash digest fields ≡ ok tt
      → (hash : String) × (get "task_set_sha256" fields ≡ some (str hash))
        × (task_set_sha256 digest fields ≡ ok hash)
  unfolding require_hash
  require_hash-eq-ok fields h =
      let (recorded, h1, k1) =
        >>=-eq-ok (sha (get "task_set_sha256" fields) "task_set_sha256") _ h in
      let (recomputed, h2, k2) = >>=-eq-ok (task_set_sha256 digest fields) _ k1 in
      let equal : str_eq recorded recomputed ≡ true = ground (arith, k2) in
      (
        recorded,
        (sha-eq-ok (get "task_set_sha256" fields) "task_set_sha256" recorded h1).0,
        h2 ∙ ap ok (sym ((eq_iff recorded recomputed).0 equal)),
      )

  -- An accepted task-set record is an object whose parent is a phonon-force stage with a canonical
  -- attempt id, whose upstream stage is an earlier one, whose tasks are not empty, are numbered in
  -- their order and have distinct inputs, and whose hash is that of its other fields.
  pub validate_stage_task_set_record-Consistent :
      (payload : Json)
      → validate_stage_task_set_record digest payload ≡ ok tt
      → Consistent digest payload
  unfolding validate_stage_task_set_record
  validate_stage_task_set_record-Consistent payload h =
      let (fields, h1, k1) = >>=-eq-ok (mapping (some payload) "task set") _ h in
      let (h2, k2) = >>-eq-ok (exact_keys fields record_keys "task set") _ k1 in
      let (h3, k3) =
        >>-eq-ok
          (raise_if (not (is_text "bmd_compute.stage_task_set" (get "schema" fields))) wrong_schema)
          _ k2 in
      let (h4, k4) =
        >>-eq-ok (require_version 1 (get "schema_version" fields) wrong_version) _ k3 in
      let (h5, k5) = >>-eq-ok (require_canonical (canonical_value (obj fields))) _ k4 in
      let (found, h6, k6) = >>=-eq-ok (validate_parent fields) _ k5 in
      let (h7, k7) = >>-eq-ok (validate_upstream fields found.0) _ k6 in
      let (h8, k8) = >>-eq-ok (validate_source fields found.1) _ k7 in
      let (h9, k9) =
        >>-eq-ok (raise_if (not (is_text "source_canonical" (get "task_order" fields))) wrong_order)
          _ k8 in
      let (tasks, h10, k10) = >>=-eq-ok (tasks_of (get "tasks" fields)) _ k9 in
      let (h11, k11) = >>-eq-ok (validate_tasks 0 [] [] tasks) _ k10 in
      let p = validate_parent-Parent fields found h6 in
      let u = validate_upstream-Upstream fields found.0 h7 in
      let (has_tasks, not_empty) = tasks_of-eq-ok (get "tasks" fields) tasks h10 in
      let (hash, has_hash, hashed) = require_hash-eq-ok fields k11 in
      record {
        fields = fields;
        parent = p.parent;
        upstream = u.upstream;
        tasks = tasks;
        attempt_id = p.attempt_id;
        parent_index = found.0;
        upstream_index = u.index;
        hash = hash;
        is_object = ground (arith, mapping-eq-ok (some payload) "task set" fields h1);
        has_parent = p.has_parent;
        has_attempt = p.has_attempt;
        canonical_attempt = p.canonical_attempt;
        derived = p.derived;
        has_index = p.has_index;
        has_upstream = u.has_upstream;
        has_upstream_index = u.has_index;
        first = u.first;
        earlier = u.earlier;
        has_tasks = has_tasks;
        not_empty = not_empty;
        described = validate_tasks-Described 0 [] [] tasks h11;
        has_hash = has_hash;
        hashed = hashed;
      }
