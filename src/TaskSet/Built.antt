-- ===== src/TaskSet/Built.antt =====
-- A record that was built for a stage of a workflow is accepted in canonical form, and verified
-- against that workflow and attempt only.
use bmd_compute.Prelude.{
  ℕ, zero, suc, ◌≤◌, ◌<◌, String, true, some, List, [], ◌∷◌, ok, ◌≡◌, refl, sym, ◌∙◌, arith, subst,
  >>=-eq-ok, >>-eq-ok, ok-injective,
}
use bmd_compute.Prelude.Text.{codes}
use bmd_compute.Model.{StageType, StageSpec, WorkflowSpec, Json, int, str, obj, pos, Fields, get}
use bmd_compute.Canonical.{canonical_value}
use bmd_compute.Canonical.Equality.{json_eq_refl}
use bmd_compute.TaskSet.Values.{TaskSetError, derived_task_set_materializer, is_attempt_id, mapping}
use bmd_compute.TaskSet.Validation.{
  stage_spec_sha256, workflow_spec_sha256, task_set_sha256, validate_stage_task_set_record,
}
use bmd_compute.TaskSet.Build.{
  stage_at, workflow_stage, TaskSetSource, record_body, build_stage_task_set_record, post_init,
  task_set_from_dict,
}
use bmd_compute.TaskSet.Consistent.{validate_stage_task_set_record-Consistent}
use bmd_compute.TaskSet.Sorted.{
  document, sorted_document, canonical-document, canonical-sorted_document,
}
use bmd_compute.TaskSet.Verified.{validate-sorted}

stage_at-earlier :
    (stages : List StageSpec) (k n : ℕ) {s : StageSpec}
    → k ≤ n
    → stage_at stages n ≡ ok s
    → (s' : StageSpec) × (stage_at stages k ≡ ok s')
stage_at-earlier [] k n earlier found = cc
stage_at-earlier (s ∷ stages) zero n earlier found = (s, refl)
stage_at-earlier (s ∷ stages) (suc k) zero earlier found = absurd (omega arith)
stage_at-earlier (s ∷ stages) (suc k) (suc n) earlier found =
    stage_at-earlier stages k n (omega arith) found

-- An earlier stage of a workflow is there.
pub workflow_stage-earlier :
    (w : WorkflowSpec) (k n : ℕ) {s : StageSpec}
    → 1 ≤ k
    → k < n
    → workflow_stage w n ≡ ok s
    → (s' : StageSpec) × (workflow_stage w k ≡ ok s')
unfolding workflow_stage
workflow_stage-earlier w zero n first earlier found = absurd (omega arith)
workflow_stage-earlier w (suc k) zero first earlier found = absurd (omega arith)
workflow_stage-earlier w (suc k) (suc n) first earlier found =
    stage_at-earlier w.stages k n (omega arith) found

module _ (digest : Json → String) where
  -- What a successful build computed.
  pub record Built (w : WorkflowSpec) (source : TaskSetSource) (payload : Json) : Type 0 where
    pub stage : StageSpec
    pub materializer : String
    pub workflow_sha : String
    pub stage_sha : String
    pub hash : String
    pub found : workflow_stage w source.stage_index ≡ ok stage
    pub workflow_hashed : workflow_spec_sha256 digest w ≡ ok workflow_sha
    pub stage_hashed : stage_spec_sha256 digest stage ≡ ok stage_sha
    pub valid :
        validate_stage_task_set_record digest
          (obj (document source stage.stage_type materializer workflow_sha stage_sha hash))
        ≡ ok tt
    pub is_document :
        payload ≡ obj (document source stage.stage_type materializer workflow_sha stage_sha hash)

  pub build-Built :
      (w : WorkflowSpec) (source : TaskSetSource) (payload : Json)
      → build_stage_task_set_record digest w source ≡ ok payload
      → Built w source payload
  unfolding build_stage_task_set_record
  build-Built w source payload built =
      let (stage, h1, k1) = >>=-eq-ok (workflow_stage w source.stage_index) _ built in
      let (m, h2, k2) = >>=-eq-ok (derived_task_set_materializer stage.stage_type) _ k1 in
      let (workflow_sha, h3, k3) = >>=-eq-ok (workflow_spec_sha256 digest w) _ k2 in
      let (stage_sha, h4, k4) = >>=-eq-ok (stage_spec_sha256 digest stage) _ k3 in
      let body = record_body source stage.stage_type m workflow_sha stage_sha in
      let (hash, h5, k5) = >>=-eq-ok (task_set_sha256 digest body) _ k4 in
      let these = document source stage.stage_type m workflow_sha stage_sha hash in
      let (h6, k6) = >>-eq-ok (validate_stage_task_set_record digest (obj these)) _ k5 in
      record {
        stage = stage;
        materializer = m;
        workflow_sha = workflow_sha;
        stage_sha = stage_sha;
        hash = hash;
        found = h1;
        workflow_hashed = h3;
        stage_hashed = h4;
        valid = h6;
        is_document = sym (ok-injective TaskSetError {x = obj these} {y = payload} k6);
      }

  -- What validation says of the values that a document shows.
  pub shown :
      (d parent upstream : Fields) (attempt_id : String) (parent_index upstream_index : ℕ)
      → validate_stage_task_set_record digest (obj d) ≡ ok tt
      → get "parent" d ≡ some (obj parent)
      → get "submission_attempt_id" parent ≡ some (str attempt_id)
      → get "stage_index" parent ≡ some (int (pos parent_index))
      → get "upstream_structure" d ≡ some (obj upstream)
      → get "stage_index" upstream ≡ some (int (pos upstream_index))
      → (is_attempt_id (codes attempt_id) ≡ true)
        × (1 ≤ upstream_index)
        × (upstream_index < parent_index)
  shown d parent upstream attempt_id parent_index upstream_index valid p a i u j =
      let c = validate_stage_task_set_record-Consistent digest (obj d) valid in
      let same : d ≡ c.fields = (let o = c.is_object in cc) in
      let same_parent : parent ≡ c.parent = (let o = c.has_parent in cc) in
      let same_upstream : upstream ≡ c.upstream = (let o = c.has_upstream in cc) in
      let same_attempt : c.attempt_id ≡ attempt_id = (let o = c.has_attempt in cc) in
      let same_index : c.parent_index ≡ parent_index = (let o = c.has_index in cc) in
      let same_upstream_index : c.upstream_index ≡ upstream_index =
        (let o = c.has_upstream_index in cc) in
      (
        subst (λ x. is_attempt_id (codes x) ≡ true) same_attempt c.canonical_attempt,
        subst (λ n. 1 ≤ n) same_upstream_index c.first,
        (let e = c.earlier in omega arith),
      )

  post_init-ok :
      (c : Json)
      → validate_stage_task_set_record digest c ≡ ok tt
      → canonical_value c ≡ some c
      → post_init digest c ≡ ok c
  unfolding post_init
  post_init-ok c valid canonical = ground (arith, valid, canonical, json_eq_refl c)

  from_dict-ok :
      (d : Fields) (c : Json)
      → validate_stage_task_set_record digest (obj d) ≡ ok tt
      → canonical_value (obj d) ≡ some c
      → post_init digest c ≡ ok c
      → task_set_from_dict digest (obj d) ≡ ok c
  unfolding task_set_from_dict mapping
  from_dict-ok d c valid canonical inner = ground (arith, valid, canonical, inner)

  -- A built record makes a task set.
  pub from_dict-sorted :
      (source : TaskSetSource) (t : StageType) (m w s hash : String)
      → validate_stage_task_set_record digest (obj (document source t m w s hash)) ≡ ok tt
      → task_set_from_dict digest (obj (document source t m w s hash))
        ≡ ok (obj (sorted_document source t m w s hash))
  from_dict-sorted source t m w s hash valid =
      from_dict-ok (document source t m w s hash) (obj (sorted_document source t m w s hash)) valid
        (canonical-document source t m w s hash)
        (post_init-ok (obj (sorted_document source t m w s hash))
          (validate-sorted digest source t m w s hash ∙ valid)
          (canonical-sorted_document source t m w s hash))
