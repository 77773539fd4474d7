-- ===== src/TaskSet/Parents.antt =====
-- A built record is verified against the workflow and the attempt it was built for, and against
-- none other.
use bmd_compute.Prelude.{
  ℕ, String, true, not, Option, none, some, ok, subst, ◌≡◌, refl, sym, ap, ◌∙◌, arith, >>=-eq-ok,
  >>-eq-ok, raise_if, raise_if-eq-ok, eq_iff, eq_refl,
}
use bmd_compute.Prelude.Text.{codes}
use bmd_compute.Model.{
  StageSpec, WorkflowSpec, Json, null, bool, int, float, str, arr, obj, pos, Fields, field, end,
  get,
}
use bmd_compute.Serialisation.{stage_type_value}
use bmd_compute.TaskSet.Values.{
  TaskSetError, attempt_id_of, is_attempt_id, is_text, mapping, other_attempt, other_workflow,
}
use bmd_compute.TaskSet.Validation.{stage_spec_sha256, workflow_spec_sha256}
use bmd_compute.TaskSet.Build.{
  workflow_stage, TaskSetSource, build_stage_task_set_record, task_set_from_dict,
  verify_stage_task_set_parent,
}
use bmd_compute.TaskSet.Sorted.{sorted_document}
use bmd_compute.TaskSet.Verified.{validate-sorted}
use bmd_compute.TaskSet.Built.{workflow_stage-earlier, Built, build-Built, shown, from_dict-sorted}

is_text-eq :
    (expected : String) (o : Option Json) → is_text expected o ≡ true → o ≡ some (str expected)
is_text-eq expected (some (str s)) same = ap (λ x. some (str x)) ((eq_iff s expected).0 same)
is_text-eq expected (some null) same = cc
is_text-eq expected (some (bool b)) same = cc
is_text-eq expected (some (int n)) same = cc
is_text-eq expected (some (float f)) same = cc
is_text-eq expected (some (arr items)) same = cc
is_text-eq expected (some (obj d)) same = cc
is_text-eq expected none same = cc

is_text-required :
    (expected : String) (error : TaskSetError) {o : Option Json}
    → raise_if (not (is_text expected o)) error ≡ ok tt
    → o ≡ some (str expected)
is_text-required expected error {o} passed =
    is_text-eq expected o
      (let h = raise_if-eq-ok (not (is_text expected o)) error passed in ground arith)

mapping-some :
    (o : Option Json) (found d : Fields)
    → mapping o "parent" ≡ ok found
    → o ≡ some (obj d)
    → found ≡ d
unfolding mapping
mapping-some o found d mapped is_object = ground (arith, mapped, is_object)

module _ (digest : Json → String) where
  -- What the fields of a record say of a workflow and an attempt.
  record Belongs (r : Fields) (w : WorkflowSpec) (attempt_id : String) : Type 0 where
    parent : Fields
    upstream : Fields
    stage : StageSpec
    earlier_stage : StageSpec
    parent_index : ℕ
    upstream_index : ℕ
    workflow_sha : String
    stage_sha : String
    has_parent : get "parent" r ≡ some (obj parent)
    has_attempt : get "submission_attempt_id" parent ≡ some (str attempt_id)
    is_attempt : is_attempt_id (codes attempt_id) ≡ true
    has_workflow : get "workflow_sha256" parent ≡ some (str workflow_sha)
    workflow_hashed : workflow_spec_sha256 digest w ≡ ok workflow_sha
    has_index : get "stage_index" parent ≡ some (int (pos parent_index))
    found : workflow_stage w parent_index ≡ ok stage
    has_type : get "stage_type" parent ≡ some (str (stage_type_value stage.stage_type))
    has_stage : get "stage_sha256" parent ≡ some (str stage_sha)
    stage_hashed : stage_spec_sha256 digest stage ≡ ok stage_sha
    has_upstream : get "upstream_structure" r ≡ some (obj upstream)
    has_upstream_index : get "stage_index" upstream ≡ some (int (pos upstream_index))
    earlier_found : workflow_stage w upstream_index ≡ ok earlier_stage

  verify-Belongs :
      (r : Fields) (w : WorkflowSpec) (attempt_id : String)
      → Belongs r w attempt_id
      → verify_stage_task_set_parent digest (obj r) w attempt_id ≡ ok tt
  unfolding verify_stage_task_set_parent mapping attempt_id_of
  verify-Belongs r w attempt_id b =
      rw
        (
          b.has_parent,
          b.is_attempt,
          b.has_attempt,
          eq_refl attempt_id,
          b.workflow_hashed,
          b.has_workflow,
          eq_refl b.workflow_sha,
          b.has_index,
          b.found,
          b.has_type,
          eq_refl (stage_type_value b.stage.stage_type),
          b.stage_hashed,
          b.has_stage,
          eq_refl b.stage_sha,
          b.has_upstream,
          b.has_upstream_index,
          b.earlier_found,
        )
        refl

  -- What an accepted verification found.
  verify-eq-ok :
      (r parent : Fields) (w : WorkflowSpec) (attempt_id : String)
      → verify_stage_task_set_parent digest (obj r) w attempt_id ≡ ok tt
      → get "parent" r ≡ some (obj parent)
      → (get "submission_attempt_id" parent ≡ some (str attempt_id))
        × (workflow_sha : String) × (workflow_spec_sha256 digest w ≡ ok workflow_sha)
        × (get "workflow_sha256" parent ≡ some (str workflow_sha))
  unfolding verify_stage_task_set_parent mapping attempt_id_of
  verify-eq-ok r parent w attempt_id verified has_parent =
      let (found, h1, k1) = >>=-eq-ok (mapping (get "parent" r) "parent") _ verified in
      let same : found ≡ parent = mapping-some (get "parent" r) found parent h1 has_parent in
      let (attempt, h2, k2) = >>=-eq-ok (attempt_id_of (some (str attempt_id))) _ k1 in
      let (h3, k3) =
        >>-eq-ok
          (raise_if (not (is_text attempt (get "submission_attempt_id" found))) other_attempt) _
          k2 in
      let (workflow_sha, h4, k4) = >>=-eq-ok (workflow_spec_sha256 digest w) _ k3 in
      let (h5, k5) =
        >>-eq-ok
          (raise_if (not (is_text workflow_sha (get "workflow_sha256" found))) other_workflow) _
          k4 in
      let equal : attempt ≡ attempt_id = ground (arith, h2) in
      (
        is_text-required attempt_id other_attempt (
            subst
              (λ x.
                raise_if (not (is_text x (get "submission_attempt_id" parent))) other_attempt
                ≡ ok tt)
              equal
              (subst
                (λ x.
                  raise_if (not (is_text attempt (get "submission_attempt_id" x))) other_attempt
                  ≡ ok tt)
                same h3)),
        workflow_sha,
        h4,
        is_text-required workflow_sha other_workflow (
            subst
              (λ x.
                raise_if (not (is_text workflow_sha (get "workflow_sha256" x))) other_workflow
                ≡ ok tt)
              same h5),
      )

  -- The parent and the upstream structure of a sorted record.
  abbrev parent_of :
      (w : WorkflowSpec) (source : TaskSetSource) (payload : Json)
      → Built digest w source payload
      → Fields
  parent_of w source payload b = field "stage_index" (int (pos source.stage_index)) (
      field "stage_sha256" (str b.stage_sha) (
        field "stage_type" (str (stage_type_value b.stage.stage_type)) (
          field "submission_attempt_id" (str source.submission_attempt_id)
            (field "workflow_sha256" (str b.workflow_sha) end))))

  abbrev upstream_of : TaskSetSource → Fields
  upstream_of source =
      field "sha256" (str source.upstream_structure_sha256)
        (field "stage_index" (int (pos source.upstream_stage_index)) end)

  abbrev sorted_of :
      (w : WorkflowSpec) (source : TaskSetSource) (payload : Json)
      → Built digest w source payload
      → Fields
  sorted_of w source payload b =
      sorted_document source b.stage.stage_type b.materializer b.workflow_sha b.stage_sha b.hash

  build-Belongs :
      (w : WorkflowSpec) (source : TaskSetSource) (payload : Json)
      (b : Built digest w source payload)
      → Belongs (sorted_of w source payload b) w source.submission_attempt_id
  build-Belongs w source payload b =
      let (is_attempt, first, earlier) =
        shown digest (sorted_of w source payload b) (parent_of w source payload b)
          (upstream_of source) source.submission_attempt_id source.stage_index
          source.upstream_stage_index
          (validate-sorted digest source b.stage.stage_type b.materializer b.workflow_sha
              b.stage_sha b.hash
            ∙ b.valid)
          refl refl refl refl refl in
      let (earlier_stage, earlier_found) =
        workflow_stage-earlier w source.upstream_stage_index source.stage_index first earlier
          b.found in
      record {
        parent = parent_of w source payload b;
        upstream = upstream_of source;
        stage = b.stage;
        earlier_stage = earlier_stage;
        parent_index = source.stage_index;
        upstream_index = source.upstream_stage_index;
        workflow_sha = b.workflow_sha;
        stage_sha = b.stage_sha;
        has_parent = refl;
        has_attempt = refl;
        is_attempt = is_attempt;
        has_workflow = refl;
        workflow_hashed = b.workflow_hashed;
        has_index = refl;
        found = b.found;
        has_type = refl;
        has_stage = refl;
        stage_hashed = b.stage_hashed;
        has_upstream = refl;
        has_upstream_index = refl;
        earlier_found = earlier_found;
      }

  -- A record that belongs to a workflow and an attempt is verified against no other.
  verify-only :
      (r : Fields) (w other : WorkflowSpec) (own attempt_id : String)
      → Belongs r w own
      → verify_stage_task_set_parent digest (obj r) other attempt_id ≡ ok tt
      → (attempt_id ≡ own) × (workflow_spec_sha256 digest other ≡ workflow_spec_sha256 digest w)
  verify-only r w other own attempt_id b verified =
      let (has_attempt, sha, hashed, has_sha) =
        verify-eq-ok r b.parent other attempt_id verified b.has_parent in
      let same_attempt : attempt_id ≡ own = (let h = b.has_attempt in cc) in
      let same_sha : sha ≡ b.workflow_sha = (let h = b.has_workflow in cc) in
      (same_attempt, hashed ∙ ap ok same_sha ∙ sym b.workflow_hashed)

  -- A task-set record that was built for a stage of a workflow makes a task set, which is verified
  -- against that workflow and submission attempt; and whatever workflow and attempt it is verified
  -- against, the attempt is that one and the workflow has the same hash.
  pub build-verifies :
      (w : WorkflowSpec) (source : TaskSetSource) (payload : Json)
      → build_stage_task_set_record digest w source ≡ ok payload
      → (task_set : Json) × (task_set_from_dict digest payload ≡ ok task_set)
        × (verify_stage_task_set_parent digest task_set w source.submission_attempt_id ≡ ok tt)
        × ((other : WorkflowSpec) (attempt_id : String)
            → verify_stage_task_set_parent digest task_set other attempt_id ≡ ok tt
            → (attempt_id ≡ source.submission_attempt_id)
              × (workflow_spec_sha256 digest other ≡ workflow_spec_sha256 digest w))
  build-verifies w source payload built =
      let b = build-Built digest w source payload built in
      let belongs = build-Belongs w source payload b in
      (
        obj (sorted_of w source payload b),
        subst (λ p. task_set_from_dict digest p ≡ ok (obj (sorted_of w source payload b)))
            (sym b.is_document)
            (from_dict-sorted digest source b.stage.stage_type b.materializer b.workflow_sha
              b.stage_sha b.hash b.valid),
        verify-Belongs (sorted_of w source payload b) w source.submission_attempt_id belongs,
        λ other attempt_id verified.
            verify-only (sorted_of w source payload b) w other source.submission_attempt_id
              attempt_id belongs verified,
      )
