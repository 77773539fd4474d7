-- ===== src/Execution/Bound.antt =====
-- What a bound attempt is bound to, whichever try of the loop bound it.
use bmd_compute.Prelude.{
  ok-injective, subst, ℕ, zero, suc, ◌-◌, ◌<◌, String, false, not, none, some, any, ok, raise_if,
  >>=-eq-ok, >>-eq-ok, str_eq, eq_iff, ◌≡◌, refl, sym, ap, ◌∙◌, ◌⊎◌, inl, inr, arith, Option-cases,
  Result-cases,
}
use bmd_compute.Execution.Records.{AttemptRecord, AttemptLedger, read, replace, create}
use bmd_compute.Execution.Limits.{
  ExecutionPolicy, ExecutionError, attempt_forbidden, attempt_request_mismatch,
  plan_digest_mismatch, plan_changed, attempt_fingerprint_mismatch, enforce_resource_policy,
}
use bmd_compute.Execution.Submissions.{count}
use bmd_compute.Execution.Caps.{read-id, read-replace}
use bmd_compute.Execution.Bind.{
  ExecutionRequest, Plan, Look, Binding, Planner, authorize_record, new_record, uses_timestamp,
  created_by, planned, bind_known, bind_new, bind_try, bind_tries, bind_attempt,
}

same_text : (a b : String) (e : ExecutionError) → raise_if (not (str_eq a b)) e ≡ ok tt → a ≡ b
same_text a b e h = ground (arith, eq_iff a b)

-- The record belongs to the principal, the request and the plan that the caller expects; and its
-- timestamp makes the planner build the plan again.
pub record BoundTo (planner : Planner) (policy : ExecutionPolicy) (attempt_id principal : String)
    (request : ExecutionRequest) (r : AttemptRecord) (plan : Plan) : Type 0 where
  pub same_attempt : r.attempt_id ≡ attempt_id
  pub same_principal : r.principal ≡ principal
  pub same_request : r.request_sha256 ≡ planner.request_sha256 request
  pub expected_digest : r.plan_digest ≡ request.expected_plan_digest
  pub rebuilds : planner.plan_request request attempt_id r.run_timestamp ≡ ok plan
  pub digests : planner.compute_plan_digest plan ≡ request.expected_plan_digest
  pub same_fingerprint : r.attempt_fingerprint ≡ plan.attempt_fingerprint
  pub within_limits : enforce_resource_policy policy plan.resources ≡ ok tt

module _ (planner : Planner) (policy : ExecutionPolicy) (attempt_id principal : String)
    (request : ExecutionRequest) where
  planned-eq-ok :
      (timestamp : String) (plan : Plan)
      → planned planner policy attempt_id principal request timestamp ≡ ok plan
      → (planner.plan_request request attempt_id timestamp ≡ ok plan)
        × (planner.compute_plan_digest plan ≡ request.expected_plan_digest)
        × (enforce_resource_policy policy plan.resources ≡ ok tt)
  unfolding planned
  planned-eq-ok timestamp plan h =
      let (p, hp, k) = >>=-eq-ok (planner.plan_request request attempt_id timestamp) _ h in
      let digest = planner.compute_plan_digest p in
      let (m, k') =
        >>-eq-ok
          (raise_if (not (str_eq digest request.expected_plan_digest))
            (plan_digest_mismatch digest))
          _ k in
      let (w, k'') = >>-eq-ok (enforce_resource_policy policy p.resources) _ k' in
      let same : p ≡ plan = ok-injective ExecutionError k'' in
      (
        hp ∙ ap (λ x. ok x) same,
        ap planner.compute_plan_digest (sym same)
            ∙ same_text digest request.expected_plan_digest (plan_digest_mismatch digest) m,
        subst (λ (x : Plan). enforce_resource_policy policy x.resources ≡ ok tt) same w,
      )

  abbrev Bound : AttemptRecord → Plan → Type 0
  Bound = BoundTo planner policy attempt_id principal request

  bind_known-Bound :
      (r : AttemptRecord) (b : Binding)
      → r.attempt_id ≡ attempt_id
      → bind_known planner policy attempt_id principal request r ≡ ok b
      → Bound b.bound b.plan × (b.bound ≡ r)
  unfolding bind_known
  bind_known-Bound r b i h =
      let (h1, k1) = >>-eq-ok (authorize_record r principal) _ h in
      let (h2, k2) =
        >>-eq-ok
          (raise_if (not (str_eq r.request_sha256 (planner.request_sha256 request)))
            attempt_request_mismatch)
          _ k1 in
      let (plan, h3, k3) =
        >>=-eq-ok (planned planner policy attempt_id principal request r.run_timestamp) _ k2 in
      let (h4, k4) =
        >>-eq-ok
          (raise_if (not (str_eq r.plan_digest (planner.compute_plan_digest plan))) plan_changed) _
          k3 in
      let (h5, k5) =
        >>-eq-ok
          (raise_if (not (str_eq r.attempt_fingerprint plan.attempt_fingerprint))
            attempt_fingerprint_mismatch)
          _ k4 in
      let (rebuilds, digests, within) = planned-eq-ok r.run_timestamp plan h3 in
      let bound : Bound r plan = record {
        same_attempt = i;
        same_principal = same_text r.principal principal attempt_forbidden h1;
        same_request =
            same_text r.request_sha256 (planner.request_sha256 request) attempt_request_mismatch h2;
        expected_digest =
            same_text r.plan_digest (planner.compute_plan_digest plan) plan_changed h4 ∙ digests;
        rebuilds = rebuilds;
        digests = digests;
        same_fingerprint =
            same_text r.attempt_fingerprint plan.attempt_fingerprint attempt_fingerprint_mismatch
              h5;
        within_limits = within;
      } in
      let same : record { bound = r; plan = plan; written = none } ≡ b =
        ok-injective ExecutionError k5 in
      (
        subst (λ (x : Binding). Bound x.bound x.plan) same bound,
        ap (λ (x : Binding). x.bound) (sym same),
      )

  -- What a try that creates the record finds under the lock.
  pub record CreatedBy (look : Look) (b : Binding) : Type 0 where
    unregistered : read attempt_id look.locked_ledger ≡ none
    own_timestamp : any (uses_timestamp b.bound.run_timestamp) look.locked_ledger ≡ false
    below_cap :
        count (created_by principal (look.now - policy.window)) look.locked_ledger
        < policy.max_new_attempts_per_window
    stored :
        (ledger : AttemptLedger) × (b.written ≡ some ledger)
        × (read attempt_id ledger ≡ some b.bound)

  abbrev record_for : Look → Plan → AttemptRecord
  record_for look plan =
      new_record attempt_id principal look.now (planner.request_sha256 request)
        (planner.compute_plan_digest plan) look.run_timestamp plan

  new_binding :
      (look : Look) (plan : Plan) (b : Binding)
      → planned planner policy attempt_id principal request look.run_timestamp ≡ ok plan
      → bind_new planner policy attempt_id principal request look ≡ ok (some b)
      → (read attempt_id look.locked_ledger ≡ none)
        × (any (uses_timestamp look.run_timestamp) look.locked_ledger ≡ false)
        × (count (created_by principal (look.now - policy.window)) look.locked_ledger
            < policy.max_new_attempts_per_window)
        × (record {
          bound = record_for look plan;
          plan = plan;
          written = some (replace (record_for look plan) look.locked_ledger);
        }
            ≡ b)
  unfolding bind_new create
  new_binding look plan b p h = elim (Option-cases (read attempt_id look.locked_ledger)) [
    | inl e ↦ ground (arith, p, e, h)
    | inr (r, e) ↦ absurd (ground (arith, p, e, h))
  ]

  bind_new-Bound :
      (look : Look) (b : Binding)
      → bind_new planner policy attempt_id principal request look ≡ ok (some b)
      → Bound b.bound b.plan × CreatedBy look b
  unfolding bind_new
  bind_new-Bound look b h =
      let (plan, h1, k1) =
        >>=-eq-ok (planned planner policy attempt_id principal request look.run_timestamp) _ h in
      let (rebuilds, digests, within) = planned-eq-ok look.run_timestamp plan h1 in
      let (unregistered, own, below, same) = new_binding look plan b h1 h in
      let bound : Bound (record_for look plan) plan = record {
        same_attempt = refl;
        same_principal = refl;
        same_request = refl;
        expected_digest = digests;
        rebuilds = rebuilds;
        digests = digests;
        same_fingerprint = refl;
        within_limits = within;
      } in
      (
        subst (λ (x : Binding). Bound x.bound x.plan) same bound,
        subst (CreatedBy look) same (record {
          unregistered = unregistered;
          own_timestamp = own;
          below_cap = below;
          stored = (
            replace (record_for look plan) look.locked_ledger,
            refl,
            read-replace look.locked_ledger (record_for look plan),
          );
        }),
      )

  bind_try-Bound :
      (look : Look) (b : Binding)
      → bind_try planner policy attempt_id principal request look ≡ ok (some b)
      → Bound b.bound b.plan
        × ((read attempt_id look.read_ledger ≡ some b.bound) ⊎ CreatedBy look b)
  unfolding bind_try
  bind_try-Bound look b h = elim (Option-cases (read attempt_id look.read_ledger)) [
    | inl e ↦
        let (bound, created) = bind_new-Bound look b (ground (arith, e, h)) in (bound, inr created)
    | inr (r, e) ↦ elim (Result-cases (bind_known planner policy attempt_id principal request r)) [
      | inl (x, k) ↦
          let same : x ≡ b = ground (arith, e, k, h) in
          let (bound, known) =
            bind_known-Bound r b (read-id attempt_id look.read_ledger r e)
              (k ∙ ap (λ y. ok y) same) in
          (bound, inl (e ∙ ap (λ y. some y) (sym known)))
      | inr (x, k) ↦ absurd (ground (arith, e, k, h))
    ]
  ]

  bind_tries-Bound :
      (n : ℕ) (looks : ℕ → Look) (b : Binding)
      → bind_tries planner policy attempt_id principal request n looks ≡ ok b
      → (k : ℕ) × (k < n)
        × Bound b.bound b.plan
        × ((read attempt_id (looks k).read_ledger ≡ some b.bound) ⊎ CreatedBy (looks k) b)
  unfolding bind_tries
  bind_tries-Bound zero looks b h = cc
  bind_tries-Bound (suc n) looks b h =
      elim (Result-cases (bind_try planner policy attempt_id principal request (looks 0))) [
        | inl (none, e) ↦
            let (k, lt, bound, origin) =
              bind_tries-Bound n (λ i. looks (suc i)) b (ground (arith, e, h)) in
            (suc k, omega (arith, lt), bound, origin)
        | inl (some x, e) ↦
            let same : x ≡ b = ground (arith, e, h) in
            let (bound, origin) = bind_try-Bound (looks 0) b (e ∙ ap (λ y. ok (some y)) same) in
            (0, omega arith, bound, origin)
        | inr (x, e) ↦ absurd (ground (arith, e, h))
      ]

  -- A bound attempt has the caller's attempt id, principal, request digest and expected plan
  -- digest, its timestamp makes the planner rebuild the plan, whose fingerprint it has and whose
  -- resources are within the limits; and one of the five tries either read it from the ledger, or
  -- created it where no record of the attempt and no record with the timestamp existed and the
  -- principal was below its cap.
  pub bind_attempt-Bound :
      (looks : ℕ → Look) (b : Binding)
      → bind_attempt planner policy attempt_id principal request looks ≡ ok b
      → (k : ℕ) × (k < 5)
        × Bound b.bound b.plan
        × ((read attempt_id (looks k).read_ledger ≡ some b.bound) ⊎ CreatedBy (looks k) b)
  unfolding bind_attempt
  bind_attempt-Bound looks b h = bind_tries-Bound 5 looks b h
