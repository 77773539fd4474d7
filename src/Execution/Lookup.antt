-- ===== src/Execution/Lookup.antt =====
-- A lookup answers for the principal's own attempt only.
use bmd_compute.Prelude.{
  ℕ, String, Option, none, some, ok, >>=-eq-ok, >>-eq-ok, ok-injective, eq_iff, ◌≡◌, sym, ap, subst,
  ◌∙◌, inl, inr, arith, Bool-cases, Option-cases,
}
use bmd_compute.Execution.Records.{AttemptRecord, AttemptLedger, read}
use bmd_compute.Execution.Limits.{ExecutionError}
use bmd_compute.Execution.Submissions.{RemoteState}
use bmd_compute.Execution.Caps.{read-id}
use bmd_compute.Execution.Bind.{authorize_record}
use bmd_compute.Execution.Refresh.{Cluster, require_state_matches}
use bmd_compute.Execution.Execute.{lookup_attempt, found, looked_up, is_attempt_state}
use bmd_compute.Execution.Updates.{
  SameBinding, same_binding, SameBinding-trans, record_remote_state-Updates,
  refresh_scheduler-SameBinding,
}

looked_up-SameBinding :
    (cluster : Cluster) (now : ℕ) (id : String) (ledger : AttemptLedger) (old : AttemptRecord)
    (s : Option RemoteState) (x : AttemptRecord × AttemptLedger)
    → read id ledger ≡ some old
    → looked_up cluster now id ledger old s ≡ ok x
    → SameBinding old x.0 × (read id x.1 ≡ some x.0)
looked_up-SameBinding cluster now id ledger old none x e h =
    let same = ok-injective ExecutionError h in
    subst (λ (y : AttemptRecord × AttemptLedger). SameBinding old y.0 × (read id y.1 ≡ some y.0))
      same (same_binding old, e)
looked_up-SameBinding cluster now id ledger old (some s) x e h =
    let (_, k) = >>-eq-ok (require_state_matches s old) _ h in
    elim (Bool-cases (is_attempt_state s.state)) [
      | inl on ↦
          let u =
            record_remote_state-Updates now id (some s) ledger x.1 x.0 (ground (arith, on, k)) in
          let same : old ≡ u.before = ground (arith, e, u.was) in
          (subst (λ y. SameBinding y x.0) (sym same) u.binding, u.is_now)
      | inr off ↦
          let same : (old, ledger) ≡ x = ok-injective ExecutionError (ground (arith, off, k)) in
          subst
            (λ (y : AttemptRecord × AttemptLedger). SameBinding old y.0 × (read id y.1 ≡ some y.0))
            same (same_binding old, e)
    ]

-- A lookup that succeeds answers for a record of the principal that the ledger had, and its answer
-- has the same attempt id, principal, request, plan, fingerprint, timestamp and creation time.
pub lookup_attempt-SameBinding :
    (cluster : Cluster) (now : ℕ) (principal id : String) (ledger ledger' : AttemptLedger)
    (r : AttemptRecord)
    → lookup_attempt cluster now principal id ledger ≡ ok (r, ledger')
    → (old : AttemptRecord) × (read id ledger ≡ some old)
      × (old.principal ≡ principal)
      × SameBinding old r
unfolding lookup_attempt
lookup_attempt-SameBinding cluster now principal id ledger ledger' r h =
    elim (Option-cases (read id ledger)) [
      | inl e ↦ absurd (ground (arith, e, h))
      | inr (old, e) ↦
          let h0 : found cluster now principal id ledger (some old) ≡ ok (r, ledger') =
            ap (λ o. found cluster now principal id ledger o) (sym e) ∙ h in
          let (own, h1) = >>-eq-ok (authorize_record old principal) _ h0 in
          let (s, _, h2) = >>=-eq-ok (cluster.read_remote_attempt_state old) _ h1 in
          let (x, hx, h3) = >>=-eq-ok (looked_up cluster now id ledger old s) _ h2 in
          let (k, there) = looked_up-SameBinding cluster now id ledger old s x e hx in
          let at : read x.0.attempt_id x.1 ≡ some x.0 =
            ap (λ i. read i x.1) (k.same_id ∙ read-id id ledger old e) ∙ there in
          (
            old,
            e,
            ground (arith, own, eq_iff old.principal principal),
            SameBinding-trans k (
                refresh_scheduler-SameBinding cluster now x.0 r x.1 ledger' x.0 at
                  (same_binding x.0) h3),
          )
    ]
