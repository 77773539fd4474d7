-- ===== src/Execution/Updates.antt =====
-- What the ledger's updates keep of a record.
use bmd_compute.Prelude.{
  ℕ, String, false, Option, some, ok, str_eq, eq_iff, ◌≡◌, ◌≢◌, refl, sym, ap, subst, ◌∙◌, inl, inr,
  arith, Option-cases,
}
use bmd_compute.Execution.Records.{AttemptRecord, AttemptLedger, read, replace}
use bmd_compute.Execution.Submissions.{
  RemoteState, update_record, with_remote_state, record_remote_state,
}
use bmd_compute.Execution.Caps.{read-id, read-replace, read-replace_other}
use bmd_compute.Execution.Refresh.{Cluster, refresh_scheduler, with_scheduler}

-- What binds an attempt to its principal, its request and its plan.
pub record SameBinding (r r' : AttemptRecord) : Type 0 where
  pub same_id : r'.attempt_id ≡ r.attempt_id
  pub same_principal : r'.principal ≡ r.principal
  pub same_request : r'.request_sha256 ≡ r.request_sha256
  pub same_digest : r'.plan_digest ≡ r.plan_digest
  pub same_fingerprint : r'.attempt_fingerprint ≡ r.attempt_fingerprint
  pub same_timestamp : r'.run_timestamp ≡ r.run_timestamp
  pub same_creation : r'.created_at ≡ r.created_at

with_remote_state-SameBinding :
    (now : ℕ) (s : Option RemoteState) (r : AttemptRecord)
    → SameBinding r (with_remote_state now s r)
unfolding with_remote_state
with_remote_state-SameBinding now s r = record {
  same_id = ground arith;
  same_principal = ground arith;
  same_request = ground arith;
  same_digest = ground arith;
  same_fingerprint = ground arith;
  same_timestamp = ground arith;
  same_creation = ground arith;
}

abbrev pub same_binding : (r : AttemptRecord) → SameBinding r r
same_binding r = record {
  same_id = refl;
  same_principal = refl;
  same_request = refl;
  same_digest = refl;
  same_fingerprint = refl;
  same_timestamp = refl;
  same_creation = refl;
}

-- An update changes the one record, and not what binds it.
pub record Updates (id : String) (ledger ledger' : AttemptLedger) (r' : AttemptRecord)
    : Type 0 where
  pub before : AttemptRecord
  pub was : read id ledger ≡ some before
  pub binding : SameBinding before r'
  pub is_now : read id ledger' ≡ some r'
  pub others : (other : String) → id ≢ other → read other ledger' ≡ read other ledger

differs_text : (x y : String) → x ≢ y → str_eq x y ≡ false
differs_text x y h = ground (arith, eq_iff x y, h)

update_record-Updates :
    (now : ℕ) (id : String) (mutate : AttemptRecord → AttemptRecord)
    (ledger ledger' : AttemptLedger) (r' : AttemptRecord)
    → ((r : AttemptRecord) → SameBinding r (mutate r))
    → update_record now id mutate ledger ≡ ok (r', ledger')
    → Updates id ledger ledger' r'
unfolding update_record
update_record-Updates now id mutate ledger ledger' r' keeps h =
    elim (Option-cases (read id ledger)) [
      | inl e ↦ absurd (ground (arith, e, h))
      | inr (r, e) ↦
          let k = keeps r in
          let x = record (mutate r) { updated_at = now } in
          let same : x ≡ r' = ground (arith, e, h) in
          let same_ledger : replace x ledger ≡ ledger' = ground (arith, e, h) in
          let own : x.attempt_id ≡ id = k.same_id ∙ read-id id ledger r e in
          record {
            before = r;
            was = e;
            binding = subst (SameBinding r) same (record {
              same_id = k.same_id;
              same_principal = k.same_principal;
              same_request = k.same_request;
              same_digest = k.same_digest;
              same_fingerprint = k.same_fingerprint;
              same_timestamp = k.same_timestamp;
              same_creation = k.same_creation;
            });
            is_now =
                ap (λ l. read id l) (sym same_ledger)
                ∙ ap (λ i. read i (replace x ledger)) (sym own)
                ∙ read-replace ledger x
                ∙ ap (λ y. some y) same;
            others = λ other d.
                ap (λ l. read other l) (sym same_ledger)
                ∙ read-replace_other ledger x other
                    (ap (λ i. str_eq i other) own ∙ differs_text id other d);
          }
    ]

-- Recording a remote state changes the one record, not what binds it to its principal, request and
-- plan, and leaves every other record as it was.
pub record_remote_state-Updates :
    (now : ℕ) (id : String) (s : Option RemoteState) (ledger ledger' : AttemptLedger)
    (r' : AttemptRecord)
    → record_remote_state now id s ledger ≡ ok (r', ledger')
    → Updates id ledger ledger' r'
unfolding record_remote_state
record_remote_state-Updates now id s ledger ledger' r' h =
    update_record-Updates now id (with_remote_state now s) ledger ledger' r'
      (with_remote_state-SameBinding now s) h

pub SameBinding-trans :
    {r s t : AttemptRecord} → SameBinding r s → SameBinding s t → SameBinding r t
SameBinding-trans k l = record {
  same_id = l.same_id ∙ k.same_id;
  same_principal = l.same_principal ∙ k.same_principal;
  same_request = l.same_request ∙ k.same_request;
  same_digest = l.same_digest ∙ k.same_digest;
  same_fingerprint = l.same_fingerprint ∙ k.same_fingerprint;
  same_timestamp = l.same_timestamp ∙ k.same_timestamp;
  same_creation = l.same_creation ∙ k.same_creation;
}

scheduled_binding :
    (cluster : Cluster) (now : ℕ) (r : AttemptRecord) (job : String) (stored : AttemptRecord)
    → SameBinding stored (with_scheduler cluster now r job stored)
scheduled_binding cluster now r job stored = record {
  same_id = refl;
  same_principal = refl;
  same_request = refl;
  same_digest = refl;
  same_fingerprint = refl;
  same_timestamp = refl;
  same_creation = refl;
}

pub refresh_scheduler-SameBinding :
    (cluster : Cluster) (now : ℕ) (r r' : AttemptRecord) (ledger ledger' : AttemptLedger)
    (stored : AttemptRecord)
    → read r.attempt_id ledger ≡ some stored
    → SameBinding r stored
    → refresh_scheduler cluster now r ledger ≡ ok (r', ledger')
    → SameBinding r r'
unfolding refresh_scheduler
refresh_scheduler-SameBinding cluster now r r' ledger ledger' stored e k h =
    elim (Option-cases r.submission.job_id) [
      | inl none_yet ↦
          let same : r ≡ r' = ground (arith, none_yet, h) in
          subst (SameBinding r) same (same_binding r)
      | inr (job, some_job) ↦
          let updated : update_record now r.attempt_id (with_scheduler cluster now r job) ledger
              ≡ ok (r', ledger') =
            ground (arith, some_job, h) in
          let u =
            update_record-Updates now r.attempt_id (with_scheduler cluster now r job) ledger ledger'
              r' (scheduled_binding cluster now r job) updated in
          let same : stored ≡ u.before = ground (arith, e, u.was) in
          SameBinding-trans k (subst (λ x. SameBinding x r') (sym same) u.binding)
    ]
