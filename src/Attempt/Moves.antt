-- ===== src/Attempt/Moves.antt =====
-- One step of one request keeps what the request relies on, and the account of the jobs.
use bmd_compute.Prelude.{
  ℕ, zero, suc, ◌+◌, ◌≤◌, String, true, false, List, [], ◌∷◌, ok, ◌≡◌, refl, arith, eq_iff,
  Result-cases, inl, inr,
}
use bmd_compute.Attempt.Host.{
  AttemptState, StateFile, absent, no_fields, unreadable, recorded, Job, Host, SubmissionSpec,
  Reply, ensure_matches, require_existing, require_preparable,
}
use bmd_compute.Attempt.Client.{
  Point, submit_preflight, submit_reads, submit_claims, submit_rechecks, submit_marks,
  submit_runs_sbatch, submit_reverts, submit_flags, submit_records, prepare_preflight,
  prepare_checks, prepare_claims, prepare_rechecks, prepare_uploads, prepare_reads, prepare_writes,
  waits, releases, finished, advance,
}
use bmd_compute.Attempt.Schedule.{Documented}
use bmd_compute.Attempt.Invariant.{holds_claim, one_if, NoJob, Closed, Accounted, Bound, Relies}

matches_fingerprint :
    (spec : SubmissionSpec) (s : AttemptState)
    → ensure_matches spec s ≡ ok tt
    → s.fingerprint ≡ spec.submission_attempt_fingerprint
unfolding ensure_matches
matches_fingerprint spec s h =
    ground (arith, eq_iff s.fingerprint spec.submission_attempt_fingerprint)

pub require_existing-eq-ok :
    (spec : SubmissionSpec) (file : StateFile) (s : AttemptState)
    → require_existing spec file ≡ ok s
    → (file ≡ recorded s) × (s.fingerprint ≡ spec.submission_attempt_fingerprint)
unfolding require_existing
require_existing-eq-ok spec absent s h = cc
require_existing-eq-ok spec no_fields s h = cc
require_existing-eq-ok spec unreadable s h = cc
require_existing-eq-ok spec (recorded t) s h = elim (Result-cases (ensure_matches spec t)) [
  | inl (_, e) ↦ ground (arith, e, matches_fingerprint spec t e)
  | inr (x, e) ↦ absurd (ground (arith, e))
]

pub require_preparable-Bound :
    (spec : SubmissionSpec) (file : StateFile)
    → require_preparable spec file ≡ ok tt
    → Bound spec.submission_attempt_fingerprint file
      × ((job : Job) → Closed job file → true ≡ false)
unfolding require_preparable
require_preparable-Bound spec absent h = (tt, λ job k. k)
require_preparable-Bound spec no_fields h = (tt, λ job k. k)
require_preparable-Bound spec unreadable h = cc
require_preparable-Bound spec (recorded t) h = elim (Result-cases (ensure_matches spec t)) [
  | inl (_, e) ↦ (ground (arith, e, matches_fingerprint spec t e), λ job k. ground (arith, e))
  | inr (x, e) ↦ absurd (ground (arith, e))
]

no_job :
    (jobs : List Job) (file : StateFile)
    → Accounted jobs file
    → ((job : Job) → Closed job file → true ≡ false)
    → NoJob jobs
no_job [] file a k = tt
no_job (job ∷ []) file a k = k job a
no_job (i ∷ j ∷ jobs) file a k = a

pub move-lock :
    (r : Reply) (id : String) (spec : SubmissionSpec) (polls : ℕ) (p : Point) (h : Host) (n : ℕ)
    → one_if (holds_claim p) + n ≤ one_if h.attempt_lock
    → one_if (holds_claim (advance r id spec polls p h).1) + n
      ≤ one_if (advance r id spec polls p h).0.attempt_lock
unfolding advance
move-lock r id spec polls submit_preflight h n a = ground arith
move-lock r id spec polls submit_reads h n a = ground arith
move-lock r id spec polls submit_claims h n a = ground arith
move-lock r id spec polls submit_rechecks h n a = ground arith
move-lock r id spec polls submit_marks h n a = ground arith
move-lock r id spec polls submit_runs_sbatch h n a = ground arith
move-lock r id spec polls submit_reverts h n a = ground arith
move-lock r id spec polls submit_flags h n a = ground arith
move-lock r id spec polls (submit_records job) h n a = ground arith
move-lock r id spec polls prepare_preflight h n a = ground arith
move-lock r id spec polls prepare_checks h n a = ground arith
move-lock r id spec polls prepare_claims h n a = ground arith
move-lock r id spec polls prepare_rechecks h n a = ground arith
move-lock r id spec polls prepare_uploads h n a = ground arith
move-lock r id spec polls prepare_reads h n a = ground arith
move-lock r id spec polls prepare_writes h n a = ground arith
move-lock r id spec polls (waits last zero) h n a = a
move-lock r id spec polls (waits last (suc k)) h n a = ground arith
move-lock r id spec polls (releases v) h n a = ground arith
move-lock r id spec polls (finished v) h n a = a

pub move-Relies :
    (r : Reply) (id : String) (spec : SubmissionSpec) (polls : ℕ) (p : Point) (h : Host)
    → Documented r
    → Accounted h.jobs h.state_file
    → Relies spec.submission_attempt_fingerprint p h
    → Accounted (advance r id spec polls p h).0.jobs (advance r id spec polls p h).0.state_file
      × Relies spec.submission_attempt_fingerprint
          (advance r id spec polls p h).1
          (advance r id spec polls p h).0
unfolding advance
move-Relies r id spec polls submit_preflight h d a k = ground arith
move-Relies r id spec polls submit_reads h d a k = ground arith
move-Relies r id spec polls submit_claims h d a k = ground arith
move-Relies r id spec polls submit_rechecks h d a k =
    elim (Result-cases (require_existing spec h.state_file)) [
      | inl (s, e) ↦ ground (arith, e, require_existing-eq-ok spec h.state_file s e)
      | inr (x, e) ↦ ground (arith, e)
    ]
move-Relies r id spec polls submit_marks h d a k = ground arith
move-Relies r id spec polls submit_runs_sbatch h d a k = ground arith
move-Relies r id spec polls submit_reverts h d a k = ground arith
move-Relies r id spec polls submit_flags h d a k = ground arith
move-Relies r id spec polls (submit_records job) h d a k = ground arith
move-Relies r id spec polls prepare_preflight h d a k = ground arith
move-Relies r id spec polls prepare_checks h d a k = ground arith
move-Relies r id spec polls prepare_claims h d a k = ground arith
move-Relies r id spec polls prepare_rechecks h d a k =
    elim (Result-cases (require_preparable spec h.state_file)) [
      | inl (s, e) ↦
          let (bound, closed) = require_preparable-Bound spec h.state_file e in
          ground (arith, e, bound, no_job h.jobs h.state_file a closed)
      | inr (x, e) ↦ ground (arith, e)
    ]
move-Relies r id spec polls prepare_uploads h d a k = ground arith
move-Relies r id spec polls prepare_reads h d a k = ground arith
move-Relies r id spec polls prepare_writes h d a k = ground arith
move-Relies r id spec polls (waits last zero) h d a k = (a, tt)
move-Relies r id spec polls (waits last (suc n)) h d a k = ground arith
move-Relies r id spec polls (releases v) h d a k = ground arith
move-Relies r id spec polls (finished v) h d a k = (a, tt)

-- A request without the lock changes neither the jobs nor the state file.
pub move-quiet :
    (r : Reply) (id : String) (spec : SubmissionSpec) (polls : ℕ) (p : Point) (h : Host)
    → holds_claim p ≡ false
    → ((advance r id spec polls p h).0.jobs ≡ h.jobs)
      × ((advance r id spec polls p h).0.state_file ≡ h.state_file)
unfolding advance
move-quiet r id spec polls submit_claims h q = ground arith
move-quiet r id spec polls prepare_claims h q = ground arith
move-quiet r id spec polls (waits last zero) h q = (refl, refl)
move-quiet r id spec polls (waits last (suc n)) h q = (refl, refl)
move-quiet r id spec polls p h q = ground arith
