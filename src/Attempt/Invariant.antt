-- ===== src/Attempt/Invariant.antt =====
-- What holds of the host and of every request between the steps.
use bmd_compute.Prelude.{
  ℕ, ◌+◌, ◌≤◌, String, Bool, true, false, Option, some, List, [], ◌∷◌, All, ◌≡◌,
}
use bmd_compute.Attempt.Host.{
  AttemptPhase, prepared, submitting, submitted, other_phase, StateFile, absent, no_fields,
  unreadable, recorded, Job, Host,
}
use bmd_compute.Attempt.Client.{
  Client, Point, submit_rechecks, submit_marks, submit_runs_sbatch, submit_reverts, submit_flags,
  submit_records, prepare_rechecks, prepare_uploads, prepare_reads, prepare_writes, releases,
}
use bmd_compute.Attempt.Schedule.{World}

-- The operations between the claim and the release of the lock.
abbrev pub holds_claim : Point → Bool
holds_claim submit_rechecks = true
holds_claim submit_marks = true
holds_claim submit_runs_sbatch = true
holds_claim submit_reverts = true
holds_claim submit_flags = true
holds_claim (submit_records _) = true
holds_claim prepare_rechecks = true
holds_claim prepare_uploads = true
holds_claim prepare_reads = true
holds_claim prepare_writes = true
holds_claim (releases _) = true
holds_claim _ = false

abbrev pub one_if : Bool → ℕ
one_if true = 1
one_if false = 0

-- How many requests hold the lock.
abbrev pub holders : List Client → ℕ
holders [] = 0
holders (c ∷ clients) = one_if (holds_claim c.point) + holders clients

abbrev PhaseRecords : Job → Option String → String → AttemptPhase → Type 0
PhaseRecords job id fingerprint prepared = true ≡ false
PhaseRecords job id fingerprint submitting = Unit
PhaseRecords job id fingerprint submitted = (id ≡ some job.job_id) × (fingerprint ≡ job.fingerprint)
PhaseRecords job id fingerprint (other_phase _) = true ≡ false

-- A state file with which the attempt is not submitted again.
abbrev pub Closed : Job → StateFile → Type 0
Closed job absent = true ≡ false
Closed job no_fields = true ≡ false
Closed job unreadable = Unit
Closed job (recorded s) = PhaseRecords job s.job_id s.fingerprint s.phase

abbrev NotSubmitted : AttemptPhase → Type 0
NotSubmitted submitted = true ≡ false
NotSubmitted _ = Unit

abbrev pub Open : StateFile → Type 0
Open (recorded s) = NotSubmitted s.phase
Open _ = Unit

-- The state file accounts for the jobs: at most one was queued.
abbrev pub Accounted : List Job → StateFile → Type 0
Accounted [] file = Open file
Accounted (job ∷ []) file = Closed job file
Accounted _ file = true ≡ false

-- The state file is missing, or a request's own.
abbrev pub Bound : String → StateFile → Type 0
Bound fingerprint (recorded s) = s.fingerprint ≡ fingerprint
Bound fingerprint unreadable = true ≡ false
Bound fingerprint _ = Unit

abbrev MarkedPhase : String → AttemptPhase → Type 0
MarkedPhase fingerprint submitting = Unit
MarkedPhase fingerprint _ = true ≡ false

abbrev pub Marked : String → StateFile → Type 0
Marked fingerprint (recorded s) = (s.fingerprint ≡ fingerprint) × MarkedPhase fingerprint s.phase
Marked fingerprint _ = true ≡ false

abbrev pub NoJob : List Job → Type 0
NoJob [] = Unit
NoJob _ = true ≡ false

abbrev pub OnlyJob : String → String → List Job → Type 0
OnlyJob id fingerprint (job ∷ []) = (job.job_id ≡ id) × (job.fingerprint ≡ fingerprint)
OnlyJob id fingerprint _ = true ≡ false

-- What a request relies on while it holds the lock.
abbrev pub Relies : String → Point → Host → Type 0
Relies fp submit_marks h = NoJob h.jobs × Bound fp h.state_file
Relies fp submit_runs_sbatch h = NoJob h.jobs × Marked fp h.state_file
Relies fp submit_reverts h = NoJob h.jobs × Marked fp h.state_file
Relies fp submit_flags h = Marked fp h.state_file
Relies fp (submit_records id) h = OnlyJob id fp h.jobs × Marked fp h.state_file
Relies fp prepare_uploads h = NoJob h.jobs × Bound fp h.state_file
Relies fp prepare_reads h = NoJob h.jobs × Bound fp h.state_file
Relies fp prepare_writes h = NoJob h.jobs × Bound fp h.state_file
Relies fp _ h = Unit

abbrev pub Relying : Host → Client → Type 0
Relying h c = Relies c.spec.submission_attempt_fingerprint c.point h

pub record Sound (w : World) : Type 0 where
  pub exclusive : holders w.clients ≤ one_if w.host.attempt_lock
  pub accounted : Accounted w.host.jobs w.host.state_file
  pub relying : All (Relying w.host) w.clients
