-- ===== src/Attempt/Progress.antt =====
-- Every request ends, and a request that runs alone gets its job.
use bmd_compute.Prelude.{
  ℕ, zero, suc, ◌+◌, ◌<◌, String, Bool, true, false, Option, none, some, List, [], ◌∷◌, ok, ◌≡◌,
  refl, ◌⊎◌, arith, eq_refl, inr,
}
use bmd_compute.Attempt.Host.{
  remote_execution_error, AttemptPhase, prepared, submitted, StateFile, absent, recorded, Job, Host,
  SubmissionSpec, Reply, done, refused, ensure_matches, require_existing, require_preparable,
  writes_prepared, new_state,
}
use bmd_compute.Attempt.Schedule.{run_alone}
use bmd_compute.Attempt.Client.{
  dry_run, job_submitted, failed, already_submitted, Point, submit_preflight, submit_reads,
  submit_claims, submit_rechecks, submit_marks, submit_runs_sbatch, submit_reverts, submit_flags,
  submit_records, prepare_preflight, prepare_checks, prepare_claims, prepare_rechecks,
  prepare_uploads, prepare_reads, prepare_writes, waits, releases, finished, advance,
}

-- How many operations a request has left at most.
abbrev pub operations_left : ℕ → Point → ℕ
operations_left polls submit_preflight = polls + 10
operations_left polls submit_reads = polls + 9
operations_left polls submit_claims = polls + 8
operations_left polls submit_rechecks = 7
operations_left polls submit_marks = 6
operations_left polls submit_runs_sbatch = 5
operations_left polls submit_reverts = 4
operations_left polls submit_flags = 4
operations_left polls (submit_records _) = 4
operations_left polls prepare_preflight = 9
operations_left polls prepare_checks = 8
operations_left polls prepare_claims = 7
operations_left polls prepare_rechecks = 6
operations_left polls prepare_uploads = 5
operations_left polls prepare_reads = 4
operations_left polls prepare_writes = 3
operations_left polls (waits _ n) = n + 1
operations_left polls (releases _) = 1
operations_left polls (finished _) = 0

abbrev pub is_finished : Point → Bool
is_finished (finished _) = true
is_finished _ = false

-- Whatever the host answers, every operation of a request that has not finished makes the bound on
-- its remaining operations smaller.
pub advance-operations_left :
    (r : Reply) (id : String) (spec : SubmissionSpec) (polls : ℕ) (p : Point) (h : Host)
    → (is_finished p ≡ true)
      ⊎ (operations_left polls (advance r id spec polls p h).1 < operations_left polls p)
unfolding advance
advance-operations_left r id spec polls (waits last zero) h = inr (omega arith)
advance-operations_left r id spec polls (waits last (suc n)) h = ground arith
advance-operations_left r id spec polls p h = ground arith

abbrev pub eight_done : List Reply
eight_done = done ∷ done ∷ done ∷ done ∷ done ∷ done ∷ done ∷ done ∷ []

-- The host's answers where `sbatch` refuses the job.
abbrev pub sbatch_refuses : List Reply
sbatch_refuses = done ∷ done ∷ done ∷ done ∷ done ∷ refused false ∷ done ∷ done ∷ []

ensure_matches-new_state :
    (spec : SubmissionSpec) (phase : AttemptPhase) (job : Option String)
    → ensure_matches spec (new_state spec phase job) ≡ ok tt
unfolding ensure_matches
ensure_matches-new_state spec phase job =
    ground (arith, eq_refl spec.submission_attempt_id, eq_refl spec.submission_attempt_fingerprint)

abbrev pub host_with : StateFile → List Job → Host
host_with file jobs = record { state_file = file; attempt_lock = false; jobs = jobs }

abbrev pub job_for : String → SubmissionSpec → Job
job_for id spec = record { job_id = id; fingerprint = spec.submission_attempt_fingerprint }

prepare_alone :
    (id : String) (spec : SubmissionSpec) (polls : ℕ) (jobs : List Job)
    → run_alone eight_done id spec polls prepare_preflight (host_with absent jobs)
      ≡ (host_with (recorded (new_state spec prepared none)) jobs, finished dry_run)
unfolding run_alone advance require_preparable writes_prepared
prepare_alone id spec polls jobs = refl

submit_alone :
    (id : String) (spec : SubmissionSpec) (polls : ℕ) (jobs : List Job)
    → run_alone eight_done id spec polls submit_preflight
        (host_with (recorded (new_state spec prepared none)) jobs)
      ≡ (
        host_with (recorded (new_state spec submitted (some id))) (job_for id spec ∷ jobs),
        finished (job_submitted id),
      )
unfolding run_alone advance require_existing
submit_alone id spec polls jobs = ground (arith, ensure_matches-new_state spec prepared none)

submit_alone_refused :
    (id : String) (spec : SubmissionSpec) (polls : ℕ) (jobs : List Job)
    → run_alone sbatch_refuses id spec polls submit_preflight
        (host_with (recorded (new_state spec prepared none)) jobs)
      ≡ (
        host_with (recorded (new_state spec prepared none)) jobs,
        finished (failed remote_execution_error),
      )
unfolding run_alone advance require_existing
submit_alone_refused id spec polls jobs =
    ground (arith, ensure_matches-new_state spec prepared none)

submit_alone_again :
    (id job : String) (spec : SubmissionSpec) (polls : ℕ) (jobs : List Job)
    → run_alone eight_done id spec polls submit_preflight
        (host_with (recorded (new_state spec submitted (some job))) jobs)
      ≡ (
        host_with (recorded (new_state spec submitted (some job))) jobs,
        finished (already_submitted (some job)),
      )
unfolding run_alone advance require_existing
submit_alone_again id job spec polls jobs =
    ground (arith, ensure_matches-new_state spec submitted (some job))

-- A request that runs alone and gets its answers prepares a new attempt; a submission that sbatch
-- refuses leaves the prepared attempt as it was and the lock free; one that sbatch accepts queues
-- one job and records it; and a later request reports that job without queueing another.
pub attempt_runs_alone :
    (id other : String) (spec : SubmissionSpec) (polls : ℕ) (jobs : List Job)
    → (run_alone eight_done id spec polls prepare_preflight (host_with absent jobs)
        ≡ (host_with (recorded (new_state spec prepared none)) jobs, finished dry_run))
      × (run_alone sbatch_refuses id spec polls submit_preflight
            (host_with (recorded (new_state spec prepared none)) jobs)
          ≡ (
            host_with (recorded (new_state spec prepared none)) jobs,
            finished (failed remote_execution_error),
          ))
      × (run_alone eight_done id spec polls submit_preflight
            (host_with (recorded (new_state spec prepared none)) jobs)
          ≡ (
            host_with (recorded (new_state spec submitted (some id))) (job_for id spec ∷ jobs),
            finished (job_submitted id),
          ))
      × (run_alone eight_done other spec polls submit_preflight
            (host_with (recorded (new_state spec submitted (some id))) (job_for id spec ∷ jobs))
          ≡ (
            host_with (recorded (new_state spec submitted (some id))) (job_for id spec ∷ jobs),
            finished (already_submitted (some id)),
          ))
attempt_runs_alone id other spec polls jobs = (
  prepare_alone id spec polls jobs,
  submit_alone_refused id spec polls jobs,
  submit_alone id spec polls jobs,
  submit_alone_again other id spec polls (job_for id spec ∷ jobs),
)
