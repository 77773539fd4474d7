-- ===== src/Attempt/Client.antt =====
-- backend/paramiko_remote.py: `submit`, with one remote operation in each step.
use bmd_compute.Prelude.{
  ℕ, zero, suc, String, Bool, true, false, Option, none, some, ◌∷◌, Result, ok, err,
}
use bmd_compute.Attempt.Host.{
  prepared, submitting, submitted, other_phase, AttemptState, Host, SubmissionSpec, AttemptError,
  attempt_not_prepared, attempt_in_progress, remote_execution_error, remote_failure, Reply, done,
  refused, raised, torn, ensure_matches, read_state, require_existing, require_preparable,
  writes_prepared, new_state, write_state,
}

-- What a request ends with.
pub data Verdict : Type 0 where
  job_submitted : String → Verdict
  already_submitted : Option String → Verdict
  dry_run : Verdict
  failed : AttemptError → Verdict

-- The remote operation that a request carries out next. `releases` is the `rmdir` of the lock,
-- `waits` a poll, with the state that the last poll saw and the number of polls until the deadline.
pub data Point : Type 0 where
  submit_preflight : Point
  submit_reads : Point
  submit_claims : Point
  submit_rechecks : Point
  submit_marks : Point
  submit_runs_sbatch : Point
  submit_reverts : Point
  submit_flags : Point
  submit_records : String → Point
  prepare_preflight : Point
  prepare_checks : Point
  prepare_claims : Point
  prepare_rechecks : Point
  prepare_uploads : Point
  prepare_reads : Point
  prepare_writes : Point
  waits : Option AttemptState → ℕ → Point
  releases : Verdict → Point
  finished : Verdict → Point

-- A request: its specification, and how often its wait polls before the deadline.
pub record Client : Type 0 where
  pub spec : SubmissionSpec
  pub polls : ℕ
  pub point : Point

abbrev waiting : ℕ → Point
waiting polls = waits none polls

-- `submit` after the first read, with the tests of `_submit_prepared_submission_attempt`.
abbrev start_submission : ℕ → Result AttemptError AttemptState → Point
start_submission polls (err e) = finished (failed e)
start_submission polls (ok state) = elim state.phase [
  | submitted ↦ finished (already_submitted state.job_id)
  | submitting ↦ waiting polls
  | prepared ↦ submit_claims
  | other_phase _ ↦ finished (failed attempt_not_prepared)
]

-- Under the lock. A state that is already SUBMITTED returns without releasing the lock.
abbrev recheck_submission : Result AttemptError AttemptState → Point
recheck_submission (err e) = releases (failed e)
recheck_submission (ok state) = elim state.phase [
  | submitted ↦ finished (already_submitted state.job_id)
  | submitting ↦ releases (failed attempt_in_progress)
  | prepared ↦ submit_marks
  | other_phase _ ↦ submit_marks
]

abbrev start_preparation : Result AttemptError (Unit {0}) → Point
start_preparation (err e) = finished (failed e)
start_preparation (ok _) = prepare_claims

abbrev recheck_preparation : Result AttemptError (Unit {0}) → Point
recheck_preparation (err e) = releases (failed e)
recheck_preparation (ok _) = prepare_uploads

abbrev write_preparation : Result AttemptError Bool → Point
write_preparation (err e) = releases (failed e)
write_preparation (ok true) = prepare_writes
write_preparation (ok false) = releases dry_run

abbrev wait_on : ℕ → AttemptState → Result AttemptError (Unit {0}) → Point
wait_on polls state (err e) = finished (failed e)
wait_on polls state (ok _) = elim state.phase [
  | submitted ↦ finished (already_submitted state.job_id)
  | _ ↦ waits (some state) polls
]

abbrev wait_after :
    SubmissionSpec → ℕ → Option AttemptState → Result AttemptError (Option AttemptState) → Point
wait_after spec polls last (err e) = finished (failed e)
wait_after spec polls last (ok none) = waits last polls
wait_after spec polls last (ok (some state)) = wait_on polls state (ensure_matches spec state)

-- An operation that reads the state file goes on only where the read succeeds.
abbrev on_read : Reply → Point → Point → Point
on_read done next broken = next
on_read _ next broken = broken

-- `mkdir` succeeds where the directory is missing. An operation that is not carried out leaves the
-- lock as it is.
abbrev claim : Reply → Host → Host
claim done h = record h { attempt_lock = true }
claim (refused true) h = record h { attempt_lock = true }
claim (raised true) h = record h { attempt_lock = true }
claim _ h = h

abbrev claimed : Reply → Bool → Point → Point → Point
claimed done false won lost = won
claimed done true won lost = lost
claimed (refused _) lock won lost = lost
claimed _ lock won lost = finished (failed remote_failure)

-- `_release_submission_attempt_claim` ignores its result and every exception.
abbrev release : Reply → Host → Host
release done h = record h { attempt_lock = false }
release (refused true) h = record h { attempt_lock = false }
release (raised true) h = record h { attempt_lock = false }
release _ h = h

-- A job that `sbatch` queued.
abbrev queue_job : String → SubmissionSpec → Host → Host
queue_job id spec h = record h {
  jobs = record { job_id = id; fingerprint = spec.submission_attempt_fingerprint } ∷ h.jobs;
}

abbrev run_sbatch : Reply → String → SubmissionSpec → Host → Host
run_sbatch done id spec h = queue_job id spec h
run_sbatch (refused true) id spec h = queue_job id spec h
run_sbatch (refused false) id spec h = h
run_sbatch (raised true) id spec h = queue_job id spec h
run_sbatch (raised false) id spec h = h
run_sbatch torn id spec h = h

-- `RemoteExecutionError` says that `sbatch` exited with an error; any other exception leaves open
-- whether it ran.
abbrev after_sbatch : Reply → String → Point
after_sbatch done id = submit_records id
after_sbatch (refused _) id = submit_reverts
after_sbatch _ id = submit_flags

-- One operation: the new host, and what the request does next. The text is the job id that Slurm
-- hands out.
unfoldable pub advance : Reply → String → SubmissionSpec → ℕ → Point → Host → Host × Point
advance r id spec polls submit_preflight h =
    (h, on_read r submit_reads (finished (failed remote_failure)))
advance r id spec polls submit_reads h = (
  h,
  on_read r (start_submission polls (require_existing spec h.state_file))
      (finished (failed remote_failure)),
)
advance r id spec polls submit_claims h =
    (claim r h, claimed r h.attempt_lock submit_rechecks (waiting polls))
advance r id spec polls submit_rechecks h = (
  h,
  on_read r (recheck_submission (require_existing spec h.state_file))
      (releases (failed remote_failure)),
)
advance r id spec polls submit_marks h = (
  write_state r (new_state spec submitting none) h,
  on_read r submit_runs_sbatch (releases (failed remote_failure)),
)
advance r id spec polls submit_runs_sbatch h = (run_sbatch r id spec h, after_sbatch r id)
advance r id spec polls submit_reverts h = (
  write_state r (new_state spec prepared none) h,
  on_read r (releases (failed remote_execution_error)) (finished (failed remote_failure)),
)
advance r id spec polls submit_flags h = (
  write_state r (new_state spec submitting none) h,
  on_read r (finished (failed attempt_in_progress)) (finished (failed remote_failure)),
)
advance r id spec polls (submit_records job) h = (
  write_state r (new_state spec submitted (some job)) h,
  on_read r (releases (job_submitted job)) (finished (job_submitted job)),
)
advance r id spec polls prepare_preflight h =
    (h, on_read r prepare_checks (finished (failed remote_failure)))
advance r id spec polls prepare_checks h = (
  h,
  on_read r (start_preparation (require_preparable spec h.state_file))
      (finished (failed remote_failure)),
)
advance r id spec polls prepare_claims h =
    (claim r h, claimed r h.attempt_lock prepare_rechecks (finished (failed attempt_in_progress)))
advance r id spec polls prepare_rechecks h = (
  h,
  on_read r (recheck_preparation (require_preparable spec h.state_file))
      (releases (failed remote_failure)),
)
advance r id spec polls prepare_uploads h =
    (h, on_read r prepare_reads (releases (failed remote_failure)))
advance r id spec polls prepare_reads h = (
  h,
  on_read r (write_preparation (writes_prepared spec h.state_file))
      (releases (failed remote_failure)),
)
advance r id spec polls prepare_writes h = (
  write_state r (new_state spec prepared none) h,
  on_read r (releases dry_run) (releases (failed remote_failure)),
)
advance r id spec polls (waits last zero) h = (h, finished (failed attempt_in_progress))
advance r id spec polls (waits last (suc n)) h = (
  h,
  on_read r (wait_after spec n last (read_state h.state_file)) (finished (failed remote_failure)),
)
advance r id spec polls (releases verdict) h = (release r h, finished verdict)
advance r id spec polls (finished verdict) h = (h, finished verdict)
