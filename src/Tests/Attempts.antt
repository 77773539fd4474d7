-- ===== src/Tests/Attempts.antt =====
-- Two requests for one attempt: the first prepares it, the second submits it.
use bmd_compute.Prelude.{
  inl, ◌≤◌, ◌<◌, true, false, none, some, [], ◌∷◌, length, All, ◌≡◌, refl, ◌⊎◌,
}
use bmd_compute.Attempt.Host.{
  AttemptPhase, prepared, submitting, submitted, AttemptState, StateFile, absent, recorded, Job,
  Host, SubmissionSpec, Reply, done, refused, raised, new_state, remote_execution_error,
}
use bmd_compute.Attempt.Client.{
  prepare_uploads, Client, Point, prepare_preflight, submit_preflight, submit_runs_sbatch, dry_run,
  job_submitted, failed, already_submitted, finished, advance,
}
use bmd_compute.Attempt.Schedule.{World, Documented, Reach, start, run_alone, Reach-run_alone}
use bmd_compute.Attempt.Invariant.{holders}
use bmd_compute.Attempt.Safety.{prepare_uploads-NoJob, Fresh, at_most_one_job, submitted_state-job}
use bmd_compute.Attempt.Final.{submitted_state-final}
use bmd_compute.Attempt.Progress.{
  operations_left, is_finished, advance-operations_left, eight_done, sbatch_refuses, host_with,
  job_for, attempt_runs_alone,
}

abbrev spec : SubmissionSpec
spec = record { submission_attempt_id = "a1"; submission_attempt_fingerprint = "f1" }

abbrev request : Point → Client
request p = record { spec = spec; polls = 50; point = p }

abbrev empty_host : Host
empty_host = record { state_file = absent; attempt_lock = false; jobs = [] }

abbrev submitted_host : Host
submitted_host = record {
  state_file = recorded (new_state spec submitted (some "17"));
  attempt_lock = false;
  jobs = record { job_id = "17"; fingerprint = "f1" } ∷ [];
}

abbrev at_start : World
at_start = record {
  host = empty_host;
  clients = request prepare_preflight ∷ request submit_preflight ∷ [];
}

abbrev prepared_host : Host
prepared_host = record {
  state_file = recorded (new_state spec prepared none);
  attempt_lock = false;
  jobs = [];
}

abbrev after_preparation : World
after_preparation = record {
  host = prepared_host;
  clients = request (finished dry_run) ∷ request submit_preflight ∷ [];
}

abbrev after_submission : World
after_submission = record {
  host = submitted_host;
  clients = request (finished dry_run) ∷ request (finished (job_submitted "17")) ∷ [];
}

abbrev all_documented : All Documented eight_done
all_documented = (tt, (tt, (tt, (tt, (tt, (tt, (tt, (tt, tt))))))))

at_start-Fresh : Fresh at_start
at_start-Fresh = (tt, tt, refl)

reaches_preparation : Reach at_start after_preparation
unfolding run_alone advance bmd_compute.Attempt.Host.require_preparable
    bmd_compute.Attempt.Host.writes_prepared
reaches_preparation =
    Reach-run_alone eight_done "17" empty_host [] (request submit_preflight ∷ [])
      (request prepare_preflight) all_documented start

reaches_submission : Reach at_start after_submission
unfolding run_alone advance bmd_compute.Attempt.Host.require_existing
    bmd_compute.Attempt.Host.ensure_matches
reaches_submission =
    Reach-run_alone eight_done "17" prepared_host (request (finished dry_run) ∷ []) []
      (request submit_preflight) all_documented reaches_preparation

at_most_one_job_example :
    (length after_submission.host.jobs ≤ 1) × (holders after_submission.clients ≤ 1)
at_most_one_job_example =
    at_most_one_job at_start after_submission at_start-Fresh reaches_submission

submitted_state-job_example :
    (job : Job) × (after_submission.host.jobs ≡ job ∷ [])
    × (some "17" ≡ some job.job_id)
    × ("f1" ≡ job.fingerprint)
submitted_state-job_example =
    submitted_state-job at_start after_submission (new_state spec submitted (some "17"))
      at_start-Fresh reaches_submission refl refl

submitted_state-final_example :
    (after_submission.host.jobs ≡ after_submission.host.jobs)
    × (after_submission.host.state_file ≡ after_submission.host.state_file)
submitted_state-final_example =
    submitted_state-final at_start after_submission after_submission
      (new_state spec submitted (some "17")) at_start-Fresh reaches_submission refl refl start

attempt_runs_alone_example :
    (run_alone eight_done "17" spec 50 prepare_preflight (host_with absent [])
      ≡ (host_with (recorded (new_state spec prepared none)) [], finished dry_run))
    × (run_alone sbatch_refuses "17" spec 50 submit_preflight
          (host_with (recorded (new_state spec prepared none)) [])
        ≡ (
          host_with (recorded (new_state spec prepared none)) [],
          finished (failed remote_execution_error),
        ))
    × (run_alone eight_done "17" spec 50 submit_preflight
          (host_with (recorded (new_state spec prepared none)) [])
        ≡ (
          host_with (recorded (new_state spec submitted (some "17"))) (job_for "17" spec ∷ []),
          finished (job_submitted "17"),
        ))
    × (run_alone eight_done "18" spec 50 submit_preflight
          (host_with (recorded (new_state spec submitted (some "17"))) (job_for "17" spec ∷ []))
        ≡ (
          host_with (recorded (new_state spec submitted (some "17"))) (job_for "17" spec ∷ []),
          finished (already_submitted (some "17")),
        ))
attempt_runs_alone_example = attempt_runs_alone "17" "18" spec 50 []

advance-operations_left_example :
    (is_finished submit_runs_sbatch ≡ true)
    ⊎ (operations_left 50 (advance (raised true) "17" spec 50 submit_runs_sbatch prepared_host).1
        < operations_left 50 submit_runs_sbatch)
advance-operations_left_example =
    advance-operations_left (raised true) "17" spec 50 submit_runs_sbatch prepared_host

abbrev while_uploading : World
while_uploading = record {
  host = record empty_host { attempt_lock = true };
  clients = request prepare_uploads ∷ request submit_preflight ∷ [];
}

reaches_uploading : Reach at_start while_uploading
unfolding run_alone advance bmd_compute.Attempt.Host.require_preparable
reaches_uploading =
    Reach-run_alone (done ∷ done ∷ done ∷ done ∷ []) "17" empty_host []
      (request submit_preflight ∷ []) (request prepare_preflight) (tt, (tt, (tt, (tt, tt)))) start

prepare_uploads-NoJob_example : while_uploading.host.jobs ≡ []
prepare_uploads-NoJob_example =
    prepare_uploads-NoJob at_start while_uploading [] (request submit_preflight ∷ [])
      (request prepare_uploads) at_start-Fresh reaches_uploading refl (inl refl)
