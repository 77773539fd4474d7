-- ===== src/Tests/Monitoring.antt =====
-- The status of a job from the output of sacct.
use bmd_compute.Prelude.{true, false, ◌≡◌, ◌≢◌, List, [], ◌∷◌, ℕ, refl}
use bmd_compute.Prelude.Text.{codes}
use bmd_compute.Monitoring.States.{
  Summary, is_valid_slurm_job_id, strip_job_id, classify_slurm_state,
}
use bmd_compute.Monitoring.Output.{JobInfo, remote_job_status_from_slurm_outputs}
use bmd_compute.Monitoring.Rows.{row, PlainRow}
use bmd_compute.Monitoring.Status.{row_status, remote_job_status-row}

accepts_array_task : is_valid_slurm_job_id (codes " 4711_2.batch") ≡ true
unfolding is_valid_slurm_job_id strip_job_id bmd_compute.Monitoring.States.without_suffix
    bmd_compute.Prelude.Text.strip bmd_compute.Prelude.Text.is_space
    bmd_compute.Prelude.Text.codes_eq
accepts_array_task = refl

completed_with_error : classify_slurm_state (codes "completed") (codes "1:0") ≡ Summary.failure
unfolding classify_slurm_state bmd_compute.Monitoring.States.upper bmd_compute.Prelude.Text.codes_eq
completed_with_error = refl

abbrev finished : JobInfo
finished = record {
  state = codes "COMPLETED";
  exit_code = codes "0:0";
  jobname = codes "static";
  stdout = codes "/work/out";
  stderr = codes "/work/err";
  workdir = codes "/work";
}

finished-PlainRow : PlainRow (codes "4711") finished
finished-PlainRow = record {
  not_empty = λ same. cc;
  job = refl;
  state = refl;
  exit_code = refl;
  jobname = refl;
  stdout = refl;
  stderr = refl;
  workdir = refl;
}

strips_nothing : strip_job_id (codes "4711") ≡ codes "4711"
unfolding strip_job_id bmd_compute.Monitoring.States.without_suffix bmd_compute.Prelude.Text.strip
    bmd_compute.Prelude.Text.is_space bmd_compute.Prelude.Text.codes_eq
strips_nothing = refl

remote_job_status-row_example :
    remote_job_status_from_slurm_outputs (codes "4711") [] [] (row (codes "4711") finished)
    ≡ row_status (codes "4711") finished
remote_job_status-row_example =
    remote_job_status-row (codes "4711") finished strips_nothing finished-PlainRow
