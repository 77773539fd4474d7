-- ===== src/Monitoring/Status.antt =====
-- backend/monitoring.py, remote_job_status_from_slurm_outputs: the status of a finished job, whose
-- state only sacct knows.
use bmd_compute.Prelude.{ℕ, List, [], ◌∷◌, ◌≡◌, refl}
use bmd_compute.Prelude.Text.{codes}
use bmd_compute.Monitoring.States.{strip_job_id, classify_slurm_state}
use bmd_compute.Monitoring.Output.{
  JobInfo, parse_scontrol_output, first_line, or_else, RemoteJobStatus,
  remote_job_status_from_slurm_outputs, pick, lines_from,
}
use bmd_compute.Monitoring.Rows.{row, PlainRow, parse_sacct_row-row}

or_else-nothing : (a : List ℕ) → or_else a [] ≡ a
or_else-nothing [] = refl
or_else-nothing (c ∷ a) = refl

-- The status that a row of sacct describes.
abbrev pub row_status : List ℕ → JobInfo → RemoteJobStatus
row_status job_id info =
    let state = or_else info.state (codes "UNKNOWN") in
    record {
      job_id = job_id;
      state = state;
      exit_code = info.exit_code;
      stdout_path = info.stdout;
      stderr_path = info.stderr;
      workdir = info.workdir;
      job_name = info.jobname;
      summary = classify_slurm_state state info.exit_code;
    }

-- When squeue and scontrol print nothing and sacct prints one row of seven fields for the job,
-- none of which contains a separator or a line break, and the identifier of the job has no white
-- space around it and no batch or extern suffix, the status has the fields of the row, with the
-- state UNKNOWN where the row has none, and the classification of that state with that exit code.
pub remote_job_status-row :
    (job_id : List ℕ) (info : JobInfo)
    → strip_job_id job_id ≡ job_id
    → PlainRow job_id info
    → remote_job_status_from_slurm_outputs job_id [] [] (row job_id info) ≡ row_status job_id info
unfolding remote_job_status_from_slurm_outputs parse_scontrol_output first_line pick lines_from
remote_job_status-row job_id info stripped plain = rw (
  stripped,
  stripped,
  parse_sacct_row-row job_id info plain,
  or_else-nothing info.stdout,
  or_else-nothing info.stderr,
  or_else-nothing info.workdir,
  or_else-nothing info.jobname,
)
