-- ===== src/Monitoring/Output.antt =====
-- backend/monitoring.py: the status of a job from the output of squeue, scontrol and sacct. Line breaks
-- are those of ASCII.
use bmd_compute.Prelude.{
  ℕ, Bool, false, not, ◌&&◌, ◌||◌, Option, none, some, List, [], ◌∷◌, ◌++◌, length, take, drop, leb,
  ◌==◌, if◌then◌else◌,
}
use bmd_compute.Prelude.Text.{codes, codes_eq, strip, starts_with}
use bmd_compute.Prelude.Split.{split_on}
use bmd_compute.Monitoring.States.{is_empty, strip_job_id, Summary, classify_slurm_state}

abbrev pub is_break : ℕ → Bool
is_break c = (leb 10 c && leb c 13) || (leb 28 c && leb c 30)

-- `text.splitlines()`; the flag says that a carriage return ended the line before.
unfoldable pub lines_from : List ℕ → Bool → List ℕ → List (List ℕ)
lines_from [] returned [] = []
lines_from (x ∷ part) returned [] = (x ∷ part) ∷ []
lines_from part returned (c ∷ text) =
    let skipped = lines_from part false text in
    let ended = part ∷ lines_from [] (c == 13) text in
    let read = lines_from (part ++ (c ∷ [])) false text in
    if returned && (c == 10) then skipped else if is_break c then ended else read

pub record JobInfo : Type 0 where
  pub state : List ℕ
  pub exit_code : List ℕ
  pub jobname : List ℕ
  pub stdout : List ℕ
  pub stderr : List ℕ
  pub workdir : List ℕ

-- A missing key reads as the empty text, which is what every use of the row makes of it.
abbrev pub no_info : JobInfo
no_info = record {
  state = [];
  exit_code = [];
  jobname = [];
  stdout = [];
  stderr = [];
  workdir = [];
}

abbrev pub row_info : List (List ℕ) → Option JobInfo
row_info (job ∷ state ∷ exit_code ∷ jobname ∷ stdout ∷ stderr ∷ workdir ∷ rest) = some (record {
  state = state;
  exit_code = exit_code;
  jobname = jobname;
  stdout = stdout;
  stderr = stderr;
  workdir = workdir;
})
row_info (job ∷ state ∷ exit_code ∷ jobname ∷ stdout ∷ workdir ∷ []) = some (record {
  state = state;
  exit_code = exit_code;
  jobname = jobname;
  stdout = stdout;
  stderr = [];
  workdir = workdir;
})
row_info _ = none

abbrev pub is_wanted : List ℕ → List (List ℕ) → Bool
is_wanted job_id [] = false
is_wanted job_id (first ∷ parts) =
    codes_eq first job_id
    || codes_eq first (job_id ++ codes ".batch")
    || codes_eq first (job_id ++ codes ".extern")

abbrev pub first_row : List ℕ → List (List ℕ) → JobInfo
first_row job_id [] = no_info
first_row job_id (line ∷ lines) =
    let parts = split_on 124 [] line in
    let later = first_row job_id lines in
    if is_wanted job_id parts
    then elim (row_info parts) [ none ↦ later | some info ↦ info ]
    else later

-- The argument has been stripped by the caller.
unfoldable pub parse_sacct_row : List ℕ → List ℕ → JobInfo
unfolding split_on lines_from
parse_sacct_row job_id output = first_row job_id (take 6 (lines_from [] false output))

abbrev is_word_end : ℕ → Bool
is_word_end c = (c == 32) || (c == 10)

abbrev word : List ℕ → List ℕ
word [] = []
word (c ∷ text) = let rest = word text in if is_word_end c then [] else c ∷ rest

-- `re.search(key + r"([^ \n]+)")`, the group or the empty text.
unfoldable pub pick : List ℕ → List ℕ → List ℕ
pick key [] = []
pick key (c ∷ text) =
    let found = word (drop (length key) (c ∷ text)) in
    let later = pick key text in
    if starts_with key (c ∷ text) && not (is_empty found) then found else later

unfoldable pub parse_scontrol_output : List ℕ → JobInfo
unfolding pick
parse_scontrol_output output = record {
  state = pick (codes "JobState=") output;
  exit_code = [];
  jobname = pick (codes "JobName=") output;
  stdout = pick (codes "StdOut=") output;
  stderr = pick (codes "StdErr=") output;
  workdir = pick (codes "WorkDir=") output;
}

abbrev first_text : List (List ℕ) → List ℕ
first_text [] = []
first_text (line ∷ lines) =
    let later = first_text lines in if is_empty (strip line) then later else strip line

unfoldable pub first_line : List ℕ → List ℕ
unfolding lines_from strip
first_line output = first_text (lines_from [] false output)

-- `a or b`
abbrev pub or_else : List ℕ → List ℕ → List ℕ
or_else [] b = b
or_else (x ∷ a) b = x ∷ a

-- The empty text stands for None.
pub record RemoteJobStatus : Type 0 where
  pub job_id : List ℕ
  pub state : List ℕ
  pub exit_code : List ℕ
  pub stdout_path : List ℕ
  pub stderr_path : List ℕ
  pub workdir : List ℕ
  pub job_name : List ℕ
  pub summary : Summary

unfoldable pub remote_job_status_from_slurm_outputs :
    List ℕ → List ℕ → List ℕ → List ℕ → RemoteJobStatus
remote_job_status_from_slurm_outputs job_id squeue_output scontrol_output sacct_output =
    let stripped = strip_job_id job_id in
    let scontrol = parse_scontrol_output scontrol_output in
    let sacct = parse_sacct_row (strip_job_id stripped) sacct_output in
    let state =
      or_else (first_line squeue_output)
        (or_else scontrol.state (or_else sacct.state (codes "UNKNOWN"))) in
    record {
      job_id = stripped;
      state = state;
      exit_code = sacct.exit_code;
      stdout_path = or_else sacct.stdout scontrol.stdout;
      stderr_path = or_else sacct.stderr scontrol.stderr;
      workdir = or_else sacct.workdir scontrol.workdir;
      job_name = or_else sacct.jobname scontrol.jobname;
      summary = classify_slurm_state state sacct.exit_code;
    }
