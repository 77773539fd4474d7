-- ===== src/Execution/Submissions.antt =====
-- compute_api/execution.py: what the ledger records of a submission, and the caps on submissions.
use bmd_compute.Prelude.{
  ℕ, suc, ◌-◌, String, Bool, true, false, not, ◌&&◌, Option, none, some, [], ◌∷◌, Result, ok, err,
  leb, str_eq, if◌then◌else◌,
}
use bmd_compute.Execution.Records.{
  prepared, submitted, submission_uncertain, SubmissionStatus, not_requested, reserved,
  job_submitted, uncertain, released, Scheduler, AttemptRecord, AttemptLedger, read, replace,
}
use bmd_compute.Execution.Limits.{
  ExecutionPolicy, ExecutionError, ledger_inconsistent, submission_cap_exceeded,
  active_job_cap_exceeded,
}

-- What the code reads of the remote attempt state, with the job id and the time as the state has
-- them where they pass `_JOB_ID` and `_LOCAL_TIME`.
pub record RemoteState : Type 0 where
  pub attempt_id : String
  pub fingerprint : String
  pub state : String
  pub remote_job_id : Option String
  pub remote_submitted_at : Option String
  pub prepared_runtime_digest : Option String

-- `_update_record`: the change of a record under the ledger's lock.
abbrev changed :
    ℕ
    → (AttemptRecord → AttemptRecord)
    → AttemptLedger
    → Option AttemptRecord
    → Result ExecutionError (AttemptRecord × AttemptLedger)
changed now mutate ledger none = err ledger_inconsistent
changed now mutate ledger (some r) =
    let r' = record (mutate r) { updated_at = now } in ok (r', replace r' ledger)

unfoldable pub update_record :
    ℕ
    → String
    → (AttemptRecord → AttemptRecord)
    → AttemptLedger
    → Result ExecutionError (AttemptRecord × AttemptLedger)
update_record now attempt_id mutate ledger = changed now mutate ledger (read attempt_id ledger)

abbrev reserved_from : ℕ → Option ℕ → Option ℕ
reserved_from now none = some now
reserved_from now (some t) = some t

abbrev uncertain_from : SubmissionStatus → SubmissionStatus
uncertain_from reserved = uncertain
uncertain_from not_requested = uncertain
uncertain_from s = s

-- The `mutate` of `_record_remote_state`.
unfoldable pub with_remote_state : ℕ → Option RemoteState → AttemptRecord → AttemptRecord
with_remote_state now none r = r
with_remote_state now (some s) r =
    if str_eq s.state "PREPARED"
    then record r { state = prepared }
    else if str_eq s.state "SUBMITTING"
    then record r {
      state = submission_uncertain;
      submission = record (r.submission) { status = uncertain_from r.submission.status };
    }
    else if str_eq s.state "SUBMITTED"
    then record r {
      state = submitted;
      submission = record {
        status = job_submitted;
        reserved_at = reserved_from now r.submission.reserved_at;
        job_id = s.remote_job_id;
        submitted_at = s.remote_submitted_at;
      };
    }
    else r

unfoldable pub record_remote_state :
    ℕ
    → String
    → Option RemoteState
    → AttemptLedger
    → Result ExecutionError (AttemptRecord × AttemptLedger)
record_remote_state now attempt_id s ledger =
    update_record now attempt_id (with_remote_state now s) ledger

-- A submission that is reserved, submitted or uncertain.
abbrev pub is_claimed : SubmissionStatus → Bool
is_claimed reserved = true
is_claimed job_submitted = true
is_claimed uncertain = true
is_claimed _ = false

abbrev is_terminal : Option Scheduler → Bool
is_terminal none = false
is_terminal (some s) = s.terminal

unfoldable pub is_active : AttemptRecord → Bool
is_active r = if not (is_claimed r.submission.status) then false else not (is_terminal r.scheduler)

abbrev since_reserved : ℕ → Option ℕ → Bool
since_reserved since none = false
since_reserved since (some t) = leb since t

abbrev is_released : SubmissionStatus → Bool
is_released released = true
is_released _ = false

unfoldable pub counts_toward_window : ℕ → AttemptRecord → Bool
counts_toward_window since r =
    if is_released r.submission.status then false else since_reserved since r.submission.reserved_at

-- `sum(1 for record in records if ...)`
unfoldable pub count : (AttemptRecord → Bool) → AttemptLedger → ℕ
count p [] = 0
count p (r ∷ ledger) = let rest = count p ledger in if p r then suc rest else rest

abbrev pub active_of : String → AttemptRecord → Bool
active_of principal r = str_eq r.principal principal && is_active r

abbrev pub in_window_of : String → ℕ → AttemptRecord → Bool
in_window_of principal since r = str_eq r.principal principal && counts_toward_window since r

-- `over_caps`
unfoldable pub over_caps : ExecutionPolicy → ℕ → String → AttemptLedger → Bool × Bool
over_caps policy now principal ledger = (
  leb policy.max_submissions_per_window
      (count (in_window_of principal (now - policy.window)) ledger),
  leb policy.max_active_jobs (count (active_of principal) ledger),
)

abbrev pub reservation : ℕ → AttemptRecord → AttemptRecord
reservation now r = record r {
  submission = record (r.submission) { status = reserved; reserved_at = some now };
  updated_at = now;
}

abbrev reserved_in :
    ExecutionPolicy
    → ℕ
    → String
    → AttemptLedger
    → Option AttemptRecord
    → Result ExecutionError AttemptLedger
reserved_in policy now principal ledger none = err ledger_inconsistent
reserved_in policy now principal ledger (some r) =
    if is_claimed r.submission.status
    then ok ledger
    else let caps = over_caps policy now principal ledger in
      if caps.0
      then err submission_cap_exceeded
      else if caps.1
      then err active_job_cap_exceeded
      else ok (replace (reservation now r) ledger)

-- The second locked section of `_reserve_submission`, which decides.
unfoldable pub reserve_submission :
    ExecutionPolicy → ℕ → String → String → AttemptLedger → Result ExecutionError AttemptLedger
reserve_submission policy now attempt_id principal ledger =
    reserved_in policy now principal ledger (read attempt_id ledger)

abbrev released_from : SubmissionStatus → SubmissionStatus
released_from reserved = released
released_from s = s

abbrev pub with_release : AttemptRecord → AttemptRecord
with_release r = record r {
  submission = record (r.submission) { status = released_from r.submission.status };
  state = prepared;
}

unfoldable pub release_reservation :
    ℕ → String → AttemptLedger → Result ExecutionError (AttemptRecord × AttemptLedger)
release_reservation now attempt_id ledger = update_record now attempt_id with_release ledger
