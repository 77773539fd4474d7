-- ===== src/Attempt/Host.antt =====
-- backend/paramiko_remote.py: what one attempt has on the remote host (the state file, the `mkdir`
-- lock, and the jobs that Slurm accepted for it), and the checks on the state file.
use bmd_compute.Prelude.{
  String, Bool, true, false, not, ◌&&◌, Option, none, some, List, Result, ok, err, ◌>>=◌, ◌>>◌,
  raise_if, str_eq,
}

-- The field "state" of the state file.
pub data AttemptPhase : Type 0 where
  prepared : AttemptPhase
  submitting : AttemptPhase
  submitted : AttemptPhase
  other_phase : String → AttemptPhase

-- The fields of the state file that the code reads again, output and provenance aside.
pub record AttemptState : Type 0 where
  pub attempt_id : String
  pub fingerprint : String
  pub phase : AttemptPhase
  pub job_id : Option String

-- `no_fields` is the empty JSON object, which the code takes for no state; `unreadable` is text
-- that is not a JSON object, as a write that breaks off leaves it.
pub data StateFile : Type 0 where
  absent : StateFile
  no_fields : StateFile
  unreadable : StateFile
  recorded : AttemptState → StateFile

-- A job that Slurm accepted, with the fingerprint of the submission that it runs.
pub record Job : Type 0 where
  pub job_id : String
  pub fingerprint : String

pub record Host : Type 0 where
  pub state_file : StateFile
  pub attempt_lock : Bool
  pub jobs : List Job

-- What identifies a request's submission specification.
pub record SubmissionSpec : Type 0 where
  pub submission_attempt_id : String
  pub submission_attempt_fingerprint : String

pub data AttemptError : Type 0 where
  attempt_not_prepared : AttemptError
  attempt_in_progress : AttemptError
  attempt_mismatch : AttemptError
  attempt_already_submitted : Option String → AttemptError
  remote_execution_error : AttemptError
  remote_failure : AttemptError

-- How the remote host answers one operation. The Boolean says whether the operation took effect:
-- a connection may be lost before or after it.
pub data Reply : Type 0 where
  done : Reply
  refused : Bool → Reply
  raised : Bool → Reply
  torn : Reply

unfoldable pub ensure_matches : SubmissionSpec → AttemptState → Result AttemptError (Unit {0})
ensure_matches spec state = do
  raise_if
      (not (str_eq state.attempt_id "") && not (str_eq state.attempt_id spec.submission_attempt_id))
      attempt_mismatch
  raise_if (not (str_eq state.fingerprint spec.submission_attempt_fingerprint)) attempt_mismatch

-- `_read_submission_attempt_state`, and `if not state`.
abbrev pub read_state : StateFile → Result AttemptError (Option AttemptState)
read_state absent = ok none
read_state no_fields = ok none
read_state unreadable = err attempt_in_progress
read_state (recorded state) = ok (some state)

abbrev existing_state : SubmissionSpec → Option AttemptState → Result AttemptError AttemptState
existing_state spec none = err attempt_not_prepared
existing_state spec (some state) = ensure_matches spec state >> ok state

unfoldable pub require_existing : SubmissionSpec → StateFile → Result AttemptError AttemptState
require_existing spec file = do state ← read_state file; existing_state spec state

abbrev preparable_phase : AttemptPhase → Option String → Result AttemptError (Unit {0})
preparable_phase prepared job = ok tt
preparable_phase submitted job = err (attempt_already_submitted job)
preparable_phase submitting job = err attempt_in_progress
preparable_phase (other_phase name) job = err attempt_in_progress

abbrev preparable_state : SubmissionSpec → Option AttemptState → Result AttemptError (Unit {0})
preparable_state spec none = ok tt
preparable_state spec (some state) =
    ensure_matches spec state >> preparable_phase state.phase state.job_id

unfoldable pub require_preparable : SubmissionSpec → StateFile → Result AttemptError (Unit {0})
require_preparable spec file = do state ← read_state file; preparable_state spec state

abbrev pub is_in_flight : AttemptPhase → Bool
is_in_flight submitting = true
is_in_flight submitted = true
is_in_flight _ = false

-- `_write_prepared_submission_attempt_state` up to its write: true where it writes.
abbrev writes_state : SubmissionSpec → Option AttemptState → Result AttemptError Bool
writes_state spec none = ok true
writes_state spec (some state) = ensure_matches spec state >> ok (not (is_in_flight state.phase))

unfoldable pub writes_prepared : SubmissionSpec → StateFile → Result AttemptError Bool
writes_prepared spec file = do state ← read_state file; writes_state spec state

abbrev pub new_state : SubmissionSpec → AttemptPhase → Option String → AttemptState
new_state spec phase job = record {
  attempt_id = spec.submission_attempt_id;
  fingerprint = spec.submission_attempt_fingerprint;
  phase = phase;
  job_id = job;
}

-- `put_text` writes in place, so that a failure may leave any of three contents.
abbrev pub write_state : Reply → AttemptState → Host → Host
write_state done state h = record h { state_file = recorded state }
write_state (refused true) state h = record h { state_file = recorded state }
write_state (refused false) state h = h
write_state (raised true) state h = record h { state_file = recorded state }
write_state (raised false) state h = h
write_state torn state h = record h { state_file = unreadable }
