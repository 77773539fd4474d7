-- ===== src/Execution/Execute.antt =====
-- compute_api/execution.py: `execute_attempt` and `lookup_attempt`. Every answer of the cluster and
-- every change that other requests make to the ledger in between is an argument.
use bmd_compute.Prelude.{
  ℕ, String, Bool, true, false, not, ◌&&◌, ◌||◌, Option, none, some, Result, ok, err, ◌>>=◌, ◌>>◌,
  str_eq, if◌then◌else◌,
}
use bmd_compute.Execution.Records.{AttemptRecord, AttemptLedger, read}
use bmd_compute.Execution.Limits.{
  ExecutionPolicy, ExecutionError, remote_busy, remote_unavailable, remote_state_invalid,
  attempt_in_progress, prepare_failed, remote_state_unconfirmed, runtime_package_changed,
  submission_outcome_unconfirmed, submit_failed, submission_not_started, submission_is_uncertain,
  attempt_not_found,
}
use bmd_compute.Execution.Submissions.{
  RemoteState, record_remote_state, is_claimed, over_caps, reserve_submission, release_reservation,
}
use bmd_compute.Execution.Bind.{
  ExecutionRequest, Look, Binding, Planner, authorize_record, bind_attempt,
}
use bmd_compute.Execution.Refresh.{
  Cluster, require_state_matches, refresh_scheduler, refresh_active_records,
}

-- The result of `prepare_remote_submission`: success, or the stage that failed.
pub data PrepareResult : Type 0 where
  prepare_success : PrepareResult
  prepare_failed_at : String → PrepareResult

-- What the code reads of the result of `submit_remote_workflow`.
pub record SubmitResult : Type 0 where
  pub has_exit_code : Bool
  pub reason_is_busy : Bool

-- The answers of one request, in order, and the ledger as its locked sections find it.
pub record Answers : Type 0 where
  pub looks : ℕ → Look
  pub first_state : Result ExecutionError (Option RemoteState)
  pub prepare_result : PrepareResult
  pub state_after_prepare : Result ExecutionError (Option RemoteState)
  pub current_runtime_digest : String
  pub ledger_to_record : AttemptLedger
  pub ledger_before_reserving : AttemptLedger
  pub cluster : Cluster
  pub others_before_reserving : AttemptLedger → AttemptLedger
  pub submit_result : SubmitResult
  pub state_after_submit : Result ExecutionError (Option RemoteState)
  pub ledger_at_end : AttemptLedger
  pub now : ℕ

-- What a request did: its response or its error, whether it prepared, and the ledger in which it
-- reserved the submission before it called `submit_remote_workflow`, where it did.
pub record Run : Type 0 where
  pub outcome : Result ExecutionError AttemptRecord
  pub prepares : Bool
  pub submits : Option AttemptLedger

unfoldable pub prepare_failure : String → ExecutionError
prepare_failure stage =
    if str_eq stage "Remote Capacity"
    then remote_busy
    else if str_eq stage "SSH Connection"
        || str_eq stage "SSH Authentication"
        || str_eq stage "SSH Host Verification"
        || str_eq stage "SSH Client Setup"
    then remote_unavailable
    else if str_eq stage "Submission Attempt"
    then attempt_in_progress
    else prepare_failed

abbrev prepare_error : PrepareResult → ExecutionError
prepare_error prepare_success = remote_state_unconfirmed
prepare_error (prepare_failed_at stage) = prepare_failure stage

module _ (planner : Planner) (policy : ExecutionPolicy) (principal attempt_id : String)
    (request : ExecutionRequest) (a : Answers) where
  abbrev pub claimed_record : Option AttemptRecord → Bool
  claimed_record none = false
  claimed_record (some r) = is_claimed r.submission.status

  -- The ledger that the second look of `_reserve_submission` finds: the principal's other attempts
  -- are refreshed where only the active jobs are at their cap.
  abbrev pub ledger_at_second_look : AttemptLedger
  ledger_at_second_look =
      let ledger = a.ledger_before_reserving in
      let caps = over_caps policy a.now principal ledger in
      a.others_before_reserving (
        if caps.1 && not caps.0
        then refresh_active_records a.cluster a.now principal attempt_id ledger ledger
        else ledger)

  -- `_reserve_submission`: the first look, and the second look, which decides.
  unfoldable pub reserve : Result ExecutionError AttemptLedger
  reserve =
      if claimed_record (read attempt_id a.ledger_before_reserving)
      then ok a.ledger_before_reserving
      else reserve_submission policy a.now attempt_id principal ledger_at_second_look

  abbrev recorded :
      Result ExecutionError (AttemptRecord × AttemptLedger) → Result ExecutionError AttemptRecord
  recorded (ok (r, _)) = ok r
  recorded (err e) = err e

  abbrev report : String → AttemptRecord → Result ExecutionError AttemptRecord
  report remote r =
      if str_eq remote "SUBMITTED"
      then ok r
      else if str_eq remote "SUBMITTING"
      then err (submission_is_uncertain r)
      else err remote_state_invalid

  -- The end of `execute_attempt`, for a state that is not PREPARED.
  abbrev finish : RemoteState → Result ExecutionError AttemptRecord
  finish s = do
    r ← recorded (record_remote_state a.now attempt_id (some s) a.ledger_at_end)
    report s.state r

  abbrev not_started : Bool → ExecutionError
  not_started busy = if busy then remote_busy else submission_not_started

  -- After the submission: a state that is still PREPARED.
  abbrev still_prepared : Result ExecutionError AttemptRecord
  still_prepared =
      if a.submit_result.has_exit_code
      then (do released ← release_reservation a.now attempt_id a.ledger_at_end; err submit_failed)
      else err (not_started a.submit_result.reason_is_busy)

  abbrev submitted_state :
      AttemptRecord
      → Result ExecutionError (Option RemoteState)
      → Result ExecutionError AttemptRecord
  submitted_state r (err e) = err submission_outcome_unconfirmed
  submitted_state r (ok none) = err remote_state_invalid
  submitted_state r (ok (some s)) = do
    require_state_matches s r
    if str_eq s.state "PREPARED" then still_prepared else finish s

  abbrev reserved_run : Bool → AttemptRecord → Result ExecutionError AttemptLedger → Run
  reserved_run prepares r (err e) = record { outcome = err e; prepares = prepares; submits = none }
  reserved_run prepares r (ok ledger) = record {
    outcome = submitted_state r a.state_after_submit;
    prepares = prepares;
    submits = some ledger;
  }

  abbrev prepared_record : Bool → Result ExecutionError AttemptRecord → Run
  prepared_record prepares (err e) = record { outcome = err e; prepares = prepares; submits = none }
  prepared_record prepares (ok r) =
      if not request.submit
      then (record { outcome = ok r; prepares = prepares; submits = none })
      else reserved_run prepares r reserve

  abbrev same_digest : Option String → Bool
  same_digest none = false
  same_digest (some digest) = str_eq digest a.current_runtime_digest

  abbrev on_state : Bool → RemoteState → Run
  on_state prepares s =
      if str_eq s.state "PREPARED"
      then (if not (same_digest s.prepared_runtime_digest)
          then record { outcome = err runtime_package_changed; prepares = prepares; submits = none }
          else prepared_record prepares
              (recorded (record_remote_state a.now attempt_id (some s) a.ledger_to_record)))
      else record { outcome = finish s; prepares = prepares; submits = none }

  abbrev matched : Bool → RemoteState → Result ExecutionError (Unit {0}) → Run
  matched prepares s (err e) = record { outcome = err e; prepares = prepares; submits = none }
  matched prepares s (ok _) = on_state prepares s

  abbrev after_prepare : AttemptRecord → Result ExecutionError (Option RemoteState) → Run
  after_prepare r (err e) = record { outcome = err e; prepares = true; submits = none }
  after_prepare r (ok none) = record {
    outcome = err (prepare_error a.prepare_result);
    prepares = true;
    submits = none;
  }
  after_prepare r (ok (some s)) = matched true s (require_state_matches s r)

  abbrev on_first_state : AttemptRecord → Result ExecutionError (Option RemoteState) → Run
  on_first_state r (err e) = record { outcome = err e; prepares = false; submits = none }
  on_first_state r (ok none) = after_prepare r a.state_after_prepare
  on_first_state r (ok (some s)) = matched false s (require_state_matches s r)

  abbrev on_binding : Result ExecutionError Binding → Run
  on_binding (err e) = record { outcome = err e; prepares = false; submits = none }
  on_binding (ok b) = on_first_state b.bound a.first_state

  unfoldable pub execute_attempt : Run
  execute_attempt = on_binding (bind_attempt planner policy attempt_id principal request a.looks)

abbrev pub is_attempt_state : String → Bool
is_attempt_state s = str_eq s "PREPARED" || str_eq s "SUBMITTING" || str_eq s "SUBMITTED"

abbrev pub looked_up :
    Cluster
    → ℕ
    → String
    → AttemptLedger
    → AttemptRecord
    → Option RemoteState
    → Result ExecutionError (AttemptRecord × AttemptLedger)
looked_up cluster now attempt_id ledger r none = ok (r, ledger)
looked_up cluster now attempt_id ledger r (some s) =
    require_state_matches s r
    >> (if is_attempt_state s.state
        then record_remote_state now attempt_id (some s) ledger
        else ok (r, ledger))

abbrev pub found :
    Cluster
    → ℕ
    → String
    → String
    → AttemptLedger
    → Option AttemptRecord
    → Result ExecutionError (AttemptRecord × AttemptLedger)
found cluster now principal attempt_id ledger none = err attempt_not_found
found cluster now principal attempt_id ledger (some r) = do
  authorize_record r principal
  state ← cluster.read_remote_attempt_state r
  (r', ledger') ← looked_up cluster now attempt_id ledger r state
  refresh_scheduler cluster now r' ledger'

unfoldable pub lookup_attempt :
    Cluster
    → ℕ
    → String
    → String
    → AttemptLedger
    → Result ExecutionError (AttemptRecord × AttemptLedger)
lookup_attempt cluster now principal attempt_id ledger =
    found cluster now principal attempt_id ledger (read attempt_id ledger)
