-- ===== src/Execution/Refresh.antt =====
-- compute_api/execution.py: `_refresh_scheduler` and `_refresh_active_records`. What the cluster
-- answers is an argument.
use bmd_compute.Prelude.{
  ℕ, String, Bool, true, false, not, ◌||◌, Option, none, some, List, [], ◌∷◌, any, Result, ok, err,
  ◌>>◌, raise_if, str_eq, if◌then◌else◌,
}
use bmd_compute.Execution.Records.{
  Scheduler, SubmissionStatus, reserved, uncertain, AttemptRecord, AttemptLedger,
}
use bmd_compute.Execution.Limits.{ExecutionError, attempt_fingerprint_mismatch}
use bmd_compute.Execution.Submissions.{RemoteState, update_record, record_remote_state, is_active}

-- What `monitor_submitted_job` reports, with the fields that the model keeps.
pub record MonitorResult : Type 0 where
  pub success : Bool
  pub summary : String
  pub slurm_state : String

-- The cluster's answers about a record.
pub record Cluster : Type 0 where
  pub read_remote_attempt_state : AttemptRecord → Result ExecutionError (Option RemoteState)
  pub monitor_submitted_job : AttemptRecord → String → MonitorResult

abbrev known_summary : String → Bool
known_summary s =
    any (λ t. str_eq t s) ("PENDING" ∷ "RUNNING" ∷ "SUCCESS" ∷ "FAILURE" ∷ "UNKNOWN" ∷ [])

abbrev was_terminal : Option Scheduler → Bool
was_terminal none = false
was_terminal (some s) = s.terminal

unfoldable pub scheduler_from : ℕ → MonitorResult → Option Scheduler → Scheduler
scheduler_from now result old =
    if not result.success
    then (record {
      available = false;
      summary = "UNKNOWN";
      slurm_state = "UNKNOWN";
      terminal = was_terminal old;
      checked_at = now;
    })
    else record {
      available = true;
      summary = if known_summary result.summary then result.summary else "UNKNOWN";
      slurm_state = result.slurm_state;
      terminal = str_eq result.summary "SUCCESS" || str_eq result.summary "FAILURE";
      checked_at = now;
    }

-- `_require_state_matches`
unfoldable pub require_state_matches :
    RemoteState → AttemptRecord → Result ExecutionError (Unit {0})
require_state_matches s r = do
  raise_if (not (str_eq s.attempt_id r.attempt_id)) attempt_fingerprint_mismatch
  raise_if (not (str_eq s.fingerprint r.attempt_fingerprint)) attempt_fingerprint_mismatch

abbrev pub with_scheduler : Cluster → ℕ → AttemptRecord → String → AttemptRecord → AttemptRecord
with_scheduler cluster now r job stored = record stored {
  scheduler = some (scheduler_from now (cluster.monitor_submitted_job r job) r.scheduler);
}

abbrev monitored :
    Cluster
    → ℕ
    → AttemptRecord
    → Option String
    → AttemptLedger
    → Result ExecutionError (AttemptRecord × AttemptLedger)
monitored cluster now r none ledger = ok (r, ledger)
monitored cluster now r (some job) ledger =
    update_record now r.attempt_id (with_scheduler cluster now r job) ledger

unfoldable pub refresh_scheduler :
    Cluster
    → ℕ
    → AttemptRecord
    → AttemptLedger
    → Result ExecutionError (AttemptRecord × AttemptLedger)
refresh_scheduler cluster now r ledger = monitored cluster now r r.submission.job_id ledger

-- The ledger after a step of the loop; an `ExecutionError` leaves it as it was.
abbrev ledger_or :
    AttemptLedger → Result ExecutionError (AttemptRecord × AttemptLedger) → AttemptLedger
ledger_or ledger (ok (_, ledger')) = ledger'
ledger_or ledger (err _) = ledger

abbrev is_unresolved : SubmissionStatus → Bool
is_unresolved reserved = true
is_unresolved uncertain = true
is_unresolved _ = false

-- The loop's record after the remote state was read, with the ledger.
abbrev resolved :
    ℕ
    → AttemptRecord
    → AttemptLedger
    → Result ExecutionError (Option RemoteState)
    → Result ExecutionError (AttemptRecord × AttemptLedger)
resolved now r ledger (err e) = err e
resolved now r ledger (ok none) = ok (r, ledger)
resolved now r ledger (ok (some s)) =
    if str_eq s.state "SUBMITTED"
    then require_state_matches s r >> record_remote_state now r.attempt_id (some s) ledger
    else ok (r, ledger)

-- A failing refresh keeps the change that the record's remote state made.
abbrev then_refresh :
    Cluster
    → ℕ
    → AttemptLedger
    → Result ExecutionError (AttemptRecord × AttemptLedger)
    → AttemptLedger
then_refresh cluster now ledger (err e) = ledger
then_refresh cluster now ledger (ok (r, ledger')) =
    ledger_or ledger' (refresh_scheduler cluster now r ledger')

unfoldable pub refresh_active_record : Cluster → ℕ → AttemptRecord → AttemptLedger → AttemptLedger
refresh_active_record cluster now r ledger =
    if is_unresolved r.submission.status
    then then_refresh cluster now ledger
        (resolved now r ledger (cluster.read_remote_attempt_state r))
    else then_refresh cluster now ledger (ok (r, ledger))

unfoldable pub refresh_active_records :
    Cluster → ℕ → String → String → List AttemptRecord → AttemptLedger → AttemptLedger
refresh_active_records cluster now principal exclude [] ledger = ledger
refresh_active_records cluster now principal exclude (r ∷ records) ledger =
    let after =
      (if not (str_eq r.principal principal) || str_eq r.attempt_id exclude || not (is_active r)
        then ledger
        else refresh_active_record cluster now r ledger) in
    refresh_active_records cluster now principal exclude records after
