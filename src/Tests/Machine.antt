-- ===== src/Tests/Machine.antt =====
-- A principal's requests to the machine API.
use bmd_compute.Prelude.{
  ℕ, ◌-◌, ◌≤◌, ◌<◌, String, true, false, none, some, [], ◌∷◌, ok, err, ◌≡◌, ◌≢◌, refl, ap, str_eq,
  ◌⊎◌,
}
use bmd_compute.Execution.Records.{
  prepared, submitted, job_submitted, reserved, not_requested, Submission, EffectiveResources,
  AttemptRecord, AttemptLedger, read, registered,
}
use bmd_compute.Execution.Limits.{
  ExecutionPolicy, default_policy, ExecutionError, attempt_forbidden, remote_unavailable,
  walltime_seconds, enforce_resource_policy,
}
use bmd_compute.Execution.Within.{Within, enforce_resource_policy_iff}
use bmd_compute.Execution.Submissions.{
  RemoteState, is_claimed, count, active_of, in_window_of, reservation, reserve_submission,
  record_remote_state,
}
use bmd_compute.Execution.Caps.{reserve_submission-caps}
use bmd_compute.Execution.Bind.{
  ExecutionRequest, Plan, Look, Binding, Planner, new_record, bind_attempt,
}
use bmd_compute.Execution.Bound.{BoundTo, CreatedBy, bind_attempt-Bound}
use bmd_compute.Execution.Refresh.{Cluster, MonitorResult}
use bmd_compute.Execution.Execute.{
  Answers, Run, prepare_success, SubmitResult, execute_attempt, lookup_attempt,
}
use bmd_compute.Execution.Submits.{Claimed, execute_attempt-submits, execute_attempt-forbidden}
use bmd_compute.Execution.Updates.{SameBinding}
use bmd_compute.Execution.Lookup.{lookup_attempt-SameBinding}

abbrev resources : EffectiveResources
resources = record {
  nodes = 1;
  cpus = 32;
  memory_gb = 64;
  walltime = "24:00:00";
  partition = "power";
  account = "bmd";
}

reads_walltime : walltime_seconds "71:59:59" ≡ some 259199
unfolding walltime_seconds
reads_walltime = refl

refuses_walltime : walltime_seconds "71:60:59" ≡ none
unfolding walltime_seconds
refuses_walltime = refl

enforce_resource_policy_iff_example : Within default_policy resources
unfolding enforce_resource_policy bmd_compute.Execution.Limits.resource_problems walltime_seconds
enforce_resource_policy_iff_example = (enforce_resource_policy_iff default_policy resources).0 refl

abbrev plan : Plan
plan = record {
  resources = resources;
  attempt_fingerprint = "f1";
  attempt_state = "/logs/a1.json";
  run_name = "run_t1";
}

-- A planner that rebuilds the plan for its timestamp only.
abbrev planner : Planner
planner = record {
  plan_request = λ request attempt timestamp. ok plan;
  compute_plan_digest = λ p. "d1";
  request_sha256 = λ request. "r1";
}

abbrev request : ExecutionRequest
request = record {
  structure_text = "Si";
  desired_output = "energy_only";
  expected_plan_digest = "d1";
  submit = true;
}

abbrev attempt : AttemptRecord
attempt = new_record "a1" "alice" 100000 "r1" "d1" "t1" plan

abbrev ledger : AttemptLedger
ledger = attempt ∷ []

abbrev look : ℕ → Look
look k = record { read_ledger = []; locked_ledger = []; run_timestamp = "t1"; now = 100000 }

abbrev new_binding : Binding
new_binding = record { bound = attempt; plan = plan; written = some ledger }

binds : bind_attempt planner default_policy "a1" "alice" request look ≡ ok new_binding
unfolding bind_attempt bmd_compute.Execution.Bind.bind_tries bmd_compute.Execution.Bind.bind_try
    read bmd_compute.Execution.Bind.bind_new bmd_compute.Execution.Bind.planned
    enforce_resource_policy bmd_compute.Execution.Limits.resource_problems walltime_seconds count
    bmd_compute.Execution.Records.create bmd_compute.Execution.Records.replace
binds = refl

bind_attempt-Bound_example :
    (k : ℕ) × (k < 5)
    × BoundTo planner default_policy "a1" "alice" request attempt plan
    × ((read "a1" (look k).read_ledger ≡ some attempt)
        ⊎ CreatedBy planner default_policy "a1" "alice" request (look k) new_binding)
bind_attempt-Bound_example =
    bind_attempt-Bound planner default_policy "a1" "alice" request look new_binding binds

abbrev reserved_ledger : AttemptLedger
reserved_ledger = reservation 100060 attempt ∷ []

reserves : reserve_submission default_policy 100060 "a1" "alice" ledger ≡ ok reserved_ledger
unfolding reserve_submission read bmd_compute.Execution.Submissions.over_caps count
    bmd_compute.Execution.Submissions.counts_toward_window
    bmd_compute.Execution.Submissions.is_active bmd_compute.Execution.Records.replace
reserves = refl

reserve_submission-caps_example :
    (r : AttemptRecord) × (read "a1" ledger ≡ some r)
    × (((is_claimed r.submission.status ≡ true) × (reserved_ledger ≡ ledger))
        ⊎ ((read "a1" reserved_ledger ≡ some (reservation 100060 r))
            × (count (active_of "alice") reserved_ledger ≤ 2)
            × (count (in_window_of "alice" (100060 - 86400)) reserved_ledger ≤ 5)))
reserve_submission-caps_example =
    reserve_submission-caps default_policy 100060 "a1" "alice" ledger reserved_ledger reserves

abbrev prepared_state : RemoteState
prepared_state = record {
  attempt_id = "a1";
  fingerprint = "f1";
  state = "PREPARED";
  remote_job_id = none;
  remote_submitted_at = none;
  prepared_runtime_digest = some "p1";
}

abbrev submitted_state : RemoteState
submitted_state = record prepared_state {
  state = "SUBMITTED";
  remote_job_id = some "17";
  remote_submitted_at = some "2026-01-01 00:00:00";
}

abbrev cluster : Cluster
cluster = record {
  read_remote_attempt_state = λ r. ok (some prepared_state);
  monitor_submitted_job =
      λ r job. record { success = true; summary = "RUNNING"; slurm_state = "RUNNING" };
}

-- The attempt is prepared by this request, reserved and submitted.
abbrev answers : Answers
answers = record {
  looks = look;
  first_state = ok none;
  prepare_result = prepare_success;
  state_after_prepare = ok (some prepared_state);
  current_runtime_digest = "p1";
  ledger_to_record = ledger;
  ledger_before_reserving = ledger;
  cluster = cluster;
  others_before_reserving = λ l. l;
  submit_result = record { has_exit_code = false; reason_is_busy = false };
  state_after_submit = ok (some submitted_state);
  ledger_at_end = reserved_ledger;
  now = 100060;
}

submits :
    (execute_attempt planner default_policy "alice" "a1" request answers).submits
    ≡ some reserved_ledger
unfolding execute_attempt bind_attempt bmd_compute.Execution.Bind.bind_tries
    bmd_compute.Execution.Bind.bind_try read bmd_compute.Execution.Bind.bind_new
    bmd_compute.Execution.Bind.planned enforce_resource_policy
    bmd_compute.Execution.Limits.resource_problems walltime_seconds count
    bmd_compute.Execution.Records.create bmd_compute.Execution.Refresh.require_state_matches
    bmd_compute.Execution.Submissions.over_caps bmd_compute.Execution.Records.replace
    record_remote_state bmd_compute.Execution.Submissions.update_record
    bmd_compute.Execution.Submissions.with_remote_state reserve_submission
    bmd_compute.Execution.Execute.reserve bmd_compute.Execution.Submissions.is_active
    bmd_compute.Execution.Submissions.counts_toward_window
submits = refl

execute_attempt-submits_example : (true ≡ true) × Claimed "a1" reserved_ledger
execute_attempt-submits_example =
    execute_attempt-submits planner default_policy "alice" "a1" request answers reserved_ledger
      submits

abbrev known_look : ℕ → Look
known_look k = record {
  read_ledger = ledger;
  locked_ledger = ledger;
  run_timestamp = "t2";
  now = 100100;
}

names_differ : ◌≢◌ {A = String} "alice" "mallory"
names_differ e = let p : false ≡ true = ap (λ x. str_eq x "mallory") e in cc

execute_attempt-forbidden_example :
    execute_attempt planner default_policy "mallory" "a1" request
      (record answers { looks = known_look })
    ≡ record { outcome = err attempt_forbidden; prepares = false; submits = none }
unfolding read
execute_attempt-forbidden_example =
    execute_attempt-forbidden planner default_policy "mallory" "a1" request
      (record answers { looks = known_look }) attempt refl names_differ

-- The record and the ledger after the remote state SUBMITTED was recorded.
abbrev submitted_attempt : AttemptRecord
submitted_attempt = record attempt {
  updated_at = 100100;
  state = submitted;
  submission = record {
    status = job_submitted;
    reserved_at = some 100060;
    job_id = some "17";
    submitted_at = some "2026-01-01 00:00:00";
  };
}

records :
    record_remote_state 100100 "a1" (some submitted_state) reserved_ledger
    ≡ ok (submitted_attempt, submitted_attempt ∷ [])
unfolding record_remote_state bmd_compute.Execution.Submissions.update_record
    bmd_compute.Execution.Submissions.with_remote_state read bmd_compute.Execution.Records.replace
records = refl

abbrev prepared_attempt : AttemptRecord
prepared_attempt = record attempt { updated_at = 100100; state = prepared }

looks_up :
    lookup_attempt cluster 100100 "alice" "a1" ledger ≡ ok (prepared_attempt, prepared_attempt ∷ [])
unfolding lookup_attempt bmd_compute.Execution.Refresh.refresh_scheduler
    bmd_compute.Execution.Refresh.require_state_matches record_remote_state
    bmd_compute.Execution.Submissions.update_record
    bmd_compute.Execution.Submissions.with_remote_state read bmd_compute.Execution.Records.replace
looks_up = refl

lookup_attempt-SameBinding_example :
    (old : AttemptRecord) × (read "a1" ledger ≡ some old)
    × (old.principal ≡ "alice")
    × SameBinding old prepared_attempt
lookup_attempt-SameBinding_example =
    lookup_attempt-SameBinding cluster 100100 "alice" "a1" ledger (prepared_attempt ∷ [])
      prepared_attempt looks_up
