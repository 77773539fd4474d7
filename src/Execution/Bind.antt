-- ===== src/Execution/Bind.antt =====
-- compute_api/execution.py: `_bind_attempt`. The planner, the plan's digest and the request's digest
-- are arguments. A `Look` is what one try of the loop sees: the ledger when it reads, the ledger
-- when it has the lock, a new timestamp, and the time.
use bmd_compute.Prelude.{
  ℕ, zero, suc, ◌-◌, String, Bool, true, false, not, ◌&&◌, Option, none, some, any, Result, ok, err,
  ◌>>=◌, ◌>>◌, raise_if, leb, str_eq, if◌then◌else◌,
}
use bmd_compute.Execution.Records.{
  registered, not_requested, EffectiveResources, AttemptRecord, AttemptLedger, read, create,
}
use bmd_compute.Execution.Limits.{
  ExecutionPolicy, ExecutionError, attempt_forbidden, attempt_request_mismatch,
  plan_digest_mismatch, plan_changed, attempt_fingerprint_mismatch, attempt_cap_exceeded,
  attempt_busy, enforce_resource_policy,
}
use bmd_compute.Execution.Submissions.{count}

pub record ExecutionRequest : Type 0 where
  pub structure_text : String
  pub desired_output : String
  pub expected_plan_digest : String
  pub submit : Bool

-- What the code reads of a plan's submission specification.
pub record Plan : Type 0 where
  pub resources : EffectiveResources
  pub attempt_fingerprint : String
  pub attempt_state : String
  pub run_name : String

pub record Look : Type 0 where
  pub read_ledger : AttemptLedger
  pub locked_ledger : AttemptLedger
  pub run_timestamp : String
  pub now : ℕ

-- `_bind_attempt`'s result, with the ledger that it wrote where it created the record.
pub record Binding : Type 0 where
  pub bound : AttemptRecord
  pub plan : Plan
  pub written : Option AttemptLedger

-- The planner and the digests, which the service injects or imports.
pub record Planner : Type 0 where
  pub plan_request : ExecutionRequest → String → String → Result ExecutionError Plan
  pub compute_plan_digest : Plan → String
  pub request_sha256 : ExecutionRequest → String

abbrev pub authorize_record : AttemptRecord → String → Result ExecutionError (Unit {0})
authorize_record r principal = raise_if (not (str_eq r.principal principal)) attempt_forbidden

abbrev pub new_record : String → String → ℕ → String → String → String → Plan → AttemptRecord
new_record attempt_id principal now request_digest plan_digest timestamp plan = record {
  attempt_id = attempt_id;
  principal = principal;
  created_at = now;
  updated_at = now;
  run_timestamp = timestamp;
  request_sha256 = request_digest;
  plan_digest = plan_digest;
  attempt_fingerprint = plan.attempt_fingerprint;
  resources = plan.resources;
  state = registered;
  attempt_state = plan.attempt_state;
  run_name = plan.run_name;
  submission = record {
    status = not_requested;
    reserved_at = none;
    job_id = none;
    submitted_at = none;
  };
  scheduler = none;
}

abbrev pub uses_timestamp : String → AttemptRecord → Bool
uses_timestamp timestamp r = str_eq r.run_timestamp timestamp

abbrev pub created_by : String → ℕ → AttemptRecord → Bool
created_by principal since r = str_eq r.principal principal && leb since r.created_at

module _ (planner : Planner) (policy : ExecutionPolicy) (attempt_id principal : String)
    (request : ExecutionRequest) where
  -- The plan for a timestamp: it has the expected digest, and keeps the limits on resources.
  unfoldable pub planned : String → Result ExecutionError Plan
  planned timestamp = do
    plan ← planner.plan_request request attempt_id timestamp
    let digest = planner.compute_plan_digest plan
    raise_if (not (str_eq digest request.expected_plan_digest)) (plan_digest_mismatch digest)
    enforce_resource_policy policy plan.resources
    ok plan

  unfoldable pub bind_known : AttemptRecord → Result ExecutionError Binding
  bind_known r = do
    authorize_record r principal
    raise_if (not (str_eq r.request_sha256 (planner.request_sha256 request)))
        attempt_request_mismatch
    plan ← planned r.run_timestamp
    raise_if (not (str_eq r.plan_digest (planner.compute_plan_digest plan))) plan_changed
    raise_if (not (str_eq r.attempt_fingerprint plan.attempt_fingerprint))
        attempt_fingerprint_mismatch
    ok (record { bound = r; plan = plan; written = none })

  abbrev registered_by : AttemptRecord → Plan → Bool × AttemptLedger → Option Binding
  registered_by r plan (true, ledger) =
      some (record { bound = r; plan = plan; written = some ledger })
  registered_by r plan (false, ledger) = none

  abbrev register_new : Look → Plan → Option AttemptRecord → Result ExecutionError (Option Binding)
  register_new look plan (some _) = ok none
  register_new look plan none =
      if any (uses_timestamp look.run_timestamp) look.locked_ledger
      then ok none
      else if leb policy.max_new_attempts_per_window
          (count (created_by principal (look.now - policy.window)) look.locked_ledger)
      then err attempt_cap_exceeded
      else let r =
          new_record attempt_id principal look.now (planner.request_sha256 request)
            (planner.compute_plan_digest plan) look.run_timestamp plan in
        ok (registered_by r plan (create r look.locked_ledger))

  unfoldable pub bind_new : Look → Result ExecutionError (Option Binding)
  bind_new look = do
    plan ← planned look.run_timestamp
    register_new look plan (read attempt_id look.locked_ledger)

  abbrev bind_look : Look → Option AttemptRecord → Result ExecutionError (Option Binding)
  bind_look look (some r) = do b ← bind_known r; ok (some b)
  bind_look look none = bind_new look

  -- One try: none where the loop goes on.
  unfoldable pub bind_try : Look → Result ExecutionError (Option Binding)
  bind_try look = bind_look look (read attempt_id look.read_ledger)

  abbrev settle :
      Result ExecutionError (Option Binding)
      → Result ExecutionError Binding
      → Result ExecutionError Binding
  settle (err e) later = err e
  settle (ok none) later = later
  settle (ok (some b)) later = ok b

  unfoldable pub bind_tries : ℕ → (ℕ → Look) → Result ExecutionError Binding
  bind_tries zero looks = err attempt_busy
  bind_tries (suc n) looks = settle (bind_try (looks 0)) (bind_tries n (λ k. looks (suc k)))

  unfoldable pub bind_attempt : (ℕ → Look) → Result ExecutionError Binding
  bind_attempt looks = bind_tries 5 looks
