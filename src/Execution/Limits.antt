-- ===== src/Execution/Limits.antt =====
-- compute_api/execution.py: the execution policy, the errors, and the limits on resources.
use bmd_compute.Prelude.{
  ℕ, zero, suc, ◌+◌, ◌*◌, ◌-◌, String, Bool, true, false, ◌&&◌, Option, none, some, List, [], ◌∷◌,
  ◌++◌, Result, ok, err, leb, ltb, ◌==◌, if◌then◌else◌,
}
use bmd_compute.Prelude.Text.{codes}
use bmd_compute.Execution.Records.{AttemptRecord, EffectiveResources}

pub record ExecutionPolicy : Type 0 where
  pub max_active_jobs : ℕ
  pub max_submissions_per_window : ℕ
  pub max_new_attempts_per_window : ℕ
  pub window : ℕ
  pub max_cpus : ℕ
  pub max_memory_gb : ℕ
  pub max_walltime_seconds : ℕ
  pub max_nodes : ℕ

abbrev pub default_policy : ExecutionPolicy
default_policy = record {
  max_active_jobs = 2;
  max_submissions_per_window = 5;
  max_new_attempts_per_window = 20;
  window = 24 * 3600;
  max_cpus = 96;
  max_memory_gb = 128;
  max_walltime_seconds = 72 * 3600;
  max_nodes = 1;
}

-- The errors by their codes; `planner_error` is any exception of the injected planner.
pub data ExecutionError : Type 0 where
  planner_error : ExecutionError
  resource_limit_exceeded : List String → ExecutionError
  remote_busy : ExecutionError
  remote_unavailable : ExecutionError
  ledger_inconsistent : ExecutionError
  remote_state_invalid : ExecutionError
  attempt_fingerprint_mismatch : ExecutionError
  submission_cap_exceeded : ExecutionError
  active_job_cap_exceeded : ExecutionError
  attempt_forbidden : ExecutionError
  attempt_request_mismatch : ExecutionError
  plan_digest_mismatch : String → ExecutionError
  plan_changed : ExecutionError
  attempt_cap_exceeded : ExecutionError
  attempt_busy : ExecutionError
  attempt_in_progress : ExecutionError
  prepare_failed : ExecutionError
  remote_state_unconfirmed : ExecutionError
  runtime_package_changed : ExecutionError
  submission_outcome_unconfirmed : ExecutionError
  submit_failed : ExecutionError
  submission_not_started : ExecutionError
  submission_is_uncertain : AttemptRecord → ExecutionError
  attempt_not_found : ExecutionError

is_digit : ℕ → Bool
is_digit c = leb 48 c && leb c 57

-- `[0-5]`
is_tens : ℕ → Bool
is_tens c = leb 48 c && leb c 53

-- `:[0-5][0-9]:[0-5][0-9]` after the hours.
clock : ℕ → List ℕ → Option ℕ
unfolding is_digit is_tens
clock hours (c1 ∷ m1 ∷ m2 ∷ c2 ∷ s1 ∷ s2 ∷ []) =
    if (c1 == 58) && is_tens m1 && is_digit m2 && (c2 == 58) && is_tens s1 && is_digit s2
    then some (hours * 3600 + ((m1 - 48) * 10 + (m2 - 48)) * 60 + ((s1 - 48) * 10 + (s2 - 48)))
    else none
clock hours _ = none

-- Up to `left` more digits of the hours.
hours_then_clock : ℕ → ℕ → List ℕ → Option ℕ
unfolding is_digit clock
hours_then_clock zero hours text = clock hours text
hours_then_clock (suc left) hours [] = none
hours_then_clock (suc left) hours (c ∷ text) =
    let more = hours_then_clock left (hours * 10 + (c - 48)) text in
    if is_digit c then more else clock hours (c ∷ text)

-- `_walltime_seconds`
first_digit : List ℕ → Option ℕ
unfolding is_digit hours_then_clock
first_digit [] = none
first_digit (c ∷ text) = if is_digit c then hours_then_clock 2 (c - 48) text else none

unfoldable pub walltime_seconds : String → Option ℕ
unfolding first_digit
walltime_seconds value = first_digit (codes value)

abbrev pub over_walltime : ExecutionPolicy → Option ℕ → Bool
over_walltime policy none = true
over_walltime policy (some s) = ltb policy.max_walltime_seconds s

abbrev problem_if : Bool → String → List String
problem_if true field = field ∷ []
problem_if false field = []

unfoldable pub resource_problems : ExecutionPolicy → EffectiveResources → List String
resource_problems policy r =
    problem_if (ltb policy.max_nodes r.nodes) "resources.nodes"
    ++ problem_if (ltb policy.max_cpus r.cpus) "resources.cpus"
    ++ problem_if (ltb policy.max_memory_gb r.memory_gb) "resources.memory_gb"
    ++ problem_if (over_walltime policy (walltime_seconds r.walltime)) "resources.walltime"

abbrev refuse_any : List String → Result ExecutionError (Unit {0})
refuse_any [] = ok tt
refuse_any (p ∷ problems) = err (resource_limit_exceeded (p ∷ problems))

unfoldable pub enforce_resource_policy :
    ExecutionPolicy → EffectiveResources → Result ExecutionError (Unit {0})
enforce_resource_policy policy r = refuse_any (resource_problems policy r)
