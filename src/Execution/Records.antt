-- ===== src/Execution/Records.antt =====
-- compute_api/ledger.py: the attempt records and the ledger that holds one file for each attempt.
-- The order of the records is that of their creation; times are seconds.
use bmd_compute.Prelude.{
  ℕ, String, Bool, true, false, Option, none, some, List, [], ◌∷◌, str_eq, if◌then◌else◌,
}

-- The record's "state".
pub data AttemptStatus : Type 0 where
  registered : AttemptStatus
  prepared : AttemptStatus
  submitted : AttemptStatus
  submission_uncertain : AttemptStatus

-- The record's "submission"."status".
pub data SubmissionStatus : Type 0 where
  not_requested : SubmissionStatus
  reserved : SubmissionStatus
  job_submitted : SubmissionStatus
  uncertain : SubmissionStatus
  released : SubmissionStatus

pub record Submission : Type 0 where
  pub status : SubmissionStatus
  pub reserved_at : Option ℕ
  pub job_id : Option String
  pub submitted_at : Option String

pub record Scheduler : Type 0 where
  pub available : Bool
  pub summary : String
  pub slurm_state : String
  pub terminal : Bool
  pub checked_at : ℕ

pub record EffectiveResources : Type 0 where
  pub nodes : ℕ
  pub cpus : ℕ
  pub memory_gb : ℕ
  pub walltime : String
  pub partition : String
  pub account : String

pub record AttemptRecord : Type 0 where
  pub attempt_id : String
  pub principal : String
  pub created_at : ℕ
  pub updated_at : ℕ
  pub run_timestamp : String
  pub request_sha256 : String
  pub plan_digest : String
  pub attempt_fingerprint : String
  pub resources : EffectiveResources
  pub state : AttemptStatus
  pub attempt_state : String
  pub run_name : String
  pub submission : Submission
  pub scheduler : Option Scheduler

abbrev pub AttemptLedger : Type 0
AttemptLedger = List AttemptRecord

unfoldable pub read : String → AttemptLedger → Option AttemptRecord
read attempt_id [] = none
read attempt_id (r ∷ ledger) =
    let rest = read attempt_id ledger in if str_eq r.attempt_id attempt_id then some r else rest

-- `os.replace` of the record's file.
unfoldable pub replace : AttemptRecord → AttemptLedger → AttemptLedger
replace record_new [] = record_new ∷ []
replace record_new (r ∷ ledger) =
    let rest = replace record_new ledger in
    if str_eq r.attempt_id record_new.attempt_id then record_new ∷ ledger else r ∷ rest

abbrev created : AttemptRecord → AttemptLedger → Option AttemptRecord → Bool × AttemptLedger
created record_new ledger (some _) = (false, ledger)
created record_new ledger none = (true, replace record_new ledger)

-- `O_CREAT | O_EXCL`: false where the record exists.
unfoldable pub create : AttemptRecord → AttemptLedger → Bool × AttemptLedger
create record_new ledger = created record_new ledger (read record_new.attempt_id ledger)
