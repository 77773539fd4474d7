-- ===== src/Execution/Submits.antt =====
-- What a request may do to the cluster, and what the ledger's updates keep.
use bmd_compute.Prelude.{
  ℕ, String, true, false, none, some, ok, err, str_eq, eq_iff, ◌≡◌, ◌≢◌, refl, sym, ap, ◌∙◌, inl,
  inr, arith, Bool-cases, Option-cases,
}
use bmd_compute.Execution.Records.{AttemptRecord, AttemptLedger, read}
use bmd_compute.Execution.Limits.{ExecutionPolicy, attempt_forbidden}
use bmd_compute.Execution.Submissions.{is_claimed, reservation, reserve_submission}
use bmd_compute.Execution.Caps.{reserve_submission-caps}
use bmd_compute.Execution.Bind.{
  ExecutionRequest, Planner, bind_known, bind_try, bind_tries, bind_attempt,
}
use bmd_compute.Execution.Execute.{Answers, reserve, ledger_at_second_look, execute_attempt}

-- The ledger has a submission of the attempt that is reserved, submitted or uncertain.
abbrev pub Claimed : String → AttemptLedger → Type 0
Claimed attempt_id ledger =
    (r : AttemptRecord) × (read attempt_id ledger ≡ some r)
    × (is_claimed r.submission.status ≡ true)

reserve_submission-Claimed :
    (policy : ExecutionPolicy) (now : ℕ) (id principal : String) (ledger ledger' : AttemptLedger)
    → reserve_submission policy now id principal ledger ≡ ok ledger'
    → Claimed id ledger'
reserve_submission-Claimed policy now id principal ledger ledger' h =
    let (r, e, how) = reserve_submission-caps policy now id principal ledger ledger' h in
    elim how [
      | inl (c, same) ↦ (r, ap (λ x. read id x) same ∙ e, c)
      | inr (e', _, _) ↦ (reservation now r, e', refl)
    ]

differs_text : (x y : String) → x ≢ y → str_eq x y ≡ false
differs_text x y h = ground (arith, eq_iff x y, h)

module _ (planner : Planner) (policy : ExecutionPolicy) (principal attempt_id : String)
    (request : ExecutionRequest) (a : Answers) where
  reserve-Claimed :
      (ledger : AttemptLedger)
      → reserve planner policy principal attempt_id request a ≡ ok ledger
      → Claimed attempt_id ledger
  unfolding reserve
  reserve-Claimed ledger h = elim (Option-cases (read attempt_id a.ledger_before_reserving)) [
    | inl e ↦
        reserve_submission-Claimed policy a.now attempt_id principal
          (ledger_at_second_look planner policy principal attempt_id request a) ledger
          (ground (arith, e, h))
    | inr (r, e) ↦ elim (Bool-cases (is_claimed r.submission.status)) [
      | inl c ↦
          let same : a.ledger_before_reserving ≡ ledger = ground (arith, e, c, h) in
          (r, ap (λ x. read attempt_id x) (sym same) ∙ e, c)
      | inr c ↦
          reserve_submission-Claimed policy a.now attempt_id principal
            (ledger_at_second_look planner policy principal attempt_id request a) ledger
            (ground (arith, e, c, h))
    ]
  ]

  execute_attempt-reserves :
      (ledger : AttemptLedger)
      → (execute_attempt planner policy principal attempt_id request a).submits ≡ some ledger
      → (request.submit ≡ true)
        × (reserve planner policy principal attempt_id request a ≡ ok ledger)
  unfolding execute_attempt
  execute_attempt-reserves ledger h = ground (arith, h)

  -- Whatever the cluster answers and other requests do to the ledger, execute_attempt calls the
  -- submission only where the request asks for one, and only after the ledger it leaves holds the
  -- attempt with a reserved, submitted or uncertain submission.
  pub execute_attempt-submits :
      (ledger : AttemptLedger)
      → (execute_attempt planner policy principal attempt_id request a).submits ≡ some ledger
      → (request.submit ≡ true) × Claimed attempt_id ledger
  execute_attempt-submits ledger h =
      let (asked, e) = execute_attempt-reserves ledger h in (asked, reserve-Claimed ledger e)

  -- When the ledger has the attempt with another principal, execute_attempt ends with
  -- attempt_forbidden and neither prepares nor submits.
  pub execute_attempt-forbidden :
      (r : AttemptRecord)
      → read attempt_id (a.looks 0).read_ledger ≡ some r
      → r.principal ≢ principal
      → execute_attempt planner policy principal attempt_id request a
        ≡ record { outcome = err attempt_forbidden; prepares = false; submits = none }
  unfolding execute_attempt bind_attempt bind_tries bind_try bind_known
  execute_attempt-forbidden r e other =
      let differs : str_eq r.principal principal ≡ false =
        differs_text r.principal principal other in
      ground (arith, e, differs)
