-- ===== src/Execution/Caps.antt =====
-- The submission caps: what a reservation does to the number of a principal's submissions.
use bmd_compute.Prelude.{
  ℕ, ◌+◌, ◌-◌, ◌≤◌, ◌<◌, String, Bool, true, false, some, [], ◌∷◌, ok, str_eq, eq_iff, eq_refl, ◌≡◌,
  sym, ap, ◌∙◌, ◌⊎◌, inl, inr, arith, Bool-cases, Option-cases,
}
use bmd_compute.Execution.Records.{AttemptRecord, AttemptLedger, read, replace}
use bmd_compute.Execution.Limits.{ExecutionPolicy}
use bmd_compute.Execution.Submissions.{
  is_claimed, count, active_of, in_window_of, over_caps, reservation, reserve_submission,
}

abbrev one_if : Bool → ℕ
one_if true = 1
one_if false = 0

pub read-id :
    (id : String) (ledger : AttemptLedger) (r : AttemptRecord)
    → read id ledger ≡ some r
    → r.attempt_id ≡ id
unfolding read
read-id id [] r h = cc
read-id id (x ∷ ledger) r h = elim (Bool-cases (str_eq x.attempt_id id)) [
  | inl e ↦ ground (arith, e, h, eq_iff x.attempt_id id)
  | inr e ↦ read-id id ledger r (ground (arith, e, h))
]

-- A change of one record changes a count by that record alone.
pub count-replace :
    (p : AttemptRecord → Bool) (ledger : AttemptLedger) (r r' : AttemptRecord)
    → read r'.attempt_id ledger ≡ some r
    → count p (replace r' ledger) + one_if (p r) ≡ count p ledger + one_if (p r')
unfolding read replace count
count-replace p [] r r' h = cc
count-replace p (x ∷ ledger) r r' h = elim (Bool-cases (str_eq x.attempt_id r'.attempt_id)) [
  | inl e ↦ ground (arith, e)
  | inr e ↦ ground (arith, e, count-replace p ledger r r' (ground (arith, e)))
]

pub read-replace :
    (ledger : AttemptLedger) (r' : AttemptRecord) → read r'.attempt_id (replace r' ledger) ≡ some r'
unfolding read replace
read-replace [] r' = ground (arith, eq_refl r'.attempt_id)
read-replace (x ∷ ledger) r' = ground (arith, eq_refl r'.attempt_id, read-replace ledger r')

pub read-replace_other :
    (ledger : AttemptLedger) (r' : AttemptRecord) (id : String)
    → str_eq r'.attempt_id id ≡ false
    → read id (replace r' ledger) ≡ read id ledger
unfolding read replace
read-replace_other [] r' id h = ground (arith, h)
read-replace_other (x ∷ ledger) r' id h = elim (Bool-cases (str_eq x.attempt_id r'.attempt_id)) [
  | inl e ↦ ground (arith, e, h, eq_iff x.attempt_id r'.attempt_id)
  | inr e ↦ ground (arith, e, h, read-replace_other ledger r' id h)
]

-- The outcome for a record that was not claimed.
new_reservation :
    (policy : ExecutionPolicy) (now : ℕ) (id principal : String) (ledger ledger' : AttemptLedger)
    (r : AttemptRecord)
    → read id ledger ≡ some r
    → is_claimed r.submission.status ≡ false
    → reserve_submission policy now id principal ledger ≡ ok ledger'
    → (ledger' ≡ replace (reservation now r) ledger)
      × (count (active_of principal) ledger < policy.max_active_jobs)
      × (count (in_window_of principal (now - policy.window)) ledger
          < policy.max_submissions_per_window)
unfolding reserve_submission over_caps
new_reservation policy now id principal ledger ledger' r e c h = ground (arith, e, c, h)

one_if-le : (b : Bool) → one_if b ≤ 1
one_if-le b = ground arith

-- A successful reservation either finds the submission claimed and leaves the ledger as it is, or
-- stores the reservation, after which the principal's active jobs and its submissions in the
-- window are within their caps.
pub reserve_submission-caps :
    (policy : ExecutionPolicy) (now : ℕ) (id principal : String) (ledger ledger' : AttemptLedger)
    → reserve_submission policy now id principal ledger ≡ ok ledger'
    → (r : AttemptRecord) × (read id ledger ≡ some r)
      × (((is_claimed r.submission.status ≡ true) × (ledger' ≡ ledger))
          ⊎ ((read id ledger' ≡ some (reservation now r))
              × (count (active_of principal) ledger' ≤ policy.max_active_jobs)
              × (count (in_window_of principal (now - policy.window)) ledger'
                  ≤ policy.max_submissions_per_window)))
unfolding reserve_submission
reserve_submission-caps policy now id principal ledger ledger' h =
    elim (Option-cases (read id ledger)) [
      | inl e ↦ absurd (ground (arith, e, h))
      | inr (r, e) ↦ elim (Bool-cases (is_claimed r.submission.status)) [
        | inl c ↦ (r, e, inl (c, ground (arith, e, c, h)))
        | inr c ↦
            let (el, active, window) =
              new_reservation policy now id principal ledger ledger' r e c h in
            let r' = reservation now r in
            let same = read-id id ledger r e in
            let e' : read r.attempt_id ledger ≡ some r = ap (λ x. read x ledger) same ∙ e in
            let in_window = in_window_of principal (now - policy.window) in
            let counted = count-replace (active_of principal) ledger r r' e' in
            let counted_window = count-replace in_window ledger r r' e' in
            (
              r,
              e,
              inr (
                rw el (ap (λ x. read x (replace r' ledger)) (sym same) ∙ read-replace ledger r'),
                rw el (omega (arith, active, counted, one_if-le (active_of principal r'))),
                rw el (omega (arith, window, counted_window, one_if-le (in_window r'))),
              ),
            )
      ]
    ]
