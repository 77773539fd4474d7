-- ===== src/Monitoring/States.antt =====
-- backend/monitoring.py: the identifiers and the states of Slurm jobs. Letters and white space are
-- those of ASCII.
use bmd_compute.Prelude.{
  ℕ, ◌-◌, Bool, true, false, not, ◌&&◌, ◌||◌, List, [], ◌∷◌, any, all, map, leb, ◌==◌,
  if◌then◌else◌,
}
use bmd_compute.Prelude.Text.{codes, codes_eq, strip, starts_with}
use bmd_compute.Prelude.Decimal.{is_digit}

abbrev pub is_empty : List ℕ → Bool
is_empty [] = true
is_empty _ = false

abbrev is_one_of : List (List ℕ) → List ℕ → Bool
is_one_of texts text = any (codes_eq text) texts

upper_code : ℕ → ℕ
upper_code c = if leb 97 c && leb c 122 then c - 32 else c

unfoldable pub upper : List ℕ → List ℕ
unfolding upper_code
upper text = map upper_code text

-- `text.removesuffix(suffix)`
unfoldable pub without_suffix : List ℕ → List ℕ → List ℕ
without_suffix suffix [] = []
without_suffix suffix (c ∷ text) =
    let rest = without_suffix suffix text in if codes_eq (c ∷ text) suffix then [] else c ∷ rest

-- After `strip` no line feed is left before the end.
unfoldable pub strip_job_id : List ℕ → List ℕ
strip_job_id job_id =
    let stripped = strip job_id in
    let without_batch = without_suffix (codes ".batch") stripped in
    if codes_eq without_batch stripped
    then without_suffix (codes ".extern") stripped
    else without_batch

abbrev digits : List ℕ → Bool
digits text = all is_digit text && not (is_empty text)

-- What follows the first part of `[0-9]+(?:_[0-9]+)?`; the flag says that a digit was read.
abbrev job_id_from : Bool → List ℕ → Bool
job_id_from read [] = read
job_id_from read (c ∷ text) =
    let rest = job_id_from true text in
    if is_digit c then rest else read && (c == 95) && digits text

unfoldable pub is_valid_slurm_job_id : List ℕ → Bool
unfolding strip_job_id
is_valid_slurm_job_id job_id = job_id_from false (strip_job_id job_id)

abbrev pub pending_states : List (List ℕ)
pending_states =
    codes "PENDING"
    ∷ codes "CONFIGURING"
    ∷ codes "REQUEUE_FED"
    ∷ codes "REQUEUE_HOLD"
    ∷ codes "REQUEUED"
    ∷ codes "RESIZING"
    ∷ codes "SUSPENDED"
    ∷ codes "STAGE_OUT"
    ∷ codes "RESV_DEL_HOLD"
    ∷ []

abbrev pub running_states : List (List ℕ)
running_states = codes "RUNNING" ∷ codes "COMPLETING" ∷ codes "SIGNALING" ∷ []

abbrev pub failure_prefixes : List (List ℕ)
failure_prefixes =
    codes "BOOT_FAIL"
    ∷ codes "FAILED"
    ∷ codes "CANCELLED"
    ∷ codes "DEADLINE"
    ∷ codes "TIMEOUT"
    ∷ codes "OUT_OF_MEMORY"
    ∷ codes "NODE_FAIL"
    ∷ codes "PREEMPTED"
    ∷ codes "REVOKED"
    ∷ codes "SPECIAL_EXIT"
    ∷ codes "STOPPED"
    ∷ []

pub data Summary : Type 0 where
  pending running success failure unknown : Summary

abbrev pub exits_normally : List ℕ → Bool
exits_normally exit_text = is_empty exit_text || starts_with (codes "0:0") exit_text

-- The exit code is the empty text where there is none.
unfoldable pub classify_slurm_state : List ℕ → List ℕ → Summary
classify_slurm_state state exit_text =
    let state_upper = upper state in
    if is_one_of pending_states state_upper
    then Summary.pending
    else if is_one_of running_states state_upper
    then Summary.running
    else if starts_with (codes "COMPLETED") state_upper && exits_normally exit_text
    then Summary.success
    else if any (λ prefix. starts_with prefix state_upper) failure_prefixes
    then Summary.failure
    else if not (exits_normally exit_text)
    then Summary.failure
    else Summary.unknown
