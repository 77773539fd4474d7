-- ===== src/Submission/Timestamps.antt =====
-- backend/submission.py, canonical_run_timestamp: `YYYYMMDD-HHMMSS`, a time of the calendar.
use bmd_compute.Prelude.{
  ℕ, ◌%◌, Bool, false, not, ◌&&◌, ◌||◌, List, [], ◌∷◌, take, drop, leb, ◌==◌, Result, ok, raise_if,
  ◌>>◌, if◌then◌else◌,
}
use bmd_compute.Prelude.Text.{strip}
use bmd_compute.Prelude.Decimal.{number}
use bmd_compute.Submission.{is_empty, digits_then}

-- A ValueError is what its message names.
pub data IdentityError : Type 0 where
  wrong_timestamp_format not_a_time attempt_id_not_uuid missing_or_malformed : IdentityError
  not_ascii malformed_signature invalid_signature malformed_payload : IdentityError
  unsupported_version other_attempt : IdentityError

abbrev pub dash_then : (List ℕ → Bool) → List ℕ → Bool
dash_then rest [] = false
dash_then rest (c ∷ s) = (c == 45) && rest s

-- RUN_TIMESTAMP_PATTERN
abbrev pub matches_run_timestamp : List ℕ → Bool
matches_run_timestamp = digits_then 8 (dash_then (digits_then 6 is_empty))

abbrev pub is_leap_year : ℕ → Bool
is_leap_year year = (year % 4 == 0) && (not (year % 100 == 0) || (year % 400 == 0))

abbrev pub days_in_month : ℕ → ℕ → ℕ
days_in_month year month =
    if month == 2
    then (if is_leap_year year then 29 else 28)
    else if (month == 4) || (month == 6) || (month == 9) || (month == 11)
    then 30
    else 31

abbrev pub between : ℕ → ℕ → ℕ → Bool
between low high n = leb low n && leb n high

-- What `time.strptime` accepts of text that has the format; 60 and 61 are leap seconds.
unfoldable pub is_calendar_time : List ℕ → Bool
unfolding number
is_calendar_time text =
    let year = number (take 4 text) in
    let month = number (take 2 (drop 4 text)) in
    leb 1 year
    && between 1 12 month
    && between 1 (days_in_month year month) (number (take 2 (drop 6 text)))
    && leb (number (take 2 (drop 9 text))) 23
    && leb (number (take 2 (drop 11 text))) 59
    && leb (number (take 2 (drop 13 text))) 61

-- `now` is the time of the clock, which stands for missing or empty text.
unfoldable pub canonical_run_timestamp : List ℕ → List ℕ → Result IdentityError (List ℕ)
unfolding is_calendar_time
canonical_run_timestamp now value = do
  let timestamp = strip (if is_empty value then now else value)
  raise_if (not (matches_run_timestamp timestamp)) IdentityError.wrong_timestamp_format
  raise_if (not (is_calendar_time timestamp)) IdentityError.not_a_time
  ok timestamp
