-- ===== src/Submission/Canonical.antt =====
-- backend/submission.py: canonical timestamps and attempt identifiers stay as they are.
use bmd_compute.Prelude.{
  take, drop, ℕ, zero, suc, ◌+◌, Bool, true, false, not, Option, some, List, [], ◌∷◌, ◌≡◌, refl, ok,
  raise_if, >>-eq-ok, raise_if-eq-ok, ok-injective, all, length, if◌then◌else◌, arith, inl, inr,
  subst, Bool-cases,
}
use bmd_compute.Prelude.Text.{strip, is_space}
use bmd_compute.Prelude.Strip.{strip-strip, strip-solid}
use bmd_compute.Submission.{is_empty, digits_then}
use bmd_compute.Submission.Timestamps.{
  IdentityError, dash_then, matches_run_timestamp, is_calendar_time, canonical_run_timestamp,
}
use bmd_compute.Submission.Identity.{Environment, canonical_uuid, normalized_submission_attempt_id}
use bmd_compute.Submission.Tokens.{is_identity_code, Documented}

-- Timestamps.
digits_then-codes :
    (n : ℕ) (rest : List ℕ → Bool) (s : List ℕ)
    → ((u : List ℕ) → rest u ≡ true → all is_identity_code u ≡ true)
    → digits_then n rest s ≡ true
    → all is_identity_code s ≡ true
digits_then-codes zero rest s later matched = later s matched
digits_then-codes (suc n) rest [] later matched = refl
digits_then-codes (suc n) rest (c ∷ s) later matched =
    ground (arith, matched, digits_then-codes n rest s later)

dash_then-codes :
    (rest : List ℕ → Bool) (s : List ℕ)
    → ((u : List ℕ) → rest u ≡ true → all is_identity_code u ≡ true)
    → dash_then rest s ≡ true
    → all is_identity_code s ≡ true
dash_then-codes rest [] later matched = refl
dash_then-codes rest (c ∷ s) later matched = ground (arith, matched, later s)

empty-codes : (s : List ℕ) → is_empty s ≡ true → all is_identity_code s ≡ true
empty-codes [] none_left = refl
empty-codes (c ∷ s) none_left = cc

run_timestamp-codes : (s : List ℕ) → matches_run_timestamp s ≡ true → all is_identity_code s ≡ true
run_timestamp-codes s matched =
    digits_then-codes 8 (dash_then (digits_then 6 is_empty)) s
      (λ u.
        dash_then-codes (digits_then 6 is_empty) u
          (λ v. digits_then-codes 6 is_empty v empty-codes))
      matched

length-take-drop : (n : ℕ) (s : List ℕ) → length s ≡ length (take n s) + length (drop n s)
length-take-drop zero s = omega arith
length-take-drop (suc n) [] = refl
length-take-drop (suc n) (c ∷ s) = omega (arith, length-take-drop n s)

-- The length of what is matched.
digits_then-length :
    (n k : ℕ) (rest : List ℕ → Bool) (s : List ℕ)
    → ((u : List ℕ) → rest u ≡ true → length u ≡ k)
    → digits_then n rest s ≡ true
    → length s ≡ n + k
digits_then-length n k rest s later matched =
    ground (arith, length-take-drop n s, later (drop n s), matched)

dash_then-length :
    (k : ℕ) (rest : List ℕ → Bool) (s : List ℕ)
    → ((u : List ℕ) → rest u ≡ true → length u ≡ k)
    → dash_then rest s ≡ true
    → length s ≡ 1 + k
dash_then-length k rest [] later matched = cc
dash_then-length k rest (c ∷ s) later matched = ground (arith, matched, later s)

empty-length : (s : List ℕ) → is_empty s ≡ true → length s ≡ 0
empty-length [] none_left = refl
empty-length (c ∷ s) none_left = cc

run_timestamp-length : (s : List ℕ) → matches_run_timestamp s ≡ true → length s ≡ 15
run_timestamp-length s matched =
    digits_then-length 8 7 (dash_then (digits_then 6 is_empty)) s
      (λ u.
        dash_then-length 6 (digits_then 6 is_empty) u
          (λ v. digits_then-length 6 0 is_empty v empty-length))
      matched

pub not_empty-length : (s : List ℕ) (n : ℕ) → length s ≡ suc n → is_empty s ≡ false
not_empty-length [] n long = absurd (omega (arith, long))
not_empty-length (c ∷ s) n long = refl

-- A canonical timestamp, and what the identity takes of it.
pub canonical_timestamp :
    (now value t : List ℕ)
    → canonical_run_timestamp now value ≡ ok t
    → (all is_identity_code t ≡ true) × (length t ≡ 15) × (canonical_run_timestamp now t ≡ ok t)
unfolding canonical_run_timestamp
canonical_timestamp now value t read =
    let stripped = strip (if is_empty value then now else value) in
    let (h1, k1) =
      >>-eq-ok
        (raise_if (not (matches_run_timestamp stripped)) IdentityError.wrong_timestamp_format) _
        read in
    let matched : matches_run_timestamp stripped ≡ true = ground (
      arith,
      raise_if-eq-ok (not (matches_run_timestamp stripped)) IdentityError.wrong_timestamp_format h1,
    ) in
    let (h2, k2) =
      >>-eq-ok (raise_if (not (is_calendar_time stripped)) IdentityError.not_a_time) _ k1 in
    let same : stripped ≡ t = ok-injective IdentityError k2 in
    let long = run_timestamp-length stripped matched in
    let again : canonical_run_timestamp now stripped ≡ ok stripped =
      rw
        (
          not_empty-length stripped 14 long,
          strip-strip (if is_empty value then now else value),
          h1,
          h2,
        )
        refl in
    subst
      (λ s.
        (all is_identity_code s ≡ true) × (length s ≡ 15) × (canonical_run_timestamp now s ≡ ok s))
      same (run_timestamp-codes stripped matched, long, again)

pub identity_codes-solid :
    (s : List ℕ) → all is_identity_code s ≡ true → all (λ c. not (is_space c)) s ≡ true
unfolding is_space
identity_codes-solid [] coded = refl
identity_codes-solid (c ∷ s) coded = ground (arith, coded, identity_codes-solid s)

-- A canonical attempt identifier.
module _ (e : Environment) (d : Documented e) where
  canonical_uuid-ok :
      (found : Option (List ℕ)) (id : List ℕ) → canonical_uuid e found ≡ ok id → found ≡ some id
  canonical_uuid-ok found id read = ground (arith, read)

  pub normalized-uuid :
      (value id : List ℕ) → normalized_submission_attempt_id e value ≡ ok id → e.uuid id ≡ some id
  unfolding normalized_submission_attempt_id
  normalized-uuid value id read = elim (Bool-cases (is_empty (strip value))) [
    | inl new ↦
        let same : e.new_attempt_id ≡ id = ok-injective IdentityError (ground (arith, new, read)) in
        subst (λ i. e.uuid i ≡ some i) same d.new_canonical
    | inr given ↦
        d.canonical (strip value) id
          (canonical_uuid-ok (e.uuid (strip value)) id (ground (arith, given, read)))
  ]

  pub uuid-normalized :
      (id : List ℕ)
      → e.uuid id ≡ some id
      → (all is_identity_code id ≡ true)
        × (length id ≡ 36)
        × (normalized_submission_attempt_id e id ≡ ok id)
  unfolding normalized_submission_attempt_id
  uuid-normalized id canonical =
      let coded = d.canonical_codes id id canonical in
      let long = d.canonical_length id id canonical in
      (
        coded,
        long,
        rw (strip-solid id (identity_codes-solid id coded), not_empty-length id 35 long, canonical)
            refl,
      )
