-- ===== src/Submission/Tokens.antt =====
-- backend/submission.py: identity tokens that are created are verified, and what is verified is signed.
use bmd_compute.Prelude.{
  ℕ, ◌≤◌, Bool, true, false, not, ◌&&◌, ◌||◌, Option, none, some, List, [], ◌∷◌, ◌≡◌, ◌⊎◌, refl,
  sym, ap, ◌∙◌, ok, raise_if, >>=-eq-ok, >>-eq-ok, raise_if-eq-ok, ok-injective, all, length, ltb,
  leb, ◌==◌, arith, inl, inr, subst,
}
use bmd_compute.Prelude.Text.{codes_eq, codes_eq-eq, strip}
use bmd_compute.Submission.{is_empty}
use bmd_compute.Submission.Base64.{is_byte, urlsafe_b64decode}
use bmd_compute.Submission.Timestamps.{IdentityError, canonical_run_timestamp}
use bmd_compute.Submission.Identity.{
  Value, Payload, Environment, payload_text, dots, before_dot, after_dot, ascii, decoded,
  identity_fields, normalized_submission_attempt_id, loaded, require_attempt, signed_payload,
  payload_identity, verify_submission_identity_token,
}

-- `[0-9a-f-]`
abbrev pub is_identity_code : ℕ → Bool
is_identity_code c = (leb 48 c && leb c 57) || (leb 97 c && leb c 102) || (c == 45)

-- What the documentation of the functions that are called says.
pub record Documented (e : Environment) : Type 0 where
  pub canonical : (x y : List ℕ) → e.uuid x ≡ some y → e.uuid y ≡ some y
  pub canonical_codes : (x y : List ℕ) → e.uuid x ≡ some y → all is_identity_code y ≡ true
  pub canonical_length : (x y : List ℕ) → e.uuid x ≡ some y → length y ≡ 36
  pub new_canonical : e.uuid e.new_attempt_id ≡ some e.new_attempt_id
  pub digest_bytes : (m : List ℕ) → all is_byte (e.signature m) ≡ true
  pub digest_length : (m : List ℕ) → length (e.signature m) ≡ 32
  pub reads_back :
      (a t : List ℕ)
      → all is_identity_code a ≡ true
      → all is_identity_code t ≡ true
      → e.loads (payload_text a t)
        ≡ some (Payload.object (some (Value.string a)) (some (Value.string t)) (some Value.one))

-- A token without white space around it, its payload, and the identity that the payload names.
pub record Signed (e : Environment) (token attempt_id time : List ℕ) : Type 0 where
  pub one_dot : dots token ≡ 1
  pub short : length token ≤ 1024
  pub signed : urlsafe_b64decode (after_dot token) ≡ some (e.signature (before_dot token))
  pub bytes : List ℕ
  pub named_attempt : List ℕ
  pub named_time : List ℕ
  pub payload : urlsafe_b64decode (before_dot token) ≡ some bytes
  pub fields :
      e.loads bytes
      ≡ some (
          Payload.object
            (some (Value.string named_attempt))
            (some (Value.string named_time))
            (some Value.one))
  pub canonical_attempt : normalized_submission_attempt_id e named_attempt ≡ ok attempt_id
  pub canonical_time : canonical_run_timestamp e.now named_time ≡ ok time

identity_fields-eq-ok :
    (payload : Payload) (x y : List ℕ)
    → identity_fields payload ≡ ok (x, y)
    → payload ≡ Payload.object (some (Value.string x)) (some (Value.string y)) (some Value.one)
identity_fields-eq-ok payload x y named = ground (arith, named)

decoded-eq-ok :
    (error : IdentityError) (found : Option (List ℕ)) (bytes : List ℕ)
    → decoded error found ≡ ok bytes
    → found ≡ some bytes
decoded-eq-ok error found bytes read = ground (arith, read)

ascii-eq-ok : (s message : List ℕ) → ascii s ≡ ok message → message ≡ s
ascii-eq-ok s message read = ground (arith, read)

module _ (e : Environment) where
  loaded-fields :
      (found : Option (List ℕ)) (payload : Payload) (x y : List ℕ)
      → loaded e found ≡ ok payload
      → identity_fields payload ≡ ok (x, y)
      → (bytes : List ℕ) × (found ≡ some bytes)
        × (e.loads bytes
            ≡ some
                (Payload.object (some (Value.string x)) (some (Value.string y)) (some Value.one)))
  loaded-fields none payload x y read named = cc
  loaded-fields (some bytes) payload x y read named =
      (bytes, refl, ground (arith, read, identity_fields-eq-ok payload x y named))

  require_attempt-ok :
      (expected attempt_id : List ℕ)
      → require_attempt e expected attempt_id ≡ ok tt
      → (expected ≡ []) ⊎ (normalized_submission_attempt_id e expected ≡ ok attempt_id)
  require_attempt-ok [] attempt_id passed = inl refl
  require_attempt-ok (c ∷ expected) attempt_id passed =
      let (id, read, same) =
        >>=-eq-ok (normalized_submission_attempt_id e (c ∷ expected))
          (λ id. raise_if (not (codes_eq attempt_id id)) IdentityError.other_attempt) passed in
      let equal : codes_eq attempt_id id ≡ true =
        ground
          (arith, raise_if-eq-ok (not (codes_eq attempt_id id)) IdentityError.other_attempt same) in
      inr (read ∙ ap ok (sym (codes_eq-eq attempt_id id equal)))

  -- What passes the first checks has one dot, and the signature of what stands before it.
  signed_payload-eq-ok :
      (value : List ℕ) (payload : Payload)
      → signed_payload e value ≡ ok payload
      → (dots value ≡ 1)
        × (length value ≤ 1024)
        × (urlsafe_b64decode (after_dot value) ≡ some (e.signature (before_dot value)))
        × (loaded e (urlsafe_b64decode (before_dot value)) ≡ ok payload)
  unfolding signed_payload
  signed_payload-eq-ok value payload read =
      let malformed = is_empty value || ltb 1024 (length value) || not (dots value == 1) in
      let (h1, k1) = >>-eq-ok (raise_if malformed IdentityError.missing_or_malformed) _ read in
      let formed : malformed ≡ false =
        raise_if-eq-ok malformed IdentityError.missing_or_malformed h1 in
      let (message, h2, k2) = >>=-eq-ok (ascii (before_dot value)) _ k1 in
      let (signature, h3, k3) =
        >>=-eq-ok (decoded IdentityError.malformed_signature (urlsafe_b64decode (after_dot value)))
          _ k2 in
      let differs = not (codes_eq signature (e.signature message)) in
      let (h4, k4) = >>-eq-ok (raise_if differs IdentityError.invalid_signature) _ k3 in
      let equal : codes_eq signature (e.signature message) ≡ true =
        ground (arith, raise_if-eq-ok differs IdentityError.invalid_signature h4) in
      (
        ground (arith, formed),
        ground (arith, formed),
        decoded-eq-ok IdentityError.malformed_signature (urlsafe_b64decode (after_dot value))
              signature h3
            ∙ ap some (
                codes_eq-eq signature (e.signature message) equal
                ∙ ap e.signature (ascii-eq-ok (before_dot value) message h2)),
        k4,
      )

  payload_identity-eq-ok :
      (expected : List ℕ) (payload : Payload) (attempt_id time : List ℕ)
      → payload_identity e expected payload ≡ ok (attempt_id, time)
      → (x y : List ℕ) × (identity_fields payload ≡ ok (x, y))
        × (normalized_submission_attempt_id e x ≡ ok attempt_id)
        × (canonical_run_timestamp e.now y ≡ ok time)
        × ((expected ≡ []) ⊎ (normalized_submission_attempt_id e expected ≡ ok attempt_id))
  unfolding payload_identity
  payload_identity-eq-ok expected payload attempt_id time read =
      let ((x, y), h1, k1) = >>=-eq-ok (identity_fields payload) _ read in
      let (id, h2, k2) = >>=-eq-ok (normalized_submission_attempt_id e x) _ k1 in
      let (h3, k3) = >>-eq-ok (require_attempt e expected id) _ k2 in
      let (now, h4, k4) = >>=-eq-ok (canonical_run_timestamp e.now y) _ k3 in
      let same : (id, now) ≡ (attempt_id, time) = ok-injective IdentityError k4 in
      let matches =
        subst (λ i. (expected ≡ []) ⊎ (normalized_submission_attempt_id e expected ≡ ok i))
          (ap (λ p. p.0) same) (require_attempt-ok expected id h3) in
      (x, y, h1, h2 ∙ ap (λ p. ok p.0) same, h4 ∙ ap (λ p. ok p.1) same, matches)

  -- Whatever uuid, json and hmac compute, a token that is verified has one dot and, the white
  -- space around it removed, at most 1024 characters, carries the signature of what stands before
  -- the dot, and its payload names the attempt and the time that the verification returns, in
  -- canonical form; and where an attempt is expected, it is that attempt.
  pub verify_submission_identity_token-Signed :
      (token expected attempt_id time : List ℕ)
      → verify_submission_identity_token e token expected ≡ ok (attempt_id, time)
      → Signed e (strip token) attempt_id time
        × ((expected ≡ []) ⊎ (normalized_submission_attempt_id e expected ≡ ok attempt_id))
  unfolding verify_submission_identity_token
  verify_submission_identity_token-Signed token expected attempt_id time verified =
      let value = strip token in
      let (payload, read, named) =
        >>=-eq-ok (signed_payload e value) (payload_identity e expected) verified in
      let (one_dot, short, signed, loads) = signed_payload-eq-ok value payload read in
      let (x, y, fields, canonical, timed, matches) =
        payload_identity-eq-ok expected payload attempt_id time named in
      let (bytes, found, object) =
        loaded-fields (urlsafe_b64decode (before_dot value)) payload x y loads fields in
      (
        record {
          one_dot = one_dot;
          short = short;
          signed = signed;
          bytes = bytes;
          named_attempt = x;
          named_time = y;
          payload = found;
          fields = object;
          canonical_attempt = canonical;
          canonical_time = timed;
        },
        matches,
      )
