-- ===== src/Submission/Created.antt =====
-- backend/submission.py: a created identity token is verified, and gives its identity back.
use bmd_compute.Prelude.{
  ℕ, true, false, not, some, List, [], ◌∷◌, ◌++◌, ◌≡◌, ◌⊎◌, refl, ◌∙◌, ok, >>=-eq-ok, ok-injective,
  all, length, ltb, arith, inl, inr, subst, length-append,
}
use bmd_compute.Prelude.Text.{codes_eq-same, codes, is_space}
use bmd_compute.Prelude.Split.{all-append}
use bmd_compute.Prelude.Strip.{strip-solid}
use bmd_compute.Submission.{is_empty}
use bmd_compute.Submission.Base64.{
  is_byte, is_base64_code, urlsafe_b64encode, urlsafe_b64decode, encode-base64, encode-length,
  decode-encode,
}
use bmd_compute.Submission.Timestamps.{IdentityError, canonical_run_timestamp}
use bmd_compute.Submission.Identity.{
  Value, Payload, Environment, payload_text, dots, before_dot, after_dot,
  normalized_submission_attempt_id, create_submission_identity_token, loaded, require_attempt,
  signed_payload, payload_identity, verify_submission_identity_token,
}
use bmd_compute.Submission.Tokens.{is_identity_code, Documented}
use bmd_compute.Submission.Canonical.{
  canonical_timestamp, normalized-uuid, uuid-normalized, not_empty-length,
}

token-solid :
    (x y : List ℕ)
    → all is_base64_code x ≡ true
    → all is_base64_code y ≡ true
    → all (λ c. not (is_space c)) (x ++ (46 ∷ y)) ≡ true
unfolding is_space
token-solid [] [] left right = refl
token-solid [] (c ∷ y) left right = ground (arith, right, token-solid [] y)
token-solid (c ∷ x) y left right = ground (arith, left, token-solid x y)

dots-base64 : (x : List ℕ) → all is_base64_code x ≡ true → dots x ≡ 0
dots-base64 [] coded = refl
dots-base64 (c ∷ x) coded = ground (arith, coded, dots-base64 x)

token-dots :
    (x y : List ℕ)
    → all is_base64_code x ≡ true
    → all is_base64_code y ≡ true
    → dots (x ++ (46 ∷ y)) ≡ 1
token-dots [] y left right = ground (arith, dots-base64 y)
token-dots (c ∷ x) y left right = ground (arith, left, token-dots x y)

token-before : (x y : List ℕ) → all is_base64_code x ≡ true → before_dot (x ++ (46 ∷ y)) ≡ x
token-before [] y coded = refl
token-before (c ∷ x) y coded = ground (arith, coded, token-before x y)

token-after : (x y : List ℕ) → all is_base64_code x ≡ true → after_dot (x ++ (46 ∷ y)) ≡ y
token-after [] y coded = refl
token-after (c ∷ x) y coded = ground (arith, coded, token-after x y)

base64-ascii : (x : List ℕ) → all is_base64_code x ≡ true → all (λ c. ltb c 128) x ≡ true
base64-ascii [] coded = refl
base64-ascii (c ∷ x) coded = ground (arith, coded, base64-ascii x)

identity_codes-bytes : (x : List ℕ) → all is_identity_code x ≡ true → all is_byte x ≡ true
identity_codes-bytes [] coded = refl
identity_codes-bytes (c ∷ x) coded = ground (arith, coded, identity_codes-bytes x)

-- Bytes that are there are read back.
decode-encode_all :
    (bytes : List ℕ)
    → is_empty bytes ≡ false
    → all is_byte bytes ≡ true
    → urlsafe_b64decode (urlsafe_b64encode bytes) ≡ some bytes
decode-encode_all [] some_bytes small = cc
decode-encode_all (b ∷ bytes) some_bytes small = decode-encode b bytes small

payload-bytes :
    (a t : List ℕ)
    → all is_identity_code a ≡ true
    → all is_identity_code t ≡ true
    → all is_byte (payload_text a t) ≡ true
payload-bytes a t coded coded' =
    all-append is_byte a _ (identity_codes-bytes a coded)
      (all-append is_byte t _ (identity_codes-bytes t coded') refl)

payload-length : (a t : List ℕ) → length a ≡ 36 → length t ≡ 15 → length (payload_text a t) ≡ 99
payload-length a t long long' = omega (
  arith,
  length-append a (codes "\",\"run_timestamp\":\"" ++ (t ++ codes "\",\"version\":1}")),
  length-append t (codes "\",\"version\":1}"),
)

token-short :
    (bytes digest : List ℕ)
    → length bytes ≡ 99
    → length digest ≡ 32
    → ltb 1024 (length (urlsafe_b64encode bytes ++ (46 ∷ urlsafe_b64encode digest))) ≡ false
token-short bytes digest long long' = ground (
  arith,
  length-append (urlsafe_b64encode bytes) (46 ∷ urlsafe_b64encode digest),
  encode-length bytes,
  encode-length digest,
)

token-not_empty : (x y : List ℕ) → is_empty (x ++ (46 ∷ y)) ≡ false
token-not_empty [] y = refl
token-not_empty (c ∷ x) y = refl

module _ (e : Environment) where
  -- A token of two parts, the second of which signs the first.
  signed_payload-parts :
      (x y bytes : List ℕ)
      → all is_base64_code x ≡ true
      → all is_base64_code y ≡ true
      → ltb 1024 (length (x ++ (46 ∷ y))) ≡ false
      → urlsafe_b64decode x ≡ some bytes
      → urlsafe_b64decode y ≡ some (e.signature x)
      → signed_payload e (x ++ (46 ∷ y)) ≡ loaded e (some bytes)
  unfolding signed_payload
  signed_payload-parts x y bytes coded coded' short payload signs =
      rw
        (
          token-not_empty x y,
          short,
          token-dots x y coded coded',
          token-before x y coded,
          token-after x y coded,
          base64-ascii x coded,
          signs,
          codes_eq-same (e.signature x),
          payload,
        )
        refl

  require_attempt-same :
      (expected a : List ℕ)
      → (expected ≡ []) ⊎ (normalized_submission_attempt_id e expected ≡ ok a)
      → require_attempt e expected a ≡ ok tt
  require_attempt-same [] a same = refl
  require_attempt-same (c ∷ expected) a (inl same) = cc
  require_attempt-same (c ∷ expected) a (inr same) = rw (same, codes_eq-same a) refl

  payload_identity-object :
      (expected a t : List ℕ)
      → normalized_submission_attempt_id e a ≡ ok a
      → canonical_run_timestamp e.now t ≡ ok t
      → (expected ≡ []) ⊎ (normalized_submission_attempt_id e expected ≡ ok a)
      → payload_identity e expected
          (Payload.object (some (Value.string a)) (some (Value.string t)) (some Value.one))
        ≡ ok (a, t)
  unfolding payload_identity
  payload_identity-object expected a t canonical timed same =
      rw (canonical, require_attempt-same expected a same, timed) refl

-- The token of a canonical identity.
abbrev token_of : Environment → List ℕ → List ℕ → List ℕ
token_of e a t =
    let encoded = urlsafe_b64encode (payload_text a t) in
    encoded ++ (46 ∷ urlsafe_b64encode (e.signature encoded))

module _ (e : Environment) (d : Documented e) where
  signed_payload-token :
      (a t : List ℕ)
      → all is_identity_code a ≡ true
      → all is_identity_code t ≡ true
      → length a ≡ 36
      → length t ≡ 15
      → signed_payload e (token_of e a t)
        ≡ ok (Payload.object (some (Value.string a)) (some (Value.string t)) (some Value.one))
  signed_payload-token a t coded coded' long long' =
      let bytes = payload_text a t in
      let encoded = urlsafe_b64encode bytes in
      let digest = e.signature encoded in
      signed_payload-parts e encoded (urlsafe_b64encode digest) bytes (encode-base64 bytes)
        (encode-base64 digest)
        (token-short bytes digest (payload-length a t long long') (d.digest_length encoded))
        (decode-encode_all bytes refl (payload-bytes a t coded coded'))
        (decode-encode_all digest (not_empty-length digest 31 (d.digest_length encoded))
          (d.digest_bytes encoded))
      ∙ rw (d.reads_back a t coded coded', loaded) refl

  token-verifies :
      (expected a t : List ℕ)
      → e.uuid a ≡ some a
      → canonical_run_timestamp e.now t ≡ ok t
      → all is_identity_code t ≡ true
      → length t ≡ 15
      → (expected ≡ []) ⊎ (normalized_submission_attempt_id e expected ≡ ok a)
      → verify_submission_identity_token e (token_of e a t) expected ≡ ok (a, t)
  unfolding verify_submission_identity_token
  token-verifies expected a t canonical timed coded long same =
      let (coded', long', normal) = uuid-normalized e d a canonical in
      let bytes = payload_text a t in
      let digest = e.signature (urlsafe_b64encode bytes) in
      rw
        (
          strip-solid (token_of e a t) (
              token-solid (urlsafe_b64encode bytes) (urlsafe_b64encode digest) (encode-base64 bytes)
                (encode-base64 digest)),
          signed_payload-token a t coded' coded long' long,
        )
        (payload_identity-object e expected a t normal timed same)

  -- When uuid writes a canonical text of 36 hexadecimal digits and dashes that it reads back, a
  -- signature has 32 bytes, and json reads a written payload back, every token that is created is
  -- verified, with its own attempt expected or none, and gives back the canonical attempt
  -- identifier and timestamp that it was created for.
  pub create_submission_identity_token-verifies :
      (timestamp attempt_id token : List ℕ)
      → create_submission_identity_token e timestamp attempt_id ≡ ok token
      → (a t : List ℕ) × (normalized_submission_attempt_id e attempt_id ≡ ok a)
        × (canonical_run_timestamp e.now timestamp ≡ ok t)
        × (verify_submission_identity_token e token [] ≡ ok (a, t))
        × (verify_submission_identity_token e token a ≡ ok (a, t))
  unfolding create_submission_identity_token
  create_submission_identity_token-verifies timestamp attempt_id token created =
      let (a, h1, k1) = >>=-eq-ok (normalized_submission_attempt_id e attempt_id) _ created in
      let (t, h2, k2) = >>=-eq-ok (canonical_run_timestamp e.now timestamp) _ k1 in
      let made : token_of e a t ≡ token = ok-injective IdentityError k2 in
      let canonical = normalized-uuid e d attempt_id a h1 in
      let (coded, long, timed) = canonical_timestamp e.now timestamp t h2 in
      let normal = (uuid-normalized e d a canonical).2 in
      (
        a,
        t,
        h1,
        h2,
        subst (λ s. verify_submission_identity_token e s [] ≡ ok (a, t)) made
            (token-verifies [] a t canonical timed coded long (inl refl)),
        subst (λ s. verify_submission_identity_token e s a ≡ ok (a, t)) made
            (token-verifies a a t canonical timed coded long (inr normal)),
      )
