-- ===== src/Tests/Identity.antt =====
-- Identity tokens in an environment that reads one attempt identifier.
use bmd_compute.Prelude.{
  ℕ, ◌%◌, ◌<◌, Bool, true, false, not, ◌||◌, ◌&&◌, Option, some, none, List, [], ◌∷◌, ◌++◌, ◌≡◌,
  ◌⊎◌, refl, sym, ap, ◌∙◌, subst, ok, err, arith, all, length, drop, leb, ltb, ◌==◌, if◌then◌else◌,
  inl, inr, ◌↔◌, String, ◌≢◌,
}
use bmd_compute.Prelude.Text.{codes, codes_eq}
use bmd_compute.Submission.Base64.{is_byte, urlsafe_b64encode, urlsafe_b64decode}
use bmd_compute.Submission.Timestamps.{IdentityError, canonical_run_timestamp}
use bmd_compute.Submission.Identity.{
  Value, Payload, Environment, payload_text, normalized_submission_attempt_id,
  create_submission_identity_token, verify_submission_identity_token,
}
use bmd_compute.Prelude.Text.{strip}
use bmd_compute.Submission.Tokens.{
  is_identity_code, Documented, Signed, verify_submission_identity_token-Signed,
}
use bmd_compute.Submission.Created.{create_submission_identity_token-verifies}

abbrev an_id : List ℕ
an_id = codes "0f8fad5b-d9cb-469f-a165-70867728950e"

abbrev read_id : List ℕ → Option (List ℕ)
read_id x =
    if codes_eq x an_id || codes_eq x (codes "0F8FAD5B-D9CB-469F-A165-70867728950E")
    then some an_id
    else none

abbrev before_quote : List ℕ → List ℕ
before_quote [] = []
before_quote (c ∷ s) = if c == 34 then [] else c ∷ before_quote s

abbrev from_quote : List ℕ → List ℕ
from_quote [] = []
from_quote (c ∷ s) = if c == 34 then c ∷ s else from_quote s

abbrev read_payload : List ℕ → Option Payload
read_payload s =
    let rest = drop 15 s in
    some (
      Payload.object (some (Value.string (before_quote rest)))
        (some (Value.string (before_quote (drop 19 (from_quote rest))))) (some Value.one))

-- The first byte is the length of the message.
abbrev short_digest : List ℕ → List ℕ
short_digest m =
    length m % 256
    ∷ 0
    ∷ 0
    ∷ 0
    ∷ 0
    ∷ 0
    ∷ 0
    ∷ 0
    ∷ 0
    ∷ 0
    ∷ 0
    ∷ 0
    ∷ 0
    ∷ 0
    ∷ 0
    ∷ 0
    ∷ 0
    ∷ 0
    ∷ 0
    ∷ 0
    ∷ 0
    ∷ 0
    ∷ 0
    ∷ 0
    ∷ 0
    ∷ 0
    ∷ 0
    ∷ 0
    ∷ 0
    ∷ 0
    ∷ 0
    ∷ 0
    ∷ []

abbrev environment : Environment
environment = record {
  uuid = read_id;
  signature = short_digest;
  loads = read_payload;
  new_attempt_id = an_id;
  now = codes "20240229-235959";
}

quote-before : (a s : List ℕ) → all is_identity_code a ≡ true → before_quote (a ++ (34 ∷ s)) ≡ a
quote-before [] s coded = refl
quote-before (c ∷ a) s coded = ground (arith, coded, quote-before a s)

quote-from : (a s : List ℕ) → all is_identity_code a ≡ true → from_quote (a ++ (34 ∷ s)) ≡ 34 ∷ s
quote-from [] s coded = refl
quote-from (c ∷ a) s coded = ground (arith, coded, quote-from a s)

read_id-value : (x y : List ℕ) → read_id x ≡ some y → an_id ≡ y
read_id-value x y read = ground (arith, read)

payload-read :
    (a t : List ℕ)
    → all is_identity_code a ≡ true
    → all is_identity_code t ≡ true
    → read_payload (payload_text a t)
      ≡ some (Payload.object (some (Value.string a)) (some (Value.string t)) (some Value.one))
payload-read a t coded coded' =
    rw
      (
        quote-before a
            (drop 1 (codes "\",\"run_timestamp\":\"") ++ (t ++ codes "\",\"version\":1}")) coded,
        quote-from a (drop 1 (codes "\",\"run_timestamp\":\"") ++ (t ++ codes "\",\"version\":1}"))
            coded,
        quote-before t (drop 1 (codes "\",\"version\":1}")) coded',
      )
      refl

environment-Documented : Documented environment
unfolding codes_eq
environment-Documented = record {
  canonical = λ x y read. subst (λ z. read_id z ≡ some z) (read_id-value x y read) refl;
  canonical_codes =
      λ x y read. subst (λ z. all is_identity_code z ≡ true) (read_id-value x y read) refl;
  canonical_length = λ x y read. ap length (sym (read_id-value x y read));
  new_canonical = refl;
  digest_bytes = λ m. ground arith;
  digest_length = λ m. refl;
  reads_back = payload-read;
}

abbrev a_time : List ℕ
a_time = codes "20240229-235961"

abbrev a_token : List ℕ
a_token =
    urlsafe_b64encode (payload_text an_id a_time)
    ++ (46 ∷ urlsafe_b64encode (short_digest (urlsafe_b64encode (payload_text an_id a_time))))

time_read : canonical_run_timestamp (codes "") (codes " 20240229-235961 ") ≡ ok a_time
unfolding canonical_run_timestamp bmd_compute.Submission.Timestamps.is_calendar_time
    bmd_compute.Prelude.Decimal.number strip bmd_compute.Prelude.Text.lstrip
    bmd_compute.Prelude.Text.is_space
time_read = refl

no_leap_day :
    canonical_run_timestamp (codes "") (codes "20230229-000000") ≡ err IdentityError.not_a_time
unfolding canonical_run_timestamp bmd_compute.Submission.Timestamps.is_calendar_time
    bmd_compute.Prelude.Decimal.number strip bmd_compute.Prelude.Text.lstrip
    bmd_compute.Prelude.Text.is_space
no_leap_day = refl

encodes_text : urlsafe_b64encode (codes "any>?") ≡ codes "YW55Pj8"
unfolding urlsafe_b64encode
encodes_text = refl

decodes_text : urlsafe_b64decode (codes "YW55Pj8") ≡ some (codes "any>?")
unfolding urlsafe_b64decode bmd_compute.Submission.Base64.groups_bytes
    bmd_compute.Submission.Base64.sextet
decodes_text = refl

token_created :
    create_submission_identity_token environment
      (codes " 20240229-235961 ")
      (codes "0F8FAD5B-D9CB-469F-A165-70867728950E ")
    ≡ ok a_token
unfolding create_submission_identity_token normalized_submission_attempt_id canonical_run_timestamp
    bmd_compute.Submission.Timestamps.is_calendar_time bmd_compute.Prelude.Decimal.number strip
    bmd_compute.Prelude.Text.lstrip bmd_compute.Prelude.Text.is_space codes_eq
token_created = refl

create_submission_identity_token-verifies_example :
    (a t : List ℕ) × (normalized_submission_attempt_id environment
        (codes "0F8FAD5B-D9CB-469F-A165-70867728950E ")
      ≡ ok a)
    × (canonical_run_timestamp (codes "20240229-235959") (codes " 20240229-235961 ") ≡ ok t)
    × (verify_submission_identity_token environment a_token [] ≡ ok (a, t))
    × (verify_submission_identity_token environment a_token a ≡ ok (a, t))
create_submission_identity_token-verifies_example =
    create_submission_identity_token-verifies environment environment-Documented
      (codes " 20240229-235961 ") (codes "0F8FAD5B-D9CB-469F-A165-70867728950E ") a_token
      token_created

token_verified : verify_submission_identity_token environment a_token [] ≡ ok (an_id, a_time)
unfolding verify_submission_identity_token bmd_compute.Submission.Identity.signed_payload
    bmd_compute.Submission.Identity.payload_identity normalized_submission_attempt_id
    canonical_run_timestamp bmd_compute.Submission.Timestamps.is_calendar_time
    bmd_compute.Prelude.Decimal.number strip bmd_compute.Prelude.Text.lstrip
    bmd_compute.Prelude.Text.is_space codes_eq urlsafe_b64encode urlsafe_b64decode
    bmd_compute.Submission.Base64.groups_bytes bmd_compute.Submission.Base64.sextet
token_verified = refl

verify_submission_identity_token-Signed_example :
    Signed environment (strip a_token) an_id a_time
    × ((◌≡◌ {A = List ℕ} [] []) ⊎ (normalized_submission_attempt_id environment [] ≡ ok an_id))
verify_submission_identity_token-Signed_example =
    verify_submission_identity_token-Signed environment a_token [] an_id a_time token_verified
