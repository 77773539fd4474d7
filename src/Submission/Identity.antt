-- ===== src/Submission/Identity.antt =====
-- backend/submission.py: the token that a form carries for the identity of a submission attempt. What
-- uuid, json and hmac compute, the secret, and what the clock and uuid4 give, are arguments. Text and
-- bytes are lists of numbers.
use bmd_compute.Prelude.{
  ℕ, ◌+◌, not, ◌||◌, Option, none, some, List, [], ◌∷◌, ◌++◌, Result, ok, err, ◌>>=◌, ◌>>◌,
  raise_if, all, length, ltb, ◌==◌, if◌then◌else◌,
}
use bmd_compute.Prelude.Text.{codes, codes_eq, strip}
use bmd_compute.Submission.{is_empty}
use bmd_compute.Submission.Base64.{urlsafe_b64encode, urlsafe_b64decode}
use bmd_compute.Submission.Timestamps.{IdentityError, canonical_run_timestamp}

-- JSON data, as far as the verification looks into it: an object by what `get` finds at its keys.
pub data Value : Type 0 where
  string : List ℕ → Value
  -- Equal to 1: the integer, the float or true.
  one other : Value

pub data Payload : Type 0 where
  object : (attempt_id run_timestamp version : Option Value) → Payload
  no_object : Payload

-- What the functions call and read.
pub record Environment : Type 0 where
  -- `str(uuid.UUID(text))`
  pub uuid : List ℕ → Option (List ℕ)
  -- `hmac.new(_submission_identity_secret(), message, hashlib.sha256).digest()`
  pub signature : List ℕ → List ℕ
  -- `json.loads(data.decode("utf-8"))`; a string is the list of its code points.
  pub loads : List ℕ → Option Payload
  -- `str(uuid.uuid4())`, the same for every call in one run of a function, and
  -- `time.strftime("%Y%m%d-%H%M%S")`
  pub new_attempt_id : List ℕ
  pub now : List ℕ

-- `json.dumps(payload, sort_keys=True, separators=(",", ":"))` of text that needs no escapes.
abbrev pub payload_text : List ℕ → List ℕ → List ℕ
payload_text attempt_id run_timestamp =
    codes "{\"attempt_id\":\""
    ++ (attempt_id
        ++ (codes "\",\"run_timestamp\":\"" ++ (run_timestamp ++ codes "\",\"version\":1}")))

-- `value.count(".")`
abbrev pub dots : List ℕ → ℕ
dots [] = 0
dots (c ∷ s) = if c == 46 then 1 + dots s else dots s

-- `value.split(".", 1)`, for text with a dot.
abbrev pub before_dot : List ℕ → List ℕ
before_dot [] = []
before_dot (c ∷ s) = if c == 46 then [] else c ∷ before_dot s

abbrev pub after_dot : List ℕ → List ℕ
after_dot [] = []
after_dot (c ∷ s) = if c == 46 then s else after_dot s

-- `value.encode("ascii")`
abbrev pub ascii : List ℕ → Result IdentityError (List ℕ)
ascii s = if all (λ c. ltb c 128) s then ok s else err IdentityError.not_ascii

abbrev pub decoded : IdentityError → Option (List ℕ) → Result IdentityError (List ℕ)
decoded error none = err error
decoded error (some bytes) = ok bytes

-- `payload.get("attempt_id")` and `payload.get("run_timestamp")`
abbrev pub identity_fields : Payload → Result IdentityError (List ℕ × List ℕ)
identity_fields (Payload.object (some (Value.string a)) (some (Value.string t)) (some Value.one)) =
    ok (a, t)
identity_fields (Payload.object a t (some Value.one)) = err IdentityError.malformed_payload
identity_fields payload = err IdentityError.unsupported_version

module _ (e : Environment) where
  abbrev pub canonical_uuid : Option (List ℕ) → Result IdentityError (List ℕ)
  canonical_uuid none = err IdentityError.attempt_id_not_uuid
  canonical_uuid (some id) = ok id

  unfoldable pub normalized_submission_attempt_id : List ℕ → Result IdentityError (List ℕ)
  normalized_submission_attempt_id value =
      let attempt_id = strip value in
      if is_empty attempt_id then ok e.new_attempt_id else canonical_uuid (e.uuid attempt_id)

  unfoldable pub create_submission_identity_token : List ℕ → List ℕ → Result IdentityError (List ℕ)
  unfolding normalized_submission_attempt_id
  create_submission_identity_token timestamp attempt_id = do
    id ← normalized_submission_attempt_id attempt_id
    time ← canonical_run_timestamp e.now timestamp
    let encoded = urlsafe_b64encode (payload_text id time)
    ok (encoded ++ (46 ∷ urlsafe_b64encode (e.signature encoded)))

  -- `json.loads` of the decoded text.
  abbrev pub loaded : Option (List ℕ) → Result IdentityError Payload
  loaded none = err IdentityError.malformed_payload
  loaded (some bytes) = elim (e.loads bytes) [
    | none ↦ err IdentityError.malformed_payload
    | some payload ↦ ok payload
  ]

  -- `if expected_attempt_id and attempt_id != ...`; the empty text stands for None.
  abbrev pub require_attempt : List ℕ → List ℕ → Result IdentityError (Unit {0})
  require_attempt [] attempt_id = ok tt
  require_attempt (c ∷ expected) attempt_id =
      normalized_submission_attempt_id (c ∷ expected) >>= λ id.
      raise_if (not (codes_eq attempt_id id)) IdentityError.other_attempt

  -- The payload of a token that the secret has signed.
  unfoldable pub signed_payload : List ℕ → Result IdentityError Payload
  signed_payload value = do
    raise_if (is_empty value || ltb 1024 (length value) || not (dots value == 1))
        IdentityError.missing_or_malformed
    message ← ascii (before_dot value)
    signature ← decoded IdentityError.malformed_signature (urlsafe_b64decode (after_dot value))
    raise_if (not (codes_eq signature (e.signature message))) IdentityError.invalid_signature
    loaded (urlsafe_b64decode (before_dot value))

  unfoldable pub payload_identity : List ℕ → Payload → Result IdentityError (List ℕ × List ℕ)
  unfolding normalized_submission_attempt_id
  payload_identity expected payload = do
    fields ← identity_fields payload
    attempt_id ← normalized_submission_attempt_id fields.0
    require_attempt expected attempt_id
    time ← canonical_run_timestamp e.now fields.1
    ok (attempt_id, time)

  unfoldable pub verify_submission_identity_token :
      List ℕ → List ℕ → Result IdentityError (List ℕ × List ℕ)
  unfolding signed_payload payload_identity
  verify_submission_identity_token token expected =
      signed_payload (strip token) >>= payload_identity expected
