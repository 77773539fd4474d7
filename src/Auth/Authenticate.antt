-- ===== src/Auth/Authenticate.antt =====
-- compute_api/auth.py: `authenticate` and `Principal.require`. The SHA-256 verifier of a token is an
-- argument. Headers and tokens are lists of code points.
use bmd_compute.Prelude.{
  ℕ, String, Bool, not, ◌&&◌, ◌||◌, Option, none, some, List, [], ◌∷◌, Result, ok, err, ◌>>=◌, ◌>>◌,
  raise_if, length, ltb, ◌==◌, if◌then◌else◌,
}
use bmd_compute.Prelude.Text.{codes, codes_eq, strip, lower}
use bmd_compute.Model.{Json}
use bmd_compute.Auth.Tokens.{
  ApiAuthError, unauthenticated, server_misconfigured, insufficient_scope, TokenEntry, is_one_of,
  known_scopes, is_token_id, is_secret, parse_token_document,
}

pub record Principal : Type 0 where
  pub principal : String
  pub token_id : String
  pub scopes : List String

unfoldable pub require : Principal → String → Result ApiAuthError (Unit {0})
require p scope = do
  raise_if (not (is_one_of known_scopes scope)) server_misconfigured
  raise_if (not (is_one_of p.scopes scope)) (insufficient_scope scope)

-- `value.partition(" ")`: what is before the first space and what is after it, if there is one.
unfoldable pub partition : ℕ → List ℕ → Option (List ℕ × List ℕ)
partition at [] = none
partition at (c ∷ text) =
    let rest = partition at text in
    if c == at then some ([], text) else elim rest [ none ↦ none | some (a, b) ↦ some (c ∷ a, b) ]

abbrev pub scheme_and_token : Option (List ℕ × List ℕ) → Result ApiAuthError (List ℕ)
scheme_and_token none = err unauthenticated
scheme_and_token (some (scheme, token)) =
    if codes_eq (lower scheme) (codes "bearer") then ok (strip token) else err unauthenticated

unfoldable pub bearer_token : List (List ℕ) → Result ApiAuthError (List ℕ)
unfolding partition
bearer_token (value ∷ []) =
    if ltb 256 (length value) then err unauthenticated else scheme_and_token (partition 32 value)
bearer_token _ = err unauthenticated

-- `token.split(".")`
unfoldable pub split_dots : List ℕ → List (List ℕ)
split_dots [] = [] ∷ []
split_dots (c ∷ text) =
    let rest = split_dots text in
    if c == 46
    then [] ∷ rest
    else elim rest [ [] ↦ (c ∷ []) ∷ [] | part ∷ parts ↦ (c ∷ part) ∷ parts ]

abbrev pub token_parts : List (List ℕ) → Option (List ℕ × List ℕ)
token_parts (prefix ∷ token_id ∷ secret ∷ []) =
    if codes_eq prefix (codes "bmdc1") && is_token_id token_id && is_secret secret
    then some (token_id, secret)
    else none
token_parts _ = none

unfoldable pub split_token : List ℕ → Option (List ℕ × List ℕ)
unfolding split_dots
split_token token = token_parts (split_dots token)

-- `entries.get(token_id)`
unfoldable pub find_entry : List ℕ → List TokenEntry → Option TokenEntry
find_entry token_id [] = none
find_entry token_id (e ∷ entries) =
    let rest = find_entry token_id entries in
    if codes_eq (codes e.token_id) token_id then some e else rest

abbrev pub entry_for : Option (List ℕ × List ℕ) → List TokenEntry → Option TokenEntry
entry_for none entries = none
entry_for (some (token_id, secret)) entries = find_entry token_id entries

abbrev dummy_verifier : List ℕ
dummy_verifier = codes "sha256:0000000000000000000000000000000000000000000000000000000000000000"

abbrev pub principal_of : TokenEntry → Principal
principal_of e = record { principal = e.principal; token_id = e.token_id; scopes = e.scopes }

module _ (token_verifier : List ℕ → List ℕ) where
  abbrev pub supplied : List ℕ → Option (List ℕ × List ℕ) → List ℕ
  supplied token none = dummy_verifier
  supplied token (some _) = token_verifier token

  abbrev pub expected : Option TokenEntry → List ℕ
  expected none = dummy_verifier
  expected (some e) = codes e.verifier

  abbrev pub decide :
      Bool → Option (List ℕ × List ℕ) → Option TokenEntry → Result ApiAuthError Principal
  decide matches (some _) (some e) =
      if not matches || not e.enabled then err unauthenticated else ok (principal_of e)
  decide matches _ _ = err unauthenticated

  unfoldable pub authenticate : Json → List (List ℕ) → Result ApiAuthError Principal
  authenticate document authorization_values = do
    entries ← parse_token_document document
    token ← bearer_token authorization_values
    let parts = split_token token
    let entry = entry_for parts entries
    decide (codes_eq (supplied token parts) (expected entry)) parts entry
