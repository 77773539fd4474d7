-- ===== src/Tests/Tokens.antt =====
-- One principal with one token.
use bmd_compute.Prelude.{
  ℕ, String, Bool, true, false, Option, none, some, List, [], ◌∷◌, ok, err, ◌≡◌, refl, ◌↔◌,
}
use bmd_compute.Prelude.Text.{codes}
use bmd_compute.Model.{Json, bool, int, str, arr, obj, pos, nil, cons, end, field}
use bmd_compute.Auth.Tokens.{TokenEntry, is_one_of, parse_token_document, unauthenticated}
use bmd_compute.Auth.Authenticate.{Principal, principal_of, authenticate, require}
use bmd_compute.Auth.Entries.{Accepted, parse_token_document-Accepted}
use bmd_compute.Auth.Accepted.{Presents, authenticate_iff}

abbrev entry : TokenEntry
entry = record {
  principal = "alice";
  token_id = "0123abcd";
  verifier = "sha256:aaaaaaaaaaaaaaaaaaaaaaaaaaaaaaaaaaaaaaaaaaaaaaaaaaaaaaaaaaaaaaaa";
  scopes = "read" ∷ "plan" ∷ [];
  enabled = true;
}

abbrev document : Json
document = obj (
    field "schema" (str "bmd_compute.api_tokens") (
      field "schema_version" (int (pos 1)) (
        field "principals"
          (arr (
            cons
              (obj (
                field "principal" (str "alice") (
                  field "token_id" (str "0123abcd") (
                    field "verifier"
                      (str
                        "sha256:aaaaaaaaaaaaaaaaaaaaaaaaaaaaaaaaaaaaaaaaaaaaaaaaaaaaaaaaaaaaaaaa")
                      (field "scopes" (arr (cons (str "read") (cons (str "plan") nil)))
                        (field "enabled" (bool true) end))))))
              nil))
          end)))

-- A digest for the tests.
abbrev digest : List ℕ → List ℕ
digest token = codes "sha256:aaaaaaaaaaaaaaaaaaaaaaaaaaaaaaaaaaaaaaaaaaaaaaaaaaaaaaaaaaaaaaaa"

abbrev header : List (List ℕ)
header = codes "Bearer bmdc1.0123abcd.SSSSSSSSSSSSSSSSSSSSSSSSSSSSSSSSSSSSSSSSSSS" ∷ []

parses_document : parse_token_document document ≡ ok (entry ∷ [])
unfolding parse_token_document bmd_compute.Auth.Tokens.parse_items
    bmd_compute.Auth.Tokens.parse_item bmd_compute.Auth.Tokens.is_principal
    bmd_compute.Auth.Tokens.is_token_id bmd_compute.Auth.Tokens.is_verifier
    bmd_compute.Prelude.Text.codes_eq
parses_document = refl

refuses_other_scheme :
    authenticate digest document
      (codes "Basic bmdc1.0123abcd.SSSSSSSSSSSSSSSSSSSSSSSSSSSSSSSSSSSSSSSSSSS" ∷ [])
    ≡ err unauthenticated
unfolding authenticate parse_token_document bmd_compute.Auth.Tokens.parse_items
    bmd_compute.Auth.Tokens.parse_item bmd_compute.Auth.Tokens.is_principal
    bmd_compute.Auth.Tokens.is_token_id bmd_compute.Auth.Tokens.is_verifier
    bmd_compute.Prelude.Text.codes_eq bmd_compute.Auth.Authenticate.bearer_token
    bmd_compute.Prelude.Text.lower
refuses_other_scheme = refl

authenticates : authenticate digest document header ≡ ok (principal_of entry)
unfolding authenticate parse_token_document bmd_compute.Auth.Tokens.parse_items
    bmd_compute.Auth.Tokens.parse_item bmd_compute.Auth.Tokens.is_principal
    bmd_compute.Auth.Tokens.is_token_id bmd_compute.Auth.Tokens.is_verifier
    bmd_compute.Prelude.Text.codes_eq bmd_compute.Auth.Authenticate.bearer_token
    bmd_compute.Prelude.Text.lower bmd_compute.Auth.Authenticate.split_token
    bmd_compute.Prelude.Text.strip bmd_compute.Auth.Tokens.is_secret
    bmd_compute.Auth.Authenticate.find_entry
authenticates = refl

parse_token_document-Accepted_example : Accepted (entry ∷ [])
parse_token_document-Accepted_example =
    parse_token_document-Accepted document (entry ∷ []) parses_document

authenticate_iff_example : Presents digest document header (principal_of entry)
authenticate_iff_example =
    (authenticate_iff digest document header (principal_of entry)).0 authenticates
