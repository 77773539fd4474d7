-- ===== src/Auth/Tokens.antt =====
-- compute_api/auth.py: the token document. Where the file lies and who may read it is file-system
-- code; the document is its parsed JSON.
use bmd_compute.Prelude.{
  ℕ, String, Bool, true, false, not, ◌&&◌, ◌||◌, Option, none, some, List, [], ◌∷◌, Result, ok, err,
  ◌>>=◌, ◌>>◌, raise_if, all, any, take, drop, length, leb, ◌==◌, str_eq, if◌then◌else◌,
}
use bmd_compute.Prelude.Text.{codes, codes_eq}
use bmd_compute.Model.{
  Json, bool, int, float, str, arr, obj, pos, Items, nil, cons, Fields, get, keys,
}

pub data ApiAuthError : Type 0 where
  api_not_configured : ApiAuthError
  unauthenticated : ApiAuthError
  server_misconfigured : ApiAuthError
  insufficient_scope : String → ApiAuthError

pub record TokenEntry : Type 0 where
  pub principal : String
  pub token_id : String
  pub verifier : String
  pub scopes : List String
  pub enabled : Bool

abbrev pub is_one_of : List String → String → Bool
is_one_of names name = any (λ n. str_eq n name) names

abbrev pub known_scopes : List String
known_scopes = "read" ∷ "plan" ∷ "prepare" ∷ "submit" ∷ []

abbrev pub is_lower_digit : ℕ → Bool
is_lower_digit c = (leb 97 c && leb c 122) || (leb 48 c && leb c 57)

-- `[a-z0-9._-]`
abbrev is_principal_code : ℕ → Bool
is_principal_code c = is_lower_digit c || (c == 46) || (c == 95) || (c == 45)

-- `[A-Za-z0-9_-]`
abbrev pub is_secret_code : ℕ → Bool
is_secret_code c = is_lower_digit c || (leb 65 c && leb c 90) || (c == 95) || (c == 45)

abbrev is_hex_code : ℕ → Bool
is_hex_code c = (leb 97 c && leb c 102) || (leb 48 c && leb c 57)

abbrev starts_well : List ℕ → Bool
starts_well [] = false
starts_well (c ∷ text) = is_lower_digit c

-- PRINCIPAL_PATTERN
unfoldable pub is_principal : List ℕ → Bool
is_principal text = starts_well text && all is_principal_code text && leb (length text) 64

-- TOKEN_ID_PATTERN
unfoldable pub is_token_id : List ℕ → Bool
is_token_id text = all is_lower_digit text && leb 8 (length text) && leb (length text) 32

-- SECRET_PATTERN
unfoldable pub is_secret : List ℕ → Bool
is_secret text = all is_secret_code text && (length text == 43)

-- VERIFIER_PATTERN
unfoldable pub is_verifier : List ℕ → Bool
is_verifier text =
    codes_eq (take 7 text) (codes "sha256:") && all is_hex_code (drop 7 text) && (length text == 71)

-- `set(d) == set(names)`
has_exactly : List String → Fields → Bool
has_exactly names d = all (is_one_of names) (keys d) && all (is_one_of (keys d)) names

-- A list of strings.
strings : Items → Option (List String)
strings nil = some []
strings (cons (str s) items) = elim (strings items) [ none ↦ none | some rest ↦ some (s ∷ rest) ]
strings (cons _ items) = none

abbrev pub distinct : List String → Bool
distinct [] = true
distinct (s ∷ names) = not (is_one_of names s) && distinct names

abbrev scopes_of : Option Json → Option (List String)
scopes_of (some (arr items)) = strings items
scopes_of _ = none

abbrev text_of : Option Json → Option String
text_of (some (str s)) = some s
text_of _ = none

abbrev flag_of : Option Json → Option Bool
flag_of (some (bool b)) = some b
flag_of _ = none

abbrev pub is_entry : TokenEntry → Bool
is_entry e =
    is_principal (codes e.principal)
    && is_token_id (codes e.token_id)
    && is_verifier (codes e.verifier)
    && distinct e.scopes
    && all (is_one_of known_scopes) e.scopes

abbrev accept_entry : TokenEntry → Result ApiAuthError TokenEntry
accept_entry e = if is_entry e then ok e else err api_not_configured

abbrev entry_from :
    Option String
    → Option String
    → Option String
    → Option (List String)
    → Option Bool
    → Result ApiAuthError TokenEntry
entry_from (some p) (some t) (some v) (some s) (some b) =
    accept_entry (record { principal = p; token_id = t; verifier = v; scopes = s; enabled = b })
entry_from _ _ _ _ _ = err api_not_configured

-- One item of "principals".
unfoldable pub parse_item : Json → Result ApiAuthError TokenEntry
unfolding has_exactly strings
parse_item (obj d) =
    if has_exactly ("principal" ∷ "token_id" ∷ "verifier" ∷ "scopes" ∷ "enabled" ∷ []) d
    then entry_from (text_of (get "principal" d)) (text_of (get "token_id" d))
        (text_of (get "verifier" d)) (scopes_of (get "scopes" d)) (flag_of (get "enabled" d))
    else err api_not_configured
parse_item _ = err api_not_configured

abbrev pub ids : List TokenEntry → List String
ids [] = []
ids (e ∷ entries) = e.token_id ∷ ids entries

-- The loop over "principals", with the entries so far, the last one first.
unfoldable pub parse_items : List TokenEntry → Items → Result ApiAuthError (List TokenEntry)
parse_items entries nil = ok entries
parse_items entries (cons item items) = do
  e ← parse_item item
  raise_if (is_one_of (ids entries) e.token_id) api_not_configured
  parse_items (e ∷ entries) items

-- `value == 1`, which also holds of `true` and of the float.
abbrev is_version : Option Json → Bool
is_version (some (int (pos n))) = n == 1
is_version (some (bool true)) = true
is_version (some (float text)) = str_eq text "1.0"
is_version _ = false

abbrev is_schema : Option Json → Bool
is_schema (some (str s)) = str_eq s "bmd_compute.api_tokens"
is_schema _ = false

abbrev pub parse_principals : Option Json → Result ApiAuthError (List TokenEntry)
parse_principals (some (arr items)) = parse_items [] items
parse_principals _ = err api_not_configured

unfoldable pub parse_token_document : Json → Result ApiAuthError (List TokenEntry)
unfolding has_exactly
parse_token_document (obj d) =
    if not (has_exactly ("schema" ∷ "schema_version" ∷ "principals" ∷ []) d)
    then err api_not_configured
    else if not (is_schema (get "schema" d)) || not (is_version (get "schema_version" d))
    then err api_not_configured
    else parse_principals (get "principals" d)
parse_token_document _ = err api_not_configured
