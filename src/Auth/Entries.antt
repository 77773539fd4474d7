-- ===== src/Auth/Entries.antt =====
-- What the entries of an accepted token document are.
use bmd_compute.Prelude.{
  true, false, Option, some, List, [], ◌∷◌, ok, raise_if, raise_if-eq-ok, >>=-eq-ok, >>-eq-ok,
  ok-injective, ◌≡◌, subst, arith,
}
use bmd_compute.Model.{Json, arr, obj, Items, nil, cons, Fields, get}
use bmd_compute.Auth.Tokens.{
  parse_principals, ApiAuthError, api_not_configured, TokenEntry, is_one_of, is_entry, parse_item,
  ids, parse_items, parse_token_document,
}

-- Every entry has the forms that the patterns ask for and known scopes only, and no two entries
-- have the same identifier.
abbrev pub Accepted : List TokenEntry → Type 0
Accepted [] = Unit
Accepted (e ∷ entries) =
    (is_entry e ≡ true) × (is_one_of (ids entries) e.token_id ≡ false) × Accepted entries

parse_item-eq-ok : (item : Json) (e : TokenEntry) → parse_item item ≡ ok e → is_entry e ≡ true
unfolding parse_item
parse_item-eq-ok item e h = ground (arith, h)

parse_items-Accepted :
    (items : Items) (entries out : List TokenEntry)
    → Accepted entries
    → parse_items entries items ≡ ok out
    → Accepted out
unfolding parse_items
parse_items-Accepted nil entries out a h = subst Accepted (ok-injective ApiAuthError h) a
parse_items-Accepted (cons item items) entries out a h =
    let (e, h1, k1) = >>=-eq-ok (parse_item item) _ h in
    let (h2, k2) =
      >>-eq-ok (raise_if (is_one_of (ids entries) e.token_id) api_not_configured) _ k1 in
    let fresh = raise_if-eq-ok (is_one_of (ids entries) e.token_id) api_not_configured h2 in
    parse_items-Accepted items (e ∷ entries) out (parse_item-eq-ok item e h1, fresh, a) k2

parse_principals-Accepted :
    (value : Option Json) (entries : List TokenEntry)
    → parse_principals value ≡ ok entries
    → Accepted entries
parse_principals-Accepted (some (arr items)) entries h = parse_items-Accepted items [] entries tt h
parse_principals-Accepted value entries h = absurd (ground arith)

parse_token_document-eq-ok :
    (d : Fields) (entries : List TokenEntry)
    → parse_token_document (obj d) ≡ ok entries
    → parse_principals (get "principals" d) ≡ ok entries
unfolding parse_token_document
parse_token_document-eq-ok d entries h = ground (arith, h)

-- Every entry of an accepted token document has the forms of the patterns and distinct known
-- scopes only, and no two entries have the same identifier.
pub parse_token_document-Accepted :
    (document : Json) (entries : List TokenEntry)
    → parse_token_document document ≡ ok entries
    → Accepted entries
unfolding parse_token_document
parse_token_document-Accepted (obj d) entries h =
    parse_principals-Accepted (get "principals" d) entries (parse_token_document-eq-ok d entries h)
parse_token_document-Accepted document entries h = absurd (ground arith)
