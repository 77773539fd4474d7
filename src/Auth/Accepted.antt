-- ===== src/Auth/Accepted.antt =====
-- Who is authenticated, in terms of the text of the header and of the entries of the document.
use bmd_compute.Prelude.{
  ℕ, Bool, true, ◌&&◌, ◌||◌, some, List, [], ◌∷◌, ◌++◌, ok, >>=-eq-ok, ◌≡◌, sym, ap, ◌∙◌, subst,
  ◌↔◌, ◌≤◌, ◌⊎◌, arith, all, length, leb, ◌==◌, eq_refl, Option-cases, Bool-cases, inl, inr,
}
use bmd_compute.Prelude.Text.{codes, codes_eq, codes_eq-eq, codes_eq-same, codes_eq-codes, is_space}
use bmd_compute.Prelude.Strip.{strip_off, strip-padded}
use bmd_compute.Model.{Json}
use bmd_compute.Auth.Tokens.{
  TokenEntry, is_one_of, ids, is_entry, is_token_id, is_secret, parse_token_document,
}
use bmd_compute.Auth.Entries.{Accepted, parse_token_document-Accepted}
use bmd_compute.Auth.Authenticate.{
  Principal, bearer_token, split_token, find_entry, principal_of, authenticate,
}
use bmd_compute.Auth.Headers.{AnyCase, Bears, Bears-of_ok, ok_of_Bears}
use bmd_compute.Auth.Parts.{split_token-reads, split_token-written, token-solid}

-- The entry stands in the list.
abbrev pub Listed : TokenEntry → List TokenEntry → Type 0
Listed e [] = ⊥
Listed e (x ∷ entries) = (x ≡ e) ⊎ Listed e entries

-- ASCII white space, and the letters of a secret, by their code points.
abbrev pub is_blank : ℕ → Bool
is_blank c = (c == 32) || (leb 9 c && leb c 13) || (leb 28 c && leb c 31)

abbrev pub is_secret_letter : ℕ → Bool
is_secret_letter c =
    ((leb 97 c && leb c 122) || (leb 48 c && leb c 57))
    || (leb 65 c && leb c 90)
    || (c == 95)
    || (c == 45)

-- `bmdc1`, the entry's identifier and the secret, with dots between them.
abbrev pub token_of : TokenEntry → List ℕ → List ℕ
token_of e secret = codes "bmdc1." ++ (codes e.token_id ++ (46 ∷ secret))

-- The one header is the word bearer in letters of either case, a space and, between white space,
-- the token of an enabled entry of the accepted document with a secret of 43 letters; the entry's
-- verifier is that token's, and the principal is the entry's.
pub record Presents (token_verifier : List ℕ → List ℕ) (document : Json)
    (authorization_values : List (List ℕ)) (p : Principal) : Type 0 where
  pub entries : List TokenEntry
  pub parses : parse_token_document document ≡ ok entries
  pub entry : TokenEntry
  pub listed : Listed entry entries
  pub is_enabled : entry.enabled ≡ true
  pub scheme : List ℕ
  pub before : List ℕ
  pub secret : List ℕ
  pub after : List ℕ
  pub one_header :
      authorization_values ≡ (scheme ++ (32 ∷ (before ++ (token_of entry secret ++ after)))) ∷ []
  pub bounded : length (scheme ++ (32 ∷ (before ++ (token_of entry secret ++ after)))) ≤ 256
  pub bearer : AnyCase scheme (codes "bearer")
  pub blank_before : all is_blank before ≡ true
  pub blank_after : all is_blank after ≡ true
  pub secret_letters : all is_secret_letter secret ≡ true
  pub secret_length : length secret ≡ 43
  pub verifies : token_verifier (token_of entry secret) ≡ codes entry.verifier
  pub principal : p.principal ≡ entry.principal
  pub token_id : p.token_id ≡ entry.token_id
  pub scopes : p.scopes ≡ entry.scopes

-- A dictionary lookup by identifier finds an entry with it.
find_entry-Listed :
    (token_id : List ℕ) (entries : List TokenEntry) (e : TokenEntry)
    → find_entry token_id entries ≡ some e
    → Listed e entries × (codes e.token_id ≡ token_id)
unfolding find_entry
find_entry-Listed token_id [] e h = absurd (ground (arith, h))
find_entry-Listed token_id (x ∷ entries) e h =
    elim (Bool-cases (codes_eq (codes x.token_id) token_id)) [
      | inl same ↦
          let is_x : x ≡ e = ground (arith, h, same) in
          (
            inl is_x,
            subst (λ (y : TokenEntry). codes y.token_id ≡ token_id) is_x
                (codes_eq-eq (codes x.token_id) token_id same),
          )
      | inr other ↦
          let (listed, reads) = find_entry-Listed token_id entries e (ground (arith, h, other)) in
          (inr listed, reads)
    ]

Listed-is_one_of :
    (e : TokenEntry) (entries : List TokenEntry)
    → Listed e entries
    → is_one_of (ids entries) e.token_id ≡ true
Listed-is_one_of e [] listed = absurd listed
Listed-is_one_of e (x ∷ entries) (inl same) = rw same (ground (arith, eq_refl e.token_id))
Listed-is_one_of e (x ∷ entries) (inr listed) = ground (arith, Listed-is_one_of e entries listed)

find_listed :
    (entries : List TokenEntry) (e : TokenEntry)
    → Accepted entries
    → Listed e entries
    → find_entry (codes e.token_id) entries ≡ some e
unfolding find_entry
find_listed [] e accepted listed = absurd listed
find_listed (x ∷ entries) e accepted (inl same) =
    rw same (ground (arith, codes_eq-same (codes e.token_id)))
find_listed (x ∷ entries) e (form, fresh, accepted) (inr listed) =
    let ih = find_listed entries e accepted listed in
    let found = Listed-is_one_of e entries listed in
    elim (Bool-cases (codes_eq (codes x.token_id) (codes e.token_id))) [
      | inl same ↦
          let clash : is_one_of (ids entries) x.token_id ≡ true =
            subst (λ t. is_one_of (ids entries) t ≡ true)
              (sym (codes_eq-codes x.token_id e.token_id same)) found in
          absurd (ground (arith, fresh, clash))
      | inr other ↦ ground (arith, other, ih)
    ]

Listed-form :
    (entries : List TokenEntry) (e : TokenEntry)
    → Accepted entries
    → Listed e entries
    → is_entry e ≡ true
Listed-form [] e accepted listed = absurd listed
Listed-form (x ∷ entries) e (form, fresh, accepted) (inl same) =
    subst (λ (y : TokenEntry). is_entry y ≡ true) same form
Listed-form (x ∷ entries) e (form, fresh, accepted) (inr listed) =
    Listed-form entries e accepted listed

Presents-of_ok :
    (token_verifier : List ℕ → List ℕ) (document : Json) (authorization_values : List (List ℕ))
    (p : Principal)
    → authenticate token_verifier document authorization_values ≡ ok p
    → Presents token_verifier document authorization_values p
unfolding authenticate is_secret is_space
Presents-of_ok f document values p h =
    let (entries, parses, k1) = >>=-eq-ok (parse_token_document document) _ h in
    let (token, bears, k2) = >>=-eq-ok (bearer_token values) _ k1 in
    elim (Option-cases (split_token token)) [
      | inl e ↦ absurd (ground (arith, e, k2))
      | inr ((token_id, secret), e) ↦ elim (Option-cases (find_entry token_id entries)) [
        | inl none_found ↦ absurd (ground (arith, e, none_found, k2))
        | inr (entry, found) ↦
            let b = Bears-of_ok values token bears in
            let (before, after, padded, blank, blank') = strip_off b.behind in
            let (reads, has_id, has_secret) = split_token-reads token token_id secret e in
            let (listed, named) = find_entry-Listed token_id entries entry found in
            let written : token ≡ token_of entry secret =
              reads ∙ ap (λ l. codes "bmdc1." ++ (l ++ (46 ∷ secret))) (sym named) in
            let behind : b.behind ≡ before ++ (token_of entry secret ++ after) =
              padded ∙ ap (λ l. before ++ (l ++ after)) (sym b.stripped ∙ written) in
            let matches : codes_eq (f token) (codes entry.verifier) ≡ true =
              ground (arith, e, found, k2) in
            let same : p ≡ principal_of entry = ground (arith, e, found, k2) in
            record {
              entries = entries;
              parses = parses;
              entry = entry;
              listed = listed;
              is_enabled = ground (arith, e, found, k2);
              scheme = b.scheme;
              before = before;
              secret = secret;
              after = after;
              one_header = b.one_header ∙ ap (λ l. (b.scheme ++ (32 ∷ l)) ∷ []) behind;
              bounded = subst (λ l. length (b.scheme ++ (32 ∷ l)) ≤ 256) behind b.bounded;
              bearer = b.bearer;
              blank_before = blank;
              blank_after = blank';
              secret_letters = ground (arith, has_secret);
              secret_length = ground (arith, has_secret);
              verifies = ap f (sym written) ∙ codes_eq-eq (f token) (codes entry.verifier) matches;
              principal = ap (λ (q : Principal). q.principal) same;
              token_id = ap (λ (q : Principal). q.token_id) same;
              scopes = ap (λ (q : Principal). q.scopes) same;
            }
      ]
    ]

Bears-of_Presents :
    (f : List ℕ → List ℕ) (document : Json) (values : List (List ℕ)) (p : Principal)
    (h : Presents f document values p)
    → is_token_id (codes h.entry.token_id) ≡ true
    → is_secret h.secret ≡ true
    → Bears values (token_of h.entry h.secret)
unfolding is_space
Bears-of_Presents f document values p h has_id has_secret = record {
  scheme = h.scheme;
  behind = h.before ++ (token_of h.entry h.secret ++ h.after);
  one_header = h.one_header;
  bounded = h.bounded;
  bearer = h.bearer;
  stripped = sym (
      strip-padded 98 (codes "mdc1." ++ (codes h.entry.token_id ++ (46 ∷ h.secret))) h.before
        h.after (token-solid (codes h.entry.token_id) h.secret has_id has_secret) h.blank_before
        h.blank_after);
}

ok_of_Presents :
    (token_verifier : List ℕ → List ℕ) (document : Json) (authorization_values : List (List ℕ))
    (p : Principal)
    → Presents token_verifier document authorization_values p
    → authenticate token_verifier document authorization_values ≡ ok p
unfolding authenticate is_secret
ok_of_Presents f document values p h =
    let accepted = parse_token_document-Accepted document h.entries h.parses in
    let form = Listed-form h.entries h.entry accepted h.listed in
    let has_id : is_token_id (codes h.entry.token_id) ≡ true = ground (arith, form) in
    let has_secret : is_secret h.secret ≡ true =
      ground (arith, h.secret_letters, h.secret_length) in
    let token = token_of h.entry h.secret in
    let bears =
      ok_of_Bears values token (Bears-of_Presents f document values p h has_id has_secret) in
    let splits = split_token-written (codes h.entry.token_id) h.secret has_id has_secret in
    let found = find_listed h.entries h.entry accepted h.listed in
    let matches : codes_eq (f token) (codes h.entry.verifier) ≡ true =
      rw h.verifies (codes_eq-same (codes h.entry.verifier)) in
    let same : principal_of h.entry ≡ p = ground (arith, h.principal, h.token_id, h.scopes) in
    rw (h.parses, bears, splits, found, matches, h.is_enabled) (ap ok same)

-- A request is authenticated as a principal exactly when the token document is accepted, there is
-- one header of at most 256 characters, which is the word bearer in letters of either case, a
-- space and, between white space, bmdc1, the identifier of an enabled entry of the document and a
-- secret of 43 letters, digits, dashes and underscores with dots between them, the verifier of
-- that entry is the token's, and the principal has the entry's name, identifier and scopes.
pub authenticate_iff :
    (token_verifier : List ℕ → List ℕ) (document : Json) (authorization_values : List (List ℕ))
    (p : Principal)
    → (authenticate token_verifier document authorization_values ≡ ok p)
      ↔ Presents token_verifier document authorization_values p
authenticate_iff f document values p =
    (Presents-of_ok f document values p, ok_of_Presents f document values p)
