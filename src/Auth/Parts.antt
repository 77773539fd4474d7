-- ===== src/Auth/Parts.antt =====
-- The parts of a token.
use bmd_compute.Prelude.{
  ℕ, Bool, true, not, some, List, [], ◌∷◌, ◌++◌, ◌≡◌, refl, sym, ap, ◌∙◌, inl, inr, arith, all,
  ◌==◌, Bool-cases,
}
use bmd_compute.Prelude.Text.{codes, codes_eq-eq, codes_eq-same, is_space}
use bmd_compute.Prelude.Split.{free, all-append}
use bmd_compute.Auth.Tokens.{is_lower_digit, is_secret_code, is_token_id, is_secret}
use bmd_compute.Auth.Authenticate.{split_dots, token_parts, split_token}

-- The parts, with the dots put back.
abbrev joined : List (List ℕ) → List ℕ
joined [] = []
joined (part ∷ []) = part
joined (part ∷ next ∷ parts) = part ++ (46 ∷ joined (next ∷ parts))

split_dots-cons :
    (text : List ℕ) → (part : List ℕ) × (parts : List (List ℕ)) × (split_dots text ≡ part ∷ parts)
unfolding split_dots
split_dots-cons [] = ([], [], refl)
split_dots-cons (c ∷ text) =
    let (part, parts, e) = split_dots-cons text in
    elim (Bool-cases (c == 46)) [
      | inl dot ↦ ([], part ∷ parts, ground (arith, dot, e))
      | inr other ↦ (c ∷ part, parts, ground (arith, other, e))
    ]

joined_push :
    (c : ℕ) (part : List ℕ) (parts : List (List ℕ))
    → joined ((c ∷ part) ∷ parts) ≡ c ∷ joined (part ∷ parts)
joined_push c part [] = refl
joined_push c part (next ∷ parts) = refl

split_dots-joined : (text : List ℕ) → joined (split_dots text) ≡ text
unfolding split_dots
split_dots-joined [] = refl
split_dots-joined (c ∷ text) =
    let (part, parts, e) = split_dots-cons text in
    let rest : joined (part ∷ parts) ≡ text = sym (ap joined e) ∙ split_dots-joined text in
    elim (Bool-cases (c == 46)) [
      | inl dot ↦ rw (dot, e) (ground (arith, dot, rest))
      | inr other ↦ rw (other, e) (joined_push c part parts ∙ ap (λ l. c ∷ l) rest)
    ]

split_dots-part : (a b : List ℕ) → free 46 a ≡ true → split_dots (a ++ (46 ∷ b)) ≡ a ∷ split_dots b
unfolding split_dots
split_dots-part [] b h = refl
split_dots-part (c ∷ a) b h = ground (arith, h, split_dots-part a b)

split_dots-last : (a : List ℕ) → free 46 a ≡ true → split_dots a ≡ a ∷ []
unfolding split_dots
split_dots-last [] h = refl
split_dots-last (c ∷ a) h = ground (arith, h, split_dots-last a)

split_dots-three :
    (text a b c : List ℕ) → split_dots text ≡ a ∷ b ∷ c ∷ [] → text ≡ a ++ (46 ∷ (b ++ (46 ∷ c)))
split_dots-three text a b c h = sym (split_dots-joined text) ∙ ap joined h

token_parts-some :
    (parts : List (List ℕ)) (token_id secret : List ℕ)
    → token_parts parts ≡ some (token_id, secret)
    → (parts ≡ codes "bmdc1" ∷ token_id ∷ secret ∷ [])
      × (is_token_id token_id ≡ true)
      × (is_secret secret ≡ true)
token_parts-some [] i s h = absurd (ground (arith, h))
token_parts-some (a ∷ []) i s h = absurd (ground (arith, h))
token_parts-some (a ∷ b ∷ []) i s h = absurd (ground (arith, h))
token_parts-some (a ∷ b ∷ c ∷ d ∷ parts) i s h = absurd (ground (arith, h))
token_parts-some (a ∷ b ∷ c ∷ []) i s h =
    let prefix = codes_eq-eq a (codes "bmdc1") (ground (arith, h)) in
    (ground (arith, h, prefix), ground (arith, h), ground (arith, h))

pub split_token-reads :
    (token token_id secret : List ℕ)
    → split_token token ≡ some (token_id, secret)
    → (token ≡ codes "bmdc1." ++ (token_id ++ (46 ∷ secret)))
      × (is_token_id token_id ≡ true)
      × (is_secret secret ≡ true)
unfolding split_token
split_token-reads token token_id secret h =
    let (parts, has_id, has_secret) = token_parts-some (split_dots token) token_id secret h in
    (split_dots-three token (codes "bmdc1") token_id secret parts, has_id, has_secret)

all_imp :
    (p q : ℕ → Bool)
    → ((c : ℕ) → p c ≡ true → q c ≡ true)
    → (text : List ℕ) → all p text ≡ true
    → all q text ≡ true
all_imp p q imp [] h = refl
all_imp p q imp (c ∷ text) h =
    let first = imp c (ground (arith, h)) in
    ground (arith, first, all_imp p q imp text (ground (arith, h)))

abbrev pub is_solid : ℕ → Bool
is_solid c = not (is_space c)

token_id-free : (text : List ℕ) → is_token_id text ≡ true → free 46 text ≡ true
unfolding is_token_id
token_id-free text h =
    all_imp is_lower_digit (λ c. not (c == 46))
      (λ (c : ℕ) (letter : is_lower_digit c ≡ true). ground (arith, letter)) text
      (ground (arith, h))

secret-free : (text : List ℕ) → is_secret text ≡ true → free 46 text ≡ true
unfolding is_secret
secret-free text h =
    all_imp is_secret_code (λ c. not (c == 46))
      (λ (c : ℕ) (letter : is_secret_code c ≡ true). ground (arith, letter)) text
      (ground (arith, h))

token_id-solid : (text : List ℕ) → is_token_id text ≡ true → all is_solid text ≡ true
unfolding is_token_id is_space
token_id-solid text h =
    all_imp is_lower_digit is_solid
      (λ (c : ℕ) (letter : is_lower_digit c ≡ true). ground (arith, letter)) text
      (ground (arith, h))

secret-solid : (text : List ℕ) → is_secret text ≡ true → all is_solid text ≡ true
unfolding is_secret is_space
secret-solid text h =
    all_imp is_secret_code is_solid
      (λ (c : ℕ) (letter : is_secret_code c ≡ true). ground (arith, letter)) text
      (ground (arith, h))

-- A token has no white space.
pub token-solid :
    (token_id secret : List ℕ)
    → is_token_id token_id ≡ true
    → is_secret secret ≡ true
    → all is_solid (codes "bmdc1." ++ (token_id ++ (46 ∷ secret))) ≡ true
unfolding is_space
token-solid token_id secret has_id has_secret =
    all-append is_solid (codes "bmdc1.") (token_id ++ (46 ∷ secret)) refl (
      all-append is_solid token_id (46 ∷ secret) (token_id-solid token_id has_id)
        (ground (arith, secret-solid secret has_secret)))

pub split_token-written :
    (token_id secret : List ℕ)
    → is_token_id token_id ≡ true
    → is_secret secret ≡ true
    → split_token (codes "bmdc1." ++ (token_id ++ (46 ∷ secret))) ≡ some (token_id, secret)
unfolding split_token
split_token-written token_id secret has_id has_secret =
    let parts : split_dots (codes "bmdc1." ++ (token_id ++ (46 ∷ secret)))
        ≡ codes "bmdc1" ∷ token_id ∷ secret ∷ [] =
      split_dots-part (codes "bmdc1") (token_id ++ (46 ∷ secret)) refl
      ∙ ap (λ l. codes "bmdc1" ∷ l)
          (split_dots-part token_id secret (token_id-free token_id has_id)
            ∙ ap (λ l. token_id ∷ l) (split_dots-last secret (secret-free secret has_secret))) in
    ap token_parts parts ∙ rw (codes_eq-same (codes "bmdc1"), has_id, has_secret) refl
