-- ===== src/Auth/Headers.antt =====
-- The text of a bearer header: its scheme and what is behind the first space.
use bmd_compute.Prelude.{
  ℕ, ◌+◌, Bool, true, false, ◌&&◌, Option, some, none, List, [], ◌∷◌, ◌++◌, ok, ◌≡◌, refl, ap,
  subst, ◌⊎◌, inl, inr, ◌≤◌, arith, all, length, leb, ltb, ◌==◌, Bool-cases, Option-cases,
}
use bmd_compute.Prelude.Text.{codes, codes_eq, strip, lower, lower_code}
use bmd_compute.Prelude.Split.{free}
use bmd_compute.Auth.Authenticate.{partition, scheme_and_token, bearer_token}

-- The text in letters of either case, the second text in small letters.
abbrev pub AnyCase : List ℕ → List ℕ → Type 0
AnyCase [] [] = Unit
AnyCase (c ∷ text) (d ∷ small) = ((c ≡ d) ⊎ (c + 32 ≡ d)) × AnyCase text small
AnyCase _ _ = ⊥

abbrev is_small : ℕ → Bool
is_small c = leb 97 c && leb c 122

anycase_of_lower :
    (text small : List ℕ)
    → all is_small small ≡ true
    → codes_eq (lower text) small ≡ true
    → AnyCase text small
unfolding lower lower_code codes_eq
anycase_of_lower [] [] letters h = tt
anycase_of_lower [] (d ∷ small) letters h = ground (arith, h)
anycase_of_lower (c ∷ text) [] letters h = ground (arith, h)
anycase_of_lower (c ∷ text) (d ∷ small) letters h =
    let same : (c ≡ d) ⊎ (c + 32 ≡ d) = ground (arith, h) in
    (same, anycase_of_lower text small (ground (arith, letters)) (ground (arith, h)))

lower_of_AnyCase :
    (text small : List ℕ)
    → all is_small small ≡ true
    → AnyCase text small
    → codes_eq (lower text) small ≡ true
unfolding lower lower_code codes_eq
lower_of_AnyCase [] [] letters h = refl
lower_of_AnyCase [] (d ∷ small) letters h = absurd h
lower_of_AnyCase (c ∷ text) [] letters h = absurd h
lower_of_AnyCase (c ∷ text) (d ∷ small) letters (same, later) =
    ground (arith, letters, same, lower_of_AnyCase text small (ground (arith, letters)) later)

-- Letters of either case are no space.
AnyCase-free :
    (text small : List ℕ) → all is_small small ≡ true → AnyCase text small → free 32 text ≡ true
AnyCase-free [] [] letters h = refl
AnyCase-free [] (d ∷ small) letters h = absurd h
AnyCase-free (c ∷ text) [] letters h = absurd h
AnyCase-free (c ∷ text) (d ∷ small) letters (same, later) =
    ground (arith, letters, same, AnyCase-free text small (ground (arith, letters)) later)

partition-some :
    (at : ℕ) (text a b : List ℕ) → partition at text ≡ some (a, b) → text ≡ a ++ (at ∷ b)
unfolding partition
partition-some at [] a b h = absurd (ground (arith, h))
partition-some at (c ∷ text) a b h = elim (Bool-cases (c == at)) [
  | inl ends ↦ ground (arith, h, ends)
  | inr goes_on ↦ elim (Option-cases (partition at text)) [
    | inl e ↦ absurd (ground (arith, h, goes_on, e))
    | inr ((x, y), e) ↦ ground (arith, h, goes_on, e, partition-some at text x y e)
  ]
]

partition-free :
    (at : ℕ) (a b : List ℕ) → free at a ≡ true → partition at (a ++ (at ∷ b)) ≡ some (a, b)
unfolding partition
partition-free at [] b h = ground arith
partition-free at (c ∷ a) b h = ground (arith, h, partition-free at a b)

-- One short header of the Bearer scheme, with the text behind the first space.
pub record Bears (values : List (List ℕ)) (token : List ℕ) : Type 0 where
  pub scheme : List ℕ
  pub behind : List ℕ
  pub one_header : values ≡ (scheme ++ (32 ∷ behind)) ∷ []
  pub bounded : length (scheme ++ (32 ∷ behind)) ≤ 256
  pub bearer : AnyCase scheme (codes "bearer")
  pub stripped : token ≡ strip behind

Bears-of_parts :
    (value token : List ℕ) (parts : Option (List ℕ × List ℕ))
    → length value ≤ 256
    → partition 32 value ≡ parts
    → scheme_and_token parts ≡ ok token
    → Bears (value ∷ []) token
Bears-of_parts value token none bounded e h = absurd (ground (arith, h))
Bears-of_parts value token (some (scheme, behind)) bounded e h =
    let same = partition-some 32 value scheme behind e in
    record {
      scheme = scheme;
      behind = behind;
      one_header = ap (λ l. l ∷ []) same;
      bounded = subst (λ l. length l ≤ 256) same bounded;
      bearer = anycase_of_lower scheme (codes "bearer") refl (ground (arith, h));
      stripped = ground (arith, h);
    }

pub Bears-of_ok :
    (values : List (List ℕ)) (token : List ℕ) → bearer_token values ≡ ok token → Bears values token
unfolding bearer_token
Bears-of_ok [] token h = absurd (ground (arith, h))
Bears-of_ok (value ∷ other ∷ values) token h = absurd (ground (arith, h))
Bears-of_ok (value ∷ []) token h = elim (Bool-cases (ltb 256 (length value))) [
  | inl long ↦ absurd (ground (arith, h, long))
  | inr short ↦
      Bears-of_parts value token (partition 32 value) (ground (arith, short)) refl
        (ground (arith, h, short))
]

pub ok_of_Bears :
    (values : List (List ℕ)) (token : List ℕ) → Bears values token → bearer_token values ≡ ok token
unfolding bearer_token
ok_of_Bears values token b =
    let parts =
      partition-free 32 b.scheme b.behind (AnyCase-free b.scheme (codes "bearer") refl b.bearer) in
    let bearer = lower_of_AnyCase b.scheme (codes "bearer") refl b.bearer in
    let short : ltb 256 (length (b.scheme ++ (32 ∷ b.behind))) ≡ false =
      ground (arith, b.bounded) in
    rw (b.one_header, bearer_token, short, parts, bearer, b.stripped) refl
