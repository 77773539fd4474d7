-- ===== src/TaskSet/Normal.antt =====
-- posixpath.normpath on absolute paths: the normal paths are those of proper components.
use bmd_compute.Prelude.{
  ℕ, true, false, List, [], ◌∷◌, ◌++◌, ◌≡◌, ◌≢◌, refl, sym, ap, ◌∙◌, arith, All, Bool-cases,
  All-append, subst, ◌⊎◌, inl, inr, append-nil, append_assoc,
}
use mathlib.Core.List.{reverse, reverse-cons, reverse-reverse}
use bmd_compute.Prelude.Text.{codes, codes_eq, starts_with}
use bmd_compute.Prelude.Split.{free, split_on, split_on-part, split_on-last, split_on-free}
use bmd_compute.Submission.{is_empty}
use bmd_compute.TaskSet.Paths.{push_part, push_parts, joined, normpath, has_double_slash}

-- A component of a normal path.
pub record Proper (part : List ℕ) : Type 0 where
  pub not_empty : is_empty part ≡ false
  pub no_slash : free 47 part ≡ true
  pub not_dot : codes_eq part (codes ".") ≡ false
  pub not_dots : codes_eq part (codes "..") ≡ false

-- Each component behind a slash.
abbrev pub absolute : List (List ℕ) → List ℕ
absolute [] = []
absolute (part ∷ parts) = 47 ∷ (part ++ absolute parts)

absolute-joined :
    (part : List ℕ) (parts : List (List ℕ)) → 47 ∷ joined (part ∷ parts) ≡ absolute (part ∷ parts)
absolute-joined part [] = ap (λ l. 47 ∷ l) (sym (append-nil part))
absolute-joined part (next ∷ parts) = ap (λ l. 47 ∷ (part ++ l)) (absolute-joined next parts)

popped-Proper :
    (parts : List (List ℕ))
    → All Proper parts
    → All Proper (elim parts [ [] ↦ [] | last ∷ before ↦ before ])
popped-Proper [] proper = tt
popped-Proper (last ∷ before) (first, rest) = rest

push_part-Proper :
    (parts : List (List ℕ)) (part : List ℕ)
    → All Proper parts
    → free 47 part ≡ true
    → All Proper (push_part parts part)
unfolding push_part
push_part-Proper parts part proper plain = elim (Bool-cases (is_empty part)) [
  | inl none_left ↦ rw none_left proper
  | inr some_left ↦ elim (Bool-cases (codes_eq part (codes "."))) [
    | inl dot ↦ rw (some_left, dot) proper
    | inr not_dot ↦ elim (Bool-cases (codes_eq part (codes ".."))) [
      | inl dots ↦ rw (some_left, not_dot, dots) (popped-Proper parts proper)
      | inr not_dots ↦
          rw (some_left, not_dot, not_dots)
            (
              record {
                not_empty = some_left;
                no_slash = plain;
                not_dot = not_dot;
                not_dots = not_dots;
              },
              proper,
            )
    ]
  ]
]

push_parts-Proper :
    (parts rest : List (List ℕ))
    → All Proper parts
    → All (λ p. free 47 p ≡ true) rest
    → All Proper (push_parts parts rest)
unfolding push_parts
push_parts-Proper parts [] proper plain = proper
push_parts-Proper parts (part ∷ rest) proper (here, later) =
    push_parts-Proper (push_part parts part) rest (push_part-Proper parts part proper here) later

push_part-pushes :
    (parts : List (List ℕ)) (part : List ℕ) → Proper part → push_part parts part ≡ part ∷ parts
unfolding push_part
push_part-pushes parts part p = rw (p.not_empty, p.not_dot, p.not_dots)

push_parts-pushes :
    (parts rest : List (List ℕ)) → All Proper rest → push_parts parts rest ≡ reverse rest ++ parts
unfolding push_parts
push_parts-pushes parts [] proper = refl
push_parts-pushes parts (part ∷ rest) (first, later) =
    ap (λ l. push_parts l rest) (push_part-pushes parts part first)
    ∙ push_parts-pushes (part ∷ parts) rest later
    ∙ sym (append_assoc (reverse rest) (part ∷ []) parts)
    ∙ ap (λ l. l ++ parts) (sym (reverse-cons part rest))

split_on-absolute :
    (part : List ℕ) (parts : List (List ℕ))
    → All Proper (part ∷ parts)
    → split_on 47 [] (part ++ absolute parts) ≡ part ∷ parts
split_on-absolute part [] (first, rest) =
    ap (split_on 47 []) (append-nil part) ∙ split_on-last 47 [] part first.no_slash
split_on-absolute part (next ∷ parts) (first, rest) =
    split_on-part 47 [] part (next ++ absolute parts) first.no_slash
    ∙ ap (λ l. part ∷ l) (split_on-absolute next parts rest)

-- No slash follows the first one.
single_slash :
    (part text : List ℕ) → Proper part → starts_with (codes "//") (47 ∷ (part ++ text)) ≡ false
single_slash [] text p = cc (p.not_empty)
single_slash (c ∷ part) text p = ground (arith, p.no_slash)

push_parts-absolute :
    (part : List ℕ) (parts : List (List ℕ))
    → All Proper (part ∷ parts)
    → reverse (push_parts [] (split_on 47 [] (absolute (part ∷ parts)))) ≡ part ∷ parts
unfolding push_parts push_part split_on
push_parts-absolute part parts proper =
    ap (λ l. reverse (push_parts [] l)) (split_on-absolute part parts proper)
    ∙ ap reverse (push_parts-pushes [] (part ∷ parts) proper ∙ append-nil (reverse (part ∷ parts)))
    ∙ reverse-reverse (part ∷ parts)

-- A path of proper components is normal.
pub normpath-absolute :
    (part : List ℕ) (parts : List (List ℕ))
    → All Proper (part ∷ parts)
    → normpath (absolute (part ∷ parts)) ≡ absolute (part ∷ parts)
unfolding normpath
normpath-absolute part parts proper =
    rw (single_slash part (absolute parts) proper.0, push_parts-absolute part parts proper)
      (absolute-joined part parts)

All-reverse : (parts : List (List ℕ)) → All Proper parts → All Proper (reverse parts)
All-reverse [] proper = tt
All-reverse (part ∷ parts) (first, rest) =
    subst (All Proper) (sym (reverse-cons part parts))
      (All-append Proper (reverse parts) (part ∷ []) (All-reverse parts rest) (first, tt))

-- The components of the normal form.
components : List ℕ → List (List ℕ)
components path = reverse (push_parts [] (split_on 47 [] path))

components-Proper : (path : List ℕ) → All Proper (components path)
unfolding components
components-Proper path =
    All-reverse (push_parts [] (split_on 47 [] path))
      (push_parts-Proper [] (split_on 47 [] path) tt (split_on-free 47 [] path refl))

double_slash-start :
    (path : List ℕ) → starts_with (codes "//") path ≡ true → has_double_slash path ≡ true
double_slash-start [] start = start
double_slash-start (c ∷ text) start = rw start

normpath-eq :
    (path : List ℕ)
    → normpath path ≡ path
    → has_double_slash path ≡ false
    → path ≡ 47 ∷ joined (components path)
unfolding normpath components
normpath-eq path normal single = elim (Bool-cases (starts_with (codes "//") path)) [
  | inl double ↦ cc (double_slash-start path double)
  | inr one ↦ sym normal ∙ rw one
]

slash-or-absolute :
    (parts : List (List ℕ))
    → (47 ∷ joined parts ≡ codes "/")
      ⊎ ((part : List ℕ) × (rest : List (List ℕ)) × (parts ≡ part ∷ rest)
          × (47 ∷ joined parts ≡ absolute (part ∷ rest)))
slash-or-absolute [] = inl refl
slash-or-absolute (part ∷ rest) = inr (part, rest, refl, absolute-joined part rest)

-- A normal path that is not the root is one of proper components.
pub normal-absolute :
    (path : List ℕ)
    → normpath path ≡ path
    → has_double_slash path ≡ false
    → path ≢ codes "/"
    → (part : List ℕ) × (parts : List (List ℕ)) × All Proper (part ∷ parts)
      × (path ≡ absolute (part ∷ parts))
normal-absolute path normal single not_root =
    let same = normpath-eq path normal single in
    elim (slash-or-absolute (components path)) [
      | inl root ↦ absurd (not_root (same ∙ root))
      | inr (part, rest, split, whole) ↦
          (part, rest, subst (All Proper) split (components-Proper path), same ∙ whole)
    ]

double_slash-append :
    (part text : List ℕ)
    → free 47 part ≡ true
    → has_double_slash text ≡ false
    → has_double_slash (part ++ text) ≡ false
double_slash-append [] text plain single = single
double_slash-append (c ∷ part) text plain single =
    ground (arith, plain, single, double_slash-append part text)

pub absolute-single :
    (parts : List (List ℕ)) → All Proper parts → has_double_slash (absolute parts) ≡ false
absolute-single [] proper = refl
absolute-single (part ∷ parts) (first, rest) = ground (
  arith,
  single_slash part (absolute parts) first,
  double_slash-append part (absolute parts) first.no_slash (absolute-single parts rest),
)
