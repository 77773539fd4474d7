-- ===== src/Submission/RemotePaths.antt =====
-- SAFE_REMOTE_PATH_PATTERN and the components of a path.
use bmd_compute.Prelude.{
  ℕ, true, false, List, [], ◌∷◌, ◌++◌, ok, ◌≡◌, ◌≢◌, ◌≤◌, ◌⊎◌, refl, sym, ap, ◌∙◌, subst, arith,
  any, all, length, ◌==◌, ==_iff, append-nil, append_assoc, Bool-cases, inl, inr,
}
use bmd_compute.Prelude.Text.{codes, codes_eq, codes_eq-eq}
use bmd_compute.Submission.{is_safe_path, split_from, is_parent, require_safe_remote_path}
use bmd_compute.Submission.PlainFields.{is_file_code, PlainPath}

-- The components behind a slash are components of the path.
no_parent_behind :
    (part before rest : List ℕ)
    → any is_parent (split_from part (before ++ (47 ∷ rest))) ≡ false
    → any is_parent (split_from [] rest) ≡ false
no_parent_behind part [] rest h = ground (arith, h)
no_parent_behind part (c ∷ before) rest h = elim (Bool-cases (c == 47)) [
  | inl slash ↦ no_parent_behind [] before rest (ground (arith, h, slash))
  | inr other ↦ no_parent_behind (part ++ (c ∷ [])) before rest (ground (arith, h, other))
]

no_parent_in :
    (path before rest : List ℕ)
    → any is_parent (split_from [] path) ≡ false
    → any is_parent (split_from [] rest) ≡ true
    → path ≢ before ++ (47 ∷ rest)
no_parent_in path before rest none_found found e =
    let h =
      no_parent_behind [] before rest
        (subst (λ l. any is_parent (split_from [] l) ≡ false) e none_found) in
    ground (arith, h, found)

parent_first : (after : List ℕ) → any is_parent (split_from [] (codes "../" ++ after)) ≡ true
unfolding codes_eq
parent_first after = refl

parent_only : any is_parent (split_from [] (codes "..")) ≡ true
unfolding codes_eq
parent_only = refl

pub is_safe_path-PlainPath :
    (path : List ℕ)
    → is_safe_path path ≡ true
    → length path ≤ 4096
    → any is_parent (split_from [] path) ≡ false
    → PlainPath path
is_safe_path-PlainPath [] h bounded none_found = absurd (ground arith)
is_safe_path-PlainPath (c ∷ []) h bounded none_found = absurd (ground arith)
is_safe_path-PlainPath (c ∷ d ∷ text) h bounded none_found = record {
  characters = ground (arith, h);
  bounded = bounded;
  below = d ∷ text;
  absolute = ground (arith, h);
  not_root = λ e. cc;
  no_inner_parent = λ before after.
      no_parent_in (c ∷ d ∷ text) before (codes "../" ++ after) none_found (parent_first after);
  no_last_parent = λ before. no_parent_in (c ∷ d ∷ text) before (codes "..") none_found parent_only;
}

-- Where a parent's component can stand: at the beginning, or behind a slash.
abbrev Leads : List ℕ → Type 0
Leads text = (text ≡ codes "..") ⊎ ((after : List ℕ) × (text ≡ codes "../" ++ after))

abbrev Inside : List ℕ → Type 0
Inside text =
    ((before : List ℕ) × (after : List ℕ) × (text ≡ before ++ (codes "/../" ++ after)))
    ⊎ ((before : List ℕ) × (text ≡ before ++ codes "/.."))

Inside-of_Leads : (text : List ℕ) → Leads text → Inside (47 ∷ text)
Inside-of_Leads text (inl last) = inr ([], ap (λ l. 47 ∷ l) last)
Inside-of_Leads text (inr (after, inner)) = inl ([], after, ap (λ l. 47 ∷ l) inner)

Inside-later : (c : ℕ) (text : List ℕ) → Inside text → Inside (c ∷ text)
Inside-later c text (inl (before, after, e)) = inl (c ∷ before, after, ap (λ l. c ∷ l) e)
Inside-later c text (inr (before, e)) = inr (c ∷ before, ap (λ l. c ∷ l) e)

parent_found :
    (part text : List ℕ)
    → any is_parent (split_from part text) ≡ true
    → Leads (part ++ text) ⊎ Inside text
parent_found part [] h =
    inl (inl (append-nil part ∙ codes_eq-eq part (codes "..") (ground (arith, h))))
parent_found part (c ∷ text) h = elim (Bool-cases (c == 47)) [
  | inl slash ↦ elim (Bool-cases (is_parent part)) [
    | inl parent ↦
        inl (inr (text, rw ((==_iff c 47).0 slash, codes_eq-eq part (codes "..") parent) refl))
    | inr other ↦ inr (elim (parent_found [] text (ground (arith, h, slash, other))) [
      | inl leads ↦
          subst (λ (d : ℕ). Inside (d ∷ text)) (sym ((==_iff c 47).0 slash))
            (Inside-of_Leads text leads)
      | inr inside ↦ Inside-later c text inside
    ])
  ]
  | inr goes_on ↦ elim (parent_found (part ++ (c ∷ [])) text (ground (arith, h, goes_on))) [
    | inl leads ↦ inl (subst Leads (append_assoc part (c ∷ []) text) leads)
    | inr inside ↦ inr (Inside-later c text inside)
  ]
]

no_parent_of_PlainPath :
    (path : List ℕ) → PlainPath path → any is_parent (split_from [] path) ≡ false
no_parent_of_PlainPath path plain = elim (Bool-cases (any is_parent (split_from [] path))) [
  | inr none_found ↦ none_found
  | inl found ↦ elim (parent_found [] path found) [
    | inl (inl last) ↦ absurd (ground (arith, last, plain.absolute))
    | inl (inr (after, inner)) ↦ absurd (ground (arith, inner, plain.absolute))
    | inr (inl (before, after, inner)) ↦ absurd (plain.no_inner_parent before after inner)
    | inr (inr (before, last)) ↦ absurd (plain.no_last_parent before last)
  ]
]

safe_below :
    (below : List ℕ)
    → below ≢ []
    → all is_file_code (47 ∷ below) ≡ true
    → is_safe_path (47 ∷ below) ≡ true
safe_below [] full characters = absurd (full refl)
safe_below (c ∷ below) full characters = ground (arith, characters)

pub PlainPath-ok :
    (name path : List ℕ) → PlainPath path → require_safe_remote_path name path ≡ ok tt
unfolding require_safe_remote_path
PlainPath-ok name path plain =
    let safe : is_safe_path path ≡ true =
      subst (λ l. is_safe_path l ≡ true) (sym plain.absolute)
        (safe_below plain.below plain.not_root
          (subst (λ l. all is_file_code l ≡ true) plain.absolute plain.characters)) in
    ground (arith, safe, plain.bounded, no_parent_of_PlainPath path plain)
