-- ===== src/Prelude/Strip.antt =====
-- `text.strip()` leaves nothing to strip.
use Prim.Native.Nat.{ℕ}
use mathlib.Core.Path.{◌≡◌, refl, sym, ap, ◌∙◌, subst}
use native.Mathlib.Omega.{arith}
use mathlib.Core.Bool.{Bool, true, not}
use mathlib.Core.List.{List, [], ◌∷◌, ◌++◌, reverse, reverse-append, reverse-reverse, reverse_aux}
use bmd_compute.Prelude.Tests.{if◌then◌else◌}
use bmd_compute.Prelude.Lists.{all}
use bmd_compute.Prelude.Text.{is_space, lstrip, strip}

abbrev starts_full : List ℕ → Bool
starts_full [] = true
starts_full (c ∷ s) = not (is_space c)

lstrip-full : (s : List ℕ) → starts_full (lstrip s) ≡ true
unfolding lstrip
lstrip-full [] = refl
lstrip-full (c ∷ s) = ground (arith, lstrip-full s)

full-lstrip : (s : List ℕ) → starts_full s ≡ true → lstrip s ≡ s
unfolding lstrip
full-lstrip [] full = refl
full-lstrip (c ∷ s) full = ground (arith, full)

-- The white space at the front.
abbrev leading : List ℕ → List ℕ
leading [] = []
leading (c ∷ s) = let rest = leading s in if is_space c then c ∷ rest else []

leading-lstrip : (s : List ℕ) → s ≡ leading s ++ lstrip s
unfolding lstrip
leading-lstrip [] = refl
leading-lstrip (c ∷ s) = ground (arith, leading-lstrip s)

prefix-full : (s p : List ℕ) → starts_full (s ++ p) ≡ true → starts_full s ≡ true
prefix-full [] p full = refl
prefix-full (c ∷ s) p full = full

rstrip-prefix : (s : List ℕ) → (p : List ℕ) × (s ≡ reverse (lstrip (reverse s)) ++ p)
rstrip-prefix s = (
  reverse (leading (reverse s)),
  sym (reverse-reverse s)
      ∙ ap reverse (leading-lstrip (reverse s))
      ∙ reverse-append (leading (reverse s)) (lstrip (reverse s)),
)

pub strip-strip : (s : List ℕ) → strip (strip s) ≡ strip s
unfolding strip
strip-strip s =
    let left = lstrip s in
    let inner = lstrip (reverse left) in
    let full =
      prefix-full (reverse inner) (rstrip-prefix left).0
        (subst (λ l. starts_full l ≡ true) (rstrip-prefix left).1 (lstrip-full s)) in
    rw (
      full-lstrip (reverse inner) full,
      reverse-reverse inner,
      full-lstrip inner (lstrip-full (reverse left)),
    )

solid_reverse :
    (s t : List ℕ)
    → all (λ c. not (is_space c)) s ≡ true
    → all (λ c. not (is_space c)) t ≡ true
    → all (λ c. not (is_space c)) (reverse_aux s t) ≡ true
solid_reverse [] t solid solid' = solid'
solid_reverse (c ∷ s) t solid solid' =
    solid_reverse s (c ∷ t) (ground (arith, solid)) (ground (arith, solid, solid'))

solid-full : (s : List ℕ) → all (λ c. not (is_space c)) s ≡ true → starts_full s ≡ true
solid-full [] solid = refl
solid-full (c ∷ s) solid = ground (arith, solid)

-- Text without white space is not changed.
pub strip-solid : (s : List ℕ) → all (λ c. not (is_space c)) s ≡ true → strip s ≡ s
unfolding strip
strip-solid s solid =
    rw
      (
        full-lstrip s (solid-full s solid),
        full-lstrip (reverse s) (solid-full (reverse s) (solid_reverse s [] solid refl)),
      )
      (reverse-reverse s)

leading-spaces : (s : List ℕ) → all is_space (leading s) ≡ true
leading-spaces [] = refl
leading-spaces (c ∷ s) = ground (arith, leading-spaces s)

spaces_reverse :
    (s t : List ℕ)
    → all is_space s ≡ true
    → all is_space t ≡ true
    → all is_space (reverse_aux s t) ≡ true
spaces_reverse [] t spaces spaces' = spaces'
spaces_reverse (c ∷ s) t spaces spaces' =
    spaces_reverse s (c ∷ t) (ground (arith, spaces)) (ground (arith, spaces, spaces'))

-- What is stripped off is white space on both sides.
pub strip_off :
    (s : List ℕ)
    → (before : List ℕ) × (after : List ℕ) × (s ≡ before ++ (strip s ++ after))
      × (all is_space before ≡ true)
      × (all is_space after ≡ true)
unfolding strip
strip_off s =
    let left = lstrip s in
    let behind = leading (reverse left) in
    let ends : left ≡ reverse (lstrip (reverse left)) ++ reverse behind =
      sym (reverse-reverse left)
      ∙ ap reverse (leading-lstrip (reverse left))
      ∙ reverse-append behind (lstrip (reverse left)) in
    (
      leading s,
      reverse behind,
      leading-lstrip s ∙ ap (λ l. leading s ++ l) ends,
      leading-spaces s,
      spaces_reverse behind [] (leading-spaces (reverse left)) refl,
    )

lstrip-spaces : (before s : List ℕ) → all is_space before ≡ true → lstrip (before ++ s) ≡ lstrip s
unfolding lstrip
lstrip-spaces [] s spaces = refl
lstrip-spaces (c ∷ before) s spaces = ground (arith, spaces, lstrip-spaces before s)

-- Solid text between white space is what stripping leaves.
pub strip-padded :
    (c : ℕ) (s before after : List ℕ)
    → all (λ d. not (is_space d)) (c ∷ s) ≡ true
    → all is_space before ≡ true
    → all is_space after ≡ true
    → strip (before ++ ((c ∷ s) ++ after)) ≡ c ∷ s
unfolding strip
strip-padded c s before after solid spaces spaces' =
    let text = c ∷ s in
    let inner = reverse text in
    let front : lstrip (before ++ (text ++ after)) ≡ text ++ after =
      lstrip-spaces before (text ++ after) spaces
      ∙ full-lstrip (text ++ after) (ground (arith, solid)) in
    let back : lstrip (reverse (text ++ after)) ≡ inner =
      ap lstrip (reverse-append text after)
      ∙ lstrip-spaces (reverse after) inner (spaces_reverse after [] spaces' refl)
      ∙ full-lstrip inner (solid-full inner (solid_reverse text [] solid refl)) in
    ap (λ l. reverse (lstrip (reverse l))) front ∙ ap reverse back ∙ reverse-reverse text
