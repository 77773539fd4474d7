-- ===== src/RunRecords/Directories.antt =====
-- backend/run_records.py: what the mapping of stage directories amounts to.
use bmd_compute.Prelude.{
  ℕ, zero, suc, ◌≤◌, ◌<◌, true, false, not, ◌&&◌, Option, none, some, List, [], ◌∷◌, All, ok, ◌≡◌,
  refl, arith, >>=-eq-ok, raise_if, raise_if-eq-ok, >>-eq-ok, ok-injective, subst, ◌>>◌, Bool-cases,
  ltb, ◌==◌, ==_iff, if◌then◌else◌, inl, inr,
}
use bmd_compute.RunRecords.{
  RecordError, not_every_stage, stage_index_from_directory_id, Directories, Mapped, names_index,
  place, map_directories, names_up_to, within, validate_stage_directories,
}

-- The path of a stage, by its index.
abbrev pub path_of : ℕ → Mapped → Option (List ℕ)
path_of index [] = none
path_of index ((i, path) ∷ mapped) = if i == index then some path else path_of index mapped

abbrev pub Unique : Mapped → Type 0
Unique [] = Unit
Unique (entry ∷ mapped) = (names_index entry.0 mapped ≡ false) × Unique mapped

-- A directory of the record is the path of the stage that its identifier names.
abbrev pub Placed : Mapped → List ℕ × Option (List ℕ) → Type 0
Placed mapped (identifier, path) =
    (index : ℕ) × (text : List ℕ) × (stage_index_from_directory_id identifier ≡ some index)
    × (path ≡ some text)
    × (path_of index mapped ≡ some text)

pub record Names (stage_count : ℕ) (directories : Directories) (mapped : Mapped) : Type 0 where
  pub unique : Unique mapped
  pub in_range : (i : ℕ) → names_index i mapped ≡ true → (1 ≤ i) × (i ≤ stage_count)
  pub placed : All (Placed mapped) directories
  pub complete : 1 < stage_count → (i : ℕ) → 1 ≤ i → i ≤ stage_count → names_index i mapped ≡ true

path_of-names :
    (i : ℕ) (mapped : Mapped) (path : List ℕ)
    → path_of i mapped ≡ some path
    → names_index i mapped ≡ true
path_of-names i [] path found = ground (arith, found)
path_of-names i ((j, q) ∷ mapped) path found = ground (arith, found, path_of-names i mapped path)

-- An entry with a new index leaves the paths of the others.
path_of-later :
    (i j : ℕ) (q path : List ℕ) (mapped : Mapped)
    → names_index j mapped ≡ false
    → path_of i mapped ≡ some path
    → path_of i ((j, q) ∷ mapped) ≡ some path
path_of-later i j q path mapped fresh found =
    ground (arith, fresh, found, path_of-names i mapped path, ==_iff j i)

stage_index-pos :
    (identifier : List ℕ) (i : ℕ) → stage_index_from_directory_id identifier ≡ some i → 1 ≤ i
unfolding stage_index_from_directory_id
stage_index-pos identifier i named = ground (arith, named)

abbrev InRange : ℕ → Mapped → Type 0
InRange stage_count mapped = (i : ℕ) → names_index i mapped ≡ true → (1 ≤ i) × (i ≤ stage_count)

-- What one pass of the loop adds to `mapped`.
record Extends (stage_count : ℕ) (mapped : Mapped) (directories : Directories) (result : Mapped)
    : Type 0 where
  unique : Unique result
  in_range : InRange stage_count result
  kept : (i : ℕ) (path : List ℕ) → path_of i mapped ≡ some path → path_of i result ≡ some path
  placed : All (Placed result) directories

-- An entry that is placed.
record Entry (stage_count : ℕ) (mapped : Mapped) (identifier : List ℕ) (path : Option (List ℕ))
    (entry : ℕ × List ℕ) : Type 0 where
  named : stage_index_from_directory_id identifier ≡ some entry.0
  has_path : path ≡ some entry.1
  fresh : names_index entry.0 mapped ≡ false
  in_workflow : entry.0 ≤ stage_count

place-Entry :
    (stage_count : ℕ) (mapped : Mapped) (identifier : List ℕ) (path : Option (List ℕ))
    (o : Option ℕ) (entry : ℕ × List ℕ)
    → stage_index_from_directory_id identifier ≡ o
    → place stage_count mapped identifier path o ≡ ok entry
    → Entry stage_count mapped identifier path entry
place-Entry stage_count mapped identifier path none entry named placed = cc
place-Entry stage_count mapped identifier none (some index) entry named placed =
    absurd (ground (arith, placed))
place-Entry stage_count mapped identifier (some text) (some index) entry named placed = record {
  named = ground (arith, named, placed);
  has_path = ground (arith, placed);
  fresh = ground (arith, placed);
  in_workflow = ground (arith, placed);
}

InRange-later :
    (n : ℕ) (mapped : Mapped) (j : ℕ) (path : List ℕ)
    → InRange n mapped
    → 1 ≤ j
    → j ≤ n
    → InRange n ((j, path) ∷ mapped)
InRange-later n mapped j path in_range lower upper i named =
    ground (arith, named, in_range i, ==_iff j i)

path_of-first :
    (i : ℕ) (path : List ℕ) (mapped : Mapped) → path_of i ((i, path) ∷ mapped) ≡ some path
path_of-first i path mapped = ground arith

map_directories-Extends :
    (stage_count : ℕ) (mapped : Mapped) (directories : Directories) (result : Mapped)
    → Unique mapped
    → InRange stage_count mapped
    → map_directories stage_count mapped directories ≡ ok result
    → Extends stage_count mapped directories result
unfolding map_directories
map_directories-Extends n mapped [] result unique in_range returned =
    let same = ok-injective RecordError {x = mapped} {y = result} returned in
    record {
      unique = subst Unique same unique;
      in_range = subst (InRange n) same in_range;
      kept = λ i path found. subst (λ m. path_of i m ≡ some path) same found;
      placed = tt;
    }
map_directories-Extends n mapped ((identifier, path) ∷ directories) result unique in_range
      returned =
    let (entry, placed, later) =
      >>=-eq-ok (place n mapped identifier path (stage_index_from_directory_id identifier))
        (λ (entry : ℕ × List ℕ). map_directories n (entry ∷ mapped) directories) returned in
    let e =
      place-Entry n mapped identifier path (stage_index_from_directory_id identifier) entry refl
        placed in
    let rest =
      map_directories-Extends n (entry ∷ mapped) directories result (e.fresh, unique)
        (InRange-later n mapped entry.0 entry.1 in_range
          (stage_index-pos identifier entry.0 e.named) e.in_workflow)
        later in
    record {
      unique = rest.unique;
      in_range = rest.in_range;
      kept = λ i p found. rest.kept i p (path_of-later i entry.0 entry.1 p mapped e.fresh found);
      placed = (
        (
          entry.0,
          entry.1,
          e.named,
          e.has_path,
          rest.kept entry.0 entry.1 (path_of-first entry.0 entry.1 mapped),
        ),
        rest.placed,
      );
    }

names_up_to-names :
    (n : ℕ) (mapped : Mapped)
    → names_up_to n mapped ≡ true
    → (i : ℕ) → 1 ≤ i
    → i ≤ n
    → names_index i mapped ≡ true
names_up_to-names zero mapped all_named i lower upper = absurd (omega arith)
names_up_to-names (suc n) mapped all_named i lower upper = elim (Bool-cases (suc n == i)) [
  | inl same ↦ ground (arith, all_named, same, ==_iff (suc n) i)
  | inr other ↦
      names_up_to-names n mapped (ground (arith, all_named)) i lower (ground (arith, other))
]

-- When the stage directories of a record are accepted, each has a path and an identifier that
-- names a stage of the workflow, the result has this path at this stage and no stage twice, and in
-- a workflow of several stages every stage has one.
pub validate_stage_directories-Names :
    (stage_count : ℕ) (directories : Directories) (mapped : Mapped)
    → validate_stage_directories stage_count directories ≡ ok mapped
    → Names stage_count directories mapped
unfolding validate_stage_directories
validate_stage_directories-Names n directories mapped returned =
    let (m, looped, checked) =
      >>=-eq-ok (map_directories n [] directories)
        (λ (m : Mapped).
          raise_if (ltb 1 n && not (names_up_to n m && within n m)) not_every_stage >> ok m)
        returned in
    let (passed, last) =
      >>-eq-ok (raise_if (ltb 1 n && not (names_up_to n m && within n m)) not_every_stage) (ok m)
        checked in
    let same = ok-injective RecordError {x = m} {y = mapped} last in
    let e =
      map_directories-Extends n [] directories m tt (λ i named. absurd (ground (arith, named)))
        looped in
    let passes =
      raise_if-eq-ok (ltb 1 n && not (names_up_to n m && within n m)) not_every_stage passed in
    subst (Names n directories) same (record {
      unique = e.unique;
      in_range = e.in_range;
      placed = e.placed;
      complete = λ several. names_up_to-names n m (ground (arith, passes, several));
    })
