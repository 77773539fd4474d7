-- ===== src/Monitoring/Rows.antt =====
-- backend/monitoring.py, parse_sacct_row: the row that sacct prints of a job is one line of seven fields.
use bmd_compute.Prelude.{
  ℕ, Bool, true, false, not, ◌&&◌, List, [], ◌∷◌, ◌++◌, all, take, ◌==◌, ◌≡◌, ◌≢◌, refl, sym, ap,
  append_assoc, append-nil, ◌∙◌, arith,
}
use bmd_compute.Prelude.Text.{codes_eq-same}
use bmd_compute.Prelude.Split.{split_on, free, split_on-part, split_on-last}
use bmd_compute.Monitoring.Output.{is_break, lines_from, JobInfo, first_row, parse_sacct_row}

-- Neither a separator nor a line break.
abbrev pub is_plain : ℕ → Bool
is_plain c = not (c == 124) && not (is_break c)

-- The line that sacct prints of a job, with `|` between the fields.
abbrev pub row : List ℕ → JobInfo → List ℕ
row job info =
    job
    ++ (124
        ∷ (info.state
            ++ (124
                ∷ (info.exit_code
                    ++ (124
                        ∷ (info.jobname
                            ++ (124
                                ∷ (info.stdout
                                    ++ (124 ∷ (info.stderr ++ (124 ∷ info.workdir)))))))))))

pub record PlainRow (job_id : List ℕ) (info : JobInfo) : Type 0 where
  pub not_empty : job_id ≢ []
  pub job : all is_plain job_id ≡ true
  pub state : all is_plain info.state ≡ true
  pub exit_code : all is_plain info.exit_code ≡ true
  pub jobname : all is_plain info.jobname ≡ true
  pub stdout : all is_plain info.stdout ≡ true
  pub stderr : all is_plain info.stderr ≡ true
  pub workdir : all is_plain info.workdir ≡ true

free-plain : (x : List ℕ) → all is_plain x ≡ true → free 124 x ≡ true
free-plain [] plain = refl
free-plain (c ∷ x) plain = ground (arith, plain, free-plain x)

abbrev unbroken : ℕ → Bool
unbroken c = not (is_break c)

-- A line without a break is one line.
lines_from-line :
    (p : ℕ) (part x : List ℕ)
    → all unbroken x ≡ true
    → lines_from (p ∷ part) false x ≡ ((p ∷ part) ++ x) ∷ []
unfolding lines_from
lines_from-line p part [] plain = ap (λ l. (p ∷ l) ∷ []) (sym (append-nil part))
lines_from-line p part (c ∷ x) plain =
    ground (arith, plain, lines_from-line p (part ++ (c ∷ [])) x, append_assoc part (c ∷ []) x)

unbroken-plain : (x : List ℕ) → all is_plain x ≡ true → all unbroken x ≡ true
unbroken-plain [] plain = refl
unbroken-plain (c ∷ x) plain = ground (arith, plain, unbroken-plain x)

unbroken-append :
    (x y : List ℕ)
    → all is_plain x ≡ true
    → all unbroken y ≡ true
    → all unbroken (x ++ (124 ∷ y)) ≡ true
unbroken-append [] y plain rest = ground (arith, rest)
unbroken-append (c ∷ x) y plain rest = ground (arith, plain, unbroken-append x y)

-- The fields of a row, one after the other.
split_on-row :
    (job : List ℕ) (info : JobInfo)
    → PlainRow job info
    → split_on 124 [] (row job info)
      ≡ job ∷ info.state ∷ info.exit_code ∷ info.jobname ∷ info.stdout ∷ info.stderr ∷ info.workdir
        ∷ []
split_on-row job info plain =
    split_on-part 124 [] job _ (free-plain job plain.job)
    ∙ ap (λ l. job ∷ l)
        (split_on-part 124 [] info.state _ (free-plain info.state plain.state)
          ∙ ap (λ l. info.state ∷ l)
              (split_on-part 124 [] info.exit_code _ (free-plain info.exit_code plain.exit_code)
                ∙ ap (λ l. info.exit_code ∷ l)
                    (split_on-part 124 [] info.jobname _ (free-plain info.jobname plain.jobname)
                      ∙ ap (λ l. info.jobname ∷ l)
                          (split_on-part 124 [] info.stdout _ (free-plain info.stdout plain.stdout)
                            ∙ ap (λ l. info.stdout ∷ l)
                                (split_on-part 124 [] info.stderr _
                                    (free-plain info.stderr plain.stderr)
                                  ∙ ap (λ l. info.stderr ∷ l)
                                      (split_on-last 124 [] info.workdir
                                        (free-plain info.workdir plain.workdir)))))))

row-unbroken :
    (job : List ℕ) (info : JobInfo) → PlainRow job info → all unbroken (row job info) ≡ true
row-unbroken job info plain = unbroken-append job _ plain.job (
    unbroken-append info.state _ plain.state (
      unbroken-append info.exit_code _ plain.exit_code (
        unbroken-append info.jobname _ plain.jobname (
          unbroken-append info.stdout _ plain.stdout (
            unbroken-append info.stderr _ plain.stderr
              (unbroken-plain info.workdir plain.workdir))))))

lines_from-unbroken : (x : List ℕ) → x ≢ [] → all unbroken x ≡ true → lines_from [] false x ≡ x ∷ []
unfolding lines_from
lines_from-unbroken [] some_text plain = absurd (some_text refl)
lines_from-unbroken (c ∷ x) some_text plain = ground (arith, plain, lines_from-line c [] x)

append-not_empty : (x : List ℕ) (c : ℕ) (y : List ℕ) → (x ++ (c ∷ y)) ≢ []
append-not_empty [] c y = λ same. cc
append-not_empty (p ∷ x) c y = λ same. cc

lines_from-row :
    (job : List ℕ) (info : JobInfo)
    → PlainRow job info
    → lines_from [] false (row job info) ≡ row job info ∷ []
lines_from-row job info plain =
    lines_from-unbroken (row job info) (append-not_empty job 124 _) (row-unbroken job info plain)

first_row-row :
    (job : List ℕ) (info : JobInfo) → PlainRow job info → first_row job (row job info ∷ []) ≡ info
first_row-row job info plain = rw (split_on-row job info plain, codes_eq-same job)

pub parse_sacct_row-row :
    (job : List ℕ) (info : JobInfo) → PlainRow job info → parse_sacct_row job (row job info) ≡ info
unfolding parse_sacct_row
parse_sacct_row-row job info plain =
    ap (λ lines. first_row job (take 6 lines)) (lines_from-row job info plain)
    ∙ first_row-row job info plain
