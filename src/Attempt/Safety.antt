-- ===== src/Attempt/Safety.antt =====
-- What the protocol promises over every interleaving of the requests.
use bmd_compute.Prelude.{
  ◌⊎◌, inl, inr, ◌+◌, ◌≤◌, String, false, some, List, [], ◌∷◌, ◌++◌, length, All, All-append,
  All-append-inv, ◌≡◌, refl, subst, arith, Bool-cases,
}
use bmd_compute.Attempt.Host.{submitted, AttemptState, StateFile, recorded, Job, Host, Reply}
use bmd_compute.Attempt.Client.{prepare_uploads, prepare_writes, Client, Point, advance}
use bmd_compute.Attempt.Schedule.{World, moved, Step, step, Reach, start, later}
use bmd_compute.Attempt.Invariant.{
  holds_claim, one_if, holders, NoJob, Closed, Open, Accounted, Relies, Relying, Sound,
}
use bmd_compute.Attempt.Moves.{move-lock, move-Relies, move-quiet}

holders-append : (xs ys : List Client) → holders (xs ++ ys) ≡ holders xs + holders ys
holders-append [] ys = omega arith
holders-append (c ∷ xs) ys = omega (arith, holders-append xs ys)

Relies-quiet : (fp : String) (p : Point) (h : Host) → holds_claim p ≡ false → Relies fp p h
Relies-quiet fp p h q = ground arith

quiet-Relying : (h : Host) (clients : List Client) → holders clients ≡ 0 → All (Relying h) clients
quiet-Relying h [] e = tt
quiet-Relying h (c ∷ clients) e = elim (Bool-cases (holds_claim c.point)) [
  | inl on ↦ absurd (ground (arith, on))
  | inr off ↦ (
    Relies-quiet c.spec.submission_attempt_fingerprint c.point h off,
    quiet-Relying h clients (ground (arith, off)),
  )
]

-- The part of the host that the requests rely on.
Relies-same :
    (fp : String) (p : Point) (h k : Host)
    → k.jobs ≡ h.jobs
    → k.state_file ≡ h.state_file
    → Relies fp p h
    → Relies fp p k
Relies-same fp p h k ej ef a = ground (arith, ej, ef)

same-Relying :
    (h k : Host) (clients : List Client)
    → k.jobs ≡ h.jobs
    → k.state_file ≡ h.state_file
    → All (Relying h) clients
    → All (Relying k) clients
same-Relying h k [] ej ef a = tt
same-Relying h k (c ∷ clients) ej ef a = (
  Relies-same c.spec.submission_attempt_fingerprint c.point h k ej ef a.0,
  same-Relying h k clients ej ef a.1,
)

-- The requests beside one that takes a step: they rely on nothing, or on what does not change.
others-Relying :
    (r : Reply) (id : String) (c : Client) (h : Host) (clients : List Client)
    → one_if (holds_claim c.point) + holders clients ≤ one_if h.attempt_lock
    → All (Relying h) clients
    → All (Relying (advance r id c.spec c.polls c.point h).0) clients
others-Relying r id c h clients e a = elim (Bool-cases (holds_claim c.point)) [
  | inl on ↦ quiet-Relying (advance r id c.spec c.polls c.point h).0 clients (ground (arith, on))
  | inr off ↦
      let (ej, ef) = move-quiet r id c.spec c.polls c.point h off in
      same-Relying h (advance r id c.spec c.polls c.point h).0 clients ej ef a
]

pub Step-Sound : {w w' : World} → Step w w' → Sound w → Sound w'
Step-Sound (step before after c r id h d) s =
    let p = advance r id c.spec c.polls c.point h in
    let c' = moved c p.1 in
    let e0 = holders-append before (c ∷ after) in
    let e1 = holders-append before (c' ∷ after) in
    let (a0, a1) = All-append-inv (Relying h) before (c ∷ after) s.relying in
    let lock =
      move-lock r id c.spec c.polls c.point h (holders before + holders after)
        (ground (arith, s.exclusive, e0)) in
    let (accounted, relies) = move-Relies r id c.spec c.polls c.point h d s.accounted a1.0 in
    record {
      exclusive = ground (arith, lock, e1);
      accounted = accounted;
      relying =
          All-append (Relying p.0) before (c' ∷ after)
            (others-Relying r id c h before (ground (arith, s.exclusive, e0)) a0)
            (relies, others-Relying r id c h after (ground (arith, s.exclusive, e0)) a1.1);
    }

-- A fresh attempt: nothing queued or submitted, and no request holds the lock.
abbrev pub Fresh : World → Type 0
Fresh w = NoJob w.host.jobs × Open w.host.state_file × (holders w.clients ≡ 0)

Open-Accounted : (jobs : List Job) (file : StateFile) → NoJob jobs → Open file → Accounted jobs file
Open-Accounted [] file n o = o
Open-Accounted (job ∷ jobs) file n o = absurd (ground (arith, n))

Fresh-Sound : (w : World) → Fresh w → Sound w
Fresh-Sound w f = record {
  exclusive = ground (arith, f);
  accounted = Open-Accounted w.host.jobs w.host.state_file f.0 f.1;
  relying = quiet-Relying w.host w.clients f.2;
}

pub Reach-Sound : {w w' : World} → Fresh w → Reach w w' → Sound w'
Reach-Sound {w} f start = Fresh-Sound w f
Reach-Sound f (later r s) = Step-Sound s (Reach-Sound f r)

-- However concurrent requests prepare and submit a fresh attempt, with any failure of any remote
-- operation, Slurm accepts at most one job for it and at most one request holds the lock, given
-- that an sbatch that exits with an error queued no job.
pub at_most_one_job :
    (w w' : World) → Fresh w → Reach w w' → (length w'.host.jobs ≤ 1) × (holders w'.clients ≤ 1)
at_most_one_job w w' f r = let s = Reach-Sound f r in ground (arith, s.accounted, s.exclusive)

job_of_phase :
    (job : Job) (state : AttemptState)
    → Closed job (recorded state)
    → state.phase ≡ submitted
    → (state.job_id ≡ some job.job_id) × (state.fingerprint ≡ job.fingerprint)
job_of_phase job state a q = ground (arith, a, q)

job_of_state :
    (jobs : List Job) (state : AttemptState)
    → Accounted jobs (recorded state)
    → state.phase ≡ submitted
    → (job : Job) × (jobs ≡ job ∷ [])
      × (state.job_id ≡ some job.job_id)
      × (state.fingerprint ≡ job.fingerprint)
job_of_state [] state a q = absurd (ground (arith, a, q))
job_of_state (job ∷ []) state a q = (let (i, f) = job_of_phase job state a q in (job, refl, i, f))
job_of_state (i ∷ j ∷ jobs) state a q = absurd (ground (arith, a))

-- Where the state file of an attempt that started fresh says SUBMITTED, Slurm accepted exactly one
-- job, and the file has that job's id and the fingerprint of its submission.
pub submitted_state-job :
    (w w' : World) (state : AttemptState)
    → Fresh w
    → Reach w w'
    → w'.host.state_file ≡ recorded state
    → state.phase ≡ submitted
    → (job : Job) × (w'.host.jobs ≡ job ∷ [])
      × (state.job_id ≡ some job.job_id)
      × (state.fingerprint ≡ job.fingerprint)
submitted_state-job w w' state f r e q =
    let s = Reach-Sound f r in
    job_of_state w'.host.jobs state (subst (Accounted w'.host.jobs) e s.accounted) q

uploading-NoJob :
    (h : Host) (c : Client)
    → Relying h c
    → (c.point ≡ prepare_uploads) ⊎ (c.point ≡ prepare_writes)
    → NoJob h.jobs
uploading-NoJob h c k (inl e) =
    (subst (λ p. Relies c.spec.submission_attempt_fingerprint p h) e k).0
uploading-NoJob h c k (inr e) =
    (subst (λ p. Relies c.spec.submission_attempt_fingerprint p h) e k).0

NoJob-empty : (jobs : List Job) → NoJob jobs → jobs ≡ []
NoJob-empty [] n = refl
NoJob-empty (job ∷ jobs) n = absurd (ground (arith, n))

-- While any request to an attempt that started fresh uploads the files of the run, or writes
-- PREPARED after it, Slurm has accepted no job of the attempt.
pub prepare_uploads-NoJob :
    (w w' : World) (before after : List Client) (c : Client)
    → Fresh w
    → Reach w w'
    → w'.clients ≡ before ++ c ∷ after
    → (c.point ≡ prepare_uploads) ⊎ (c.point ≡ prepare_writes)
    → w'.host.jobs ≡ []
prepare_uploads-NoJob w w' before after c f r e at =
    let s = Reach-Sound f r in
    let all = subst (All (Relying w'.host)) e s.relying in
    let (_, k) = All-append-inv (Relying w'.host) before (c ∷ after) all in
    NoJob-empty w'.host.jobs (uploading-NoJob w'.host c k.0 at)
