-- ===== src/Attempt/Final.antt =====
-- What never changes again: the state of a submitted attempt.
use bmd_compute.Prelude.{ℕ, zero, suc, String, ◌∷◌, All-append-inv, ◌≡◌, refl, ◌∙◌, arith}
use bmd_compute.Attempt.Host.{submitted, AttemptState, recorded, Host, SubmissionSpec, Reply}
use bmd_compute.Attempt.Client.{Point, waits, advance}
use bmd_compute.Attempt.Schedule.{World, Step, step, Reach, start, later}
use bmd_compute.Attempt.Invariant.{Accounted, Relies, Relying, Sound}
use bmd_compute.Attempt.Safety.{Fresh, Reach-Sound, Step-Sound}

move-final :
    (r : Reply) (id : String) (spec : SubmissionSpec) (polls : ℕ) (p : Point) (h : Host)
    (s : AttemptState)
    → Accounted h.jobs h.state_file
    → Relies spec.submission_attempt_fingerprint p h
    → h.state_file ≡ recorded s
    → s.phase ≡ submitted
    → ((advance r id spec polls p h).0.jobs ≡ h.jobs)
      × ((advance r id spec polls p h).0.state_file ≡ h.state_file)
unfolding advance
move-final r id spec polls (waits last zero) h s a k e q = (refl, refl)
move-final r id spec polls (waits last (suc n)) h s a k e q = (refl, refl)
move-final r id spec polls p h s a k e q = ground (arith, e, q)

Step-final :
    {w v : World} (s : AttemptState)
    → Step w v
    → Sound w
    → w.host.state_file ≡ recorded s
    → s.phase ≡ submitted
    → (v.host.jobs ≡ w.host.jobs) × (v.host.state_file ≡ w.host.state_file)
Step-final s (step before after c r id h d) sound e q =
    let (_, k) = All-append-inv (Relying h) before (c ∷ after) sound.relying in
    move-final r id c.spec c.polls c.point h s sound.accounted k.0 e q

Reach-final :
    {w v : World} (s : AttemptState)
    → Sound w
    → w.host.state_file ≡ recorded s
    → s.phase ≡ submitted
    → Reach w v
    → Sound v × (v.host.jobs ≡ w.host.jobs) × (v.host.state_file ≡ w.host.state_file)
Reach-final s sound e q start = (sound, refl, refl)
Reach-final s sound e q (later r st) =
    let (sound', ej, ef) = Reach-final s sound e q r in
    let (fj, ff) = Step-final s st sound' (ef ∙ e) q in (Step-Sound st sound', fj ∙ ej, ff ∙ ef)

-- Once the state file of an attempt that started fresh says SUBMITTED, no further step of any
-- request changes the state file or queues a job.
pub submitted_state-final :
    (w v v' : World) (s : AttemptState)
    → Fresh w
    → Reach w v
    → v.host.state_file ≡ recorded s
    → s.phase ≡ submitted
    → Reach v v'
    → (v'.host.jobs ≡ v.host.jobs) × (v'.host.state_file ≡ v.host.state_file)
submitted_state-final w v v' s f r e q r' =
    let (_, ej, ef) = Reach-final s (Reach-Sound f r) e q r' in (ej, ef)
