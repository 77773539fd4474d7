-- ===== src/Attempt/Schedule.antt =====
-- Requests that run concurrently: any of them takes the next step.
use bmd_compute.Prelude.{ℕ, String, true, false, List, [], ◌∷◌, ◌++◌, All, ◌≡◌}
use bmd_compute.Attempt.Host.{SubmissionSpec, Host, Reply, refused}
use bmd_compute.Attempt.Client.{Client, Point, advance}

pub record World : Type 0 where
  pub host : Host
  pub clients : List Client

abbrev pub moved : Client → Point → Client
moved c p = record c { point = p }

-- `sbatch` that exits with an error queued no job, which is what Slurm documents.
abbrev pub Documented : Reply → Type 0
Documented (refused true) = true ≡ false
Documented _ = Unit

-- One request's next operation, which the host answers with `r`.
pub data Step : World → World → Type 0 where
  step :
      (before after : List Client) (c : Client) (r : Reply) (id : String) (h : Host)
      → Documented r
      → Step
          (record { host = h; clients = before ++ c ∷ after })
          (record {
            host = (advance r id c.spec c.polls c.point h).0;
            clients = before ++ moved c (advance r id c.spec c.polls c.point h).1 ∷ after;
          })

-- The worlds that the requests reach, which start in any order and at any time.
pub data Reach (w : World) : World → Type 0 where
  start : Reach w w
  later : {v v' : World} → Reach w v → Step v v' → Reach w v'

-- A request that runs alone, with the host's answers in order.
unfoldable pub run_alone : List Reply → String → SubmissionSpec → ℕ → Point → Host → Host × Point
run_alone [] id spec polls p h = (h, p)
run_alone (r ∷ replies) id spec polls p h =
    let next = advance r id spec polls p h in run_alone replies id spec polls next.1 next.0

-- Any request may run for a while without the others.
pub Reach-run_alone :
    (replies : List Reply) (id : String) {w : World} (h : Host) (before after : List Client)
    (c : Client)
    → All Documented replies
    → Reach w (record { host = h; clients = before ++ c ∷ after })
    → Reach w (record {
      host = (run_alone replies id c.spec c.polls c.point h).0;
      clients = before ++ moved c (run_alone replies id c.spec c.polls c.point h).1 ∷ after;
    })
unfolding run_alone
Reach-run_alone [] id h before after c d r = r
Reach-run_alone (x ∷ replies) id h before after c d r =
    let next = advance x id c.spec c.polls c.point h in
    Reach-run_alone replies id next.0 before after (moved c next.1) d.1
      (later r (step before after c x id h d.0))
