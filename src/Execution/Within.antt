-- ===== src/Execution/Within.antt =====
-- What the resource policy admits.
use bmd_compute.Prelude.{ℕ, ◌≤◌, some, ok, ◌≡◌, ◌↔◌, arith, Option-cases, inl, inr}
use bmd_compute.Execution.Records.{EffectiveResources}
use bmd_compute.Execution.Limits.{
  ExecutionPolicy, walltime_seconds, resource_problems, enforce_resource_policy,
}

pub record Within (policy : ExecutionPolicy) (r : EffectiveResources) : Type 0 where
  nodes_within : r.nodes ≤ policy.max_nodes
  cpus_within : r.cpus ≤ policy.max_cpus
  memory_within : r.memory_gb ≤ policy.max_memory_gb
  walltime_within :
      (s : ℕ) × (walltime_seconds r.walltime ≡ some s) × (s ≤ policy.max_walltime_seconds)

Within-of_ok :
    (policy : ExecutionPolicy) (r : EffectiveResources)
    → enforce_resource_policy policy r ≡ ok tt
    → Within policy r
unfolding enforce_resource_policy resource_problems
Within-of_ok policy r h = elim (Option-cases (walltime_seconds r.walltime)) [
  | inl e ↦ absurd (ground (arith, e, h))
  | inr (s, e) ↦ record {
    nodes_within = ground (arith, e, h);
    cpus_within = ground (arith, e, h);
    memory_within = ground (arith, e, h);
    walltime_within = (s, e, ground (arith, e, h));
  }
]

ok_of_Within :
    (policy : ExecutionPolicy) (r : EffectiveResources)
    → Within policy r
    → enforce_resource_policy policy r ≡ ok tt
unfolding enforce_resource_policy resource_problems
ok_of_Within policy r w =
    let (s, e, l) = w.walltime_within in
    ground (arith, e, l, w.nodes_within, w.cpus_within, w.memory_within)

-- The resource policy accepts exactly the resources whose nodes, CPUs and memory are within the
-- limits and whose wall time is readable and within its limit.
pub enforce_resource_policy_iff :
    (policy : ExecutionPolicy) (r : EffectiveResources)
    → (enforce_resource_policy policy r ≡ ok tt) ↔ Within policy r
enforce_resource_policy_iff policy r = (Within-of_ok policy r, ok_of_Within policy r)
