-- ===== src/Monitoring.antt =====
-- backend/monitoring.py: the state of a Slurm job from the output of squeue, scontrol and sacct. Text
-- is the list of its code points.
pub mod States
pub mod Output
pub mod Rows
pub mod Status
