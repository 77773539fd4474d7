-- ===== src/Attempt.antt =====
-- backend/paramiko_remote.py: the durable submission attempt on the cluster, and the requests that
-- prepare and submit it concurrently.
pub mod Host
pub mod Client
pub mod Schedule
pub mod Invariant
pub mod Moves
pub mod Safety
pub mod Final
pub mod Progress
