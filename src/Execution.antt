-- ===== src/Execution.antt =====
-- compute_api/ledger.py and compute_api/execution.py: the machine API's attempts.
pub mod Records
pub mod Limits
pub mod Submissions
pub mod Caps
pub mod Within
pub mod Bind
pub mod Bound
pub mod Refresh
pub mod Execute
pub mod Submits
pub mod Updates
pub mod Lookup
